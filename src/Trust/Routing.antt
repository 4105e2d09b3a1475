-- ===== src/Trust/Routing.antt =====
-- What a batch that succeeds has done with each event.
use mathlib.Core.List.{append_assoc, append-nil}
use cryptopulse.Prelude.{
  ◌+◌, ◌≡◌, ◌∙◌, ap, inl, inr, String, Bool, true, false, not, List, [], ◌∷◌, ◌++◌, arith,
  Bool-cases, length, length-append, select,
}
use cryptopulse.Prelude.Int.{ℤ, pos, ltb_ℤ}
use cryptopulse.Python.Value.{text}
use cryptopulse.Contracts.Events.{InternalEvent}
use cryptopulse.Validation.Rules.{Rule}
use cryptopulse.Validation.Engine.{trusted_event_from}
use cryptopulse.Warehouse.Rows.{Row}
use cryptopulse.Warehouse.Schemas.Silver.{trusted_event_to_record}
use cryptopulse.Warehouse.World.{
  Environment, World, Action, ok, err, value_error, now, execute, ◌>>=◌,
}
use cryptopulse.Warehouse.Effects.{>>=-eq-ok}
use cryptopulse.Warehouse.Table.{stored, text_cell}
use cryptopulse.Warehouse.Bronze
use cryptopulse.Warehouse.Silver
use cryptopulse.Warehouse.Quarantine
use cryptopulse.Trust.Rounds.{decide, route_one-route}
use cryptopulse.Trust.{
  TrustRoutingResult, nothing_routed, route, route_one, route_all, process_batch,
}
use cryptopulse.Trust.Frame.{trusted_row, rejected_row, replay-SameTables}

-- A text comes back from the server as it was stored.
abbrev pub KeepsText : Environment → Type 0
KeepsText env = (s : String) → env.column (text s) ≡ text s

pub event_id-trusted_row :
    (env : Environment) (rules : List Rule) (e : InternalEvent) (w : World)
    → KeepsText env
    → text_cell "event_id" (trusted_row env rules e w) ≡ e.event_id
unfolding stored trusted_event_to_record trusted_event_from text_cell
event_id-trusted_row env rules e w keeps = rw (keeps e.event_id)

module _ (env : Environment) (rules : List Rule) where
  abbrev pub accepts : InternalEvent → Bool
  accepts e = (decide env rules e).valid

  abbrev pub rejects : InternalEvent → Bool
  rejects e = not (accepts e)

  -- One round adds its event to one of the lists, and a row to one of the tables.
  route_one-ok :
      (e : InternalEvent) (r r' : TrustRoutingResult) (w : World)
      → (route_one env rules e r w).0 ≡ ok r'
      → (r'.validated ≡ r.validated ++ select accepts (e ∷ []))
        × (r'.quarantined ≡ r.quarantined ++ select rejects (e ∷ []))
        × (length (route_one env rules e r w).1.quarantine
            ≡ length w.quarantine + length (select rejects (e ∷ [])))
  unfolding route now execute Silver.append Quarantine.append_record
  route_one-ok e r r' w h =
      let same = route_one-route env rules e r w in
      let h' : (route env rules e r (decide env rules e) w).0 ≡ ok r' = rw same at h in
      rw same (
        ground (arith, append-nil r.validated),
        ground (arith, append-nil r.quarantined),
        ground (arith, length-append w.quarantine (rejected_row env rules e w ∷ [])),
      )

  select-cons :
      (p : InternalEvent → Bool) (xs : List InternalEvent) (e : InternalEvent)
      (es : List InternalEvent)
      → (xs ++ select p (e ∷ [])) ++ select p es ≡ xs ++ select p (e ∷ es)
  select-cons p xs e es = elim (Bool-cases (p e)) [
    | inl h ↦ rw h (append_assoc xs (e ∷ []) (select p es))
    | inr h ↦ rw h (ap (λ (t : List InternalEvent). t ++ select p es) (append-nil xs))
  ]

  length-select-cons :
      (p : InternalEvent → Bool) (e : InternalEvent) (es : List InternalEvent)
      → length (select p (e ∷ es)) ≡ length (select p (e ∷ [])) + length (select p es)
  length-select-cons p e es = elim (Bool-cases (p e)) [
    | inl h ↦ rw h (omega arith)
    | inr h ↦ rw h (omega arith)
  ]

  -- What a loop over `es` that returned `r'` has done.
  abbrev Routed :
      List InternalEvent → TrustRoutingResult → TrustRoutingResult → World → World → Type 0
  Routed es r r' w w' =
      (r'.validated ≡ r.validated ++ select accepts es)
      × (r'.quarantined ≡ r.quarantined ++ select rejects es)
      × (length w'.quarantine ≡ length w.quarantine + length (select rejects es))

  route_all-ok :
      (es : List InternalEvent) (r r' : TrustRoutingResult) (w : World)
      → (route_all env rules es r w).0 ≡ ok r'
      → Routed es r r' w (route_all env rules es r w).1
  unfolding route_all
  route_all-ok [] r r' w h = (
    ground (arith, append-nil r.validated),
    ground (arith, append-nil r.quarantined),
    omega arith,
  )
  route_all-ok (e ∷ es) r r' w h =
      let (m, first, rest) =
        >>=-eq-ok (route_one env rules e r) (λ (t : TrustRoutingResult). route_all env rules es t) w
          h in
      let one = route_one-ok e r m w first in
      let more = route_all-ok es m r' (route_one env rules e r w).1 rest in
      rw first (
        more.0
            ∙ ap (λ (t : List InternalEvent). t ++ select accepts es) one.0
            ∙ select-cons accepts r.validated e es,
        more.1
            ∙ ap (λ (t : List InternalEvent). t ++ select rejects es) one.1
            ∙ select-cons rejects r.quarantined e es,
        omega (arith, more.2, one.2, length-select-cons rejects e es),
      )

  -- After the test of the limit: read a page, and route it.
  abbrev pub read_and_route : ℤ → Action TrustRoutingResult
  read_and_route limit = do
    events ← Bronze.replay env (pos 0) limit
    route_all env rules events nothing_routed

  pub process_batch-limit_ok :
      (limit : ℤ) (w : World)
      → ltb_ℤ limit (pos 1) ≡ false
      → process_batch env rules limit w ≡ read_and_route limit w
  unfolding process_batch
  process_batch-limit_ok limit w h = rw h

  pub process_batch-bad_limit :
      (limit : ℤ) (w : World)
      → ltb_ℤ limit (pos 1) ≡ true
      → process_batch env rules limit w ≡ (err (value_error "limit must be >= 1"), w)
  unfolding process_batch
  process_batch-bad_limit limit w h = rw h

  read_and_route-ok :
      (limit : ℤ) (r : TrustRoutingResult) (w : World)
      → (read_and_route limit w).0 ≡ ok r
      → (events : List InternalEvent) × ((Bronze.replay env (pos 0) limit w).0 ≡ ok events)
        × (r.validated ≡ select accepts events)
        × (r.quarantined ≡ select rejects events)
        × (length (read_and_route limit w).1.quarantine
            ≡ length w.quarantine + length (select rejects events))
  read_and_route-ok limit r w h =
      let (events, read, routed) =
        >>=-eq-ok (Bronze.replay env (pos 0) limit)
          (λ (t : List InternalEvent). route_all env rules t nothing_routed) w h in
      let done =
        route_all-ok events nothing_routed r (Bronze.replay env (pos 0) limit w).1 routed in
      (
        events,
        read,
        done.0,
        done.1,
        rw read (
            omega (
              arith,
              done.2,
              ap (λ (t : List Row). length t) (replay-SameTables env (pos 0) limit w).2,
            )),
      )

  -- If a batch returns, then Bronze was read; the validated events are those that the engine
  -- accepts and the quarantined ones those that it rejects, each in the order read; and Quarantine
  -- has one row more for each of the latter.
  pub process_batch-ok :
      (limit : ℤ) (r : TrustRoutingResult) (w : World)
      → (process_batch env rules limit w).0 ≡ ok r
      → (events : List InternalEvent) × ((Bronze.replay env (pos 0) limit w).0 ≡ ok events)
        × (r.validated ≡ select accepts events)
        × (r.quarantined ≡ select rejects events)
        × (length (process_batch env rules limit w).1.quarantine
            ≡ length w.quarantine + length (select rejects events))
  process_batch-ok limit r w h = elim (Bool-cases (ltb_ℤ limit (pos 1))) [
    | inl bad ↦ absurd (ground (arith, process_batch-bad_limit limit w bad))
    | inr good ↦
        rw (process_batch-limit_ok limit w good)
          (read_and_route-ok limit r w (rw (process_batch-limit_ok limit w good) at h))
  ]
