-- ===== src/Trust/Starvation.antt =====
-- Repeating a pass: what it never changes again, and what it never reaches.
use cryptopulse.Prelude.{
  ℕ, zero, suc, ◌≡◌, ◌∙◌, sym, refl, inl, inr, String, false, List, [], ◌∷◌, arith, Bool-cases, All,
  str_eq,
}
use cryptopulse.Prelude.Int.{ℤ, pos, ltb_ℤ}
use cryptopulse.Python.Call.{returned, returned-injective}
use cryptopulse.Contracts.Events.{InternalEvent}
use cryptopulse.Validation.Rules.{Rule}
use cryptopulse.Warehouse.World.{Environment, World, Result, ok, err}
use cryptopulse.Warehouse.Effects.{bind_keeps}
use cryptopulse.Warehouse.Table.{has_key}
use cryptopulse.Warehouse.Table.Keys.{has_key-insert_new_ne}
use cryptopulse.Warehouse.Bronze
use cryptopulse.Trust.{TrustRoutingResult, nothing_routed, route_one, route_all, process_batch}
use cryptopulse.Trust.Frame.{
  trusted_row, silver-route_one, process_batch-OnlyAdds, replay-SameTables,
}
use cryptopulse.Trust.Routing.{
  KeepsText, event_id-trusted_row, read_and_route, process_batch-limit_ok, process_batch-bad_limit,
}
use cryptopulse.Trust.Passes.{
  decoded, decoded-bronze, replay-decoded, Settled, process_batch-still, process_batch-Settled,
  process_batch-settles,
}

-- `n` passes in a row, whatever each of them returns or raises.
abbrev pub passes : Environment → List Rule → ℕ → ℤ → World → World
passes env rules zero limit w = w
passes env rules (suc n) limit w = passes env rules n limit (process_batch env rules limit w).1

passes-still :
    (env : Environment) (rules : List Rule) (keeps : KeepsText env) (n : ℕ) (limit : ℤ) (w : World)
    → Settled env rules keeps limit w
    → (passes env rules n limit w).silver ≡ w.silver
passes-still env rules keeps zero limit w s = refl
passes-still env rules keeps (suc n) limit w s =
    passes-still env rules keeps n limit (process_batch env rules limit w).1
      (process_batch-Settled env rules keeps limit w s)
    ∙ process_batch-still env rules keeps limit w s

-- After one pass that succeeded, no number of further passes with its limit changes Silver, whether
-- they succeed or fail. (Texts come back from the server as they were stored.)
pub passes-silver :
    (env : Environment) (rules : List Rule) (n : ℕ) (limit : ℤ) (r : TrustRoutingResult) (w : World)
    → KeepsText env
    → (process_batch env rules limit w).0 ≡ ok r
    → (passes env rules n limit (process_batch env rules limit w).1).silver
      ≡ (process_batch env rules limit w).1.silver
passes-silver env rules n limit r w keeps h =
    passes-still env rules keeps n limit (process_batch env rules limit w).1
      (process_batch-settles env rules keeps limit r w h)

-- None of the events has the identity `k`.
abbrev pub Misses : String → List InternalEvent → Type 0
Misses k = All (λ e. str_eq e.event_id k ≡ false)

module _ (env : Environment) (rules : List Rule) (keeps : KeepsText env) (k : String) where
  abbrev Absent : World → Type 0
  Absent w = has_key "event_id" k w.silver ≡ false

  route_one-Absent :
      (e : InternalEvent) (r : TrustRoutingResult) (w : World)
      → str_eq e.event_id k ≡ false
      → Absent w
      → Absent (route_one env rules e r w).1
  route_one-Absent e r w h a = rw (silver-route_one env rules e w r) (
      ground (
        arith,
        event_id-trusted_row env rules e w keeps,
        has_key-insert_new_ne "event_id" k (trusted_row env rules e w) w.silver
            (rw (event_id-trusted_row env rules e w keeps) h),
      ))

  route_all-Absent :
      (es : List InternalEvent) (r : TrustRoutingResult) (w : World)
      → Misses k es
      → Absent w
      → Absent (route_all env rules es r w).1
  unfolding route_all
  route_all-Absent [] r w m = λ a. a
  route_all-Absent (e ∷ es) r w m =
      bind_keeps (λ u v. Absent u → Absent v) (λ u v x h i a. i (h a)) (route_one env rules e r) _ w
        (λ a. route_one-Absent e r w m.0 a) λ r'. route_all-Absent es r' _ m.1

  read_and_route-Absent :
      (limit : ℤ) (w : World) (es : List InternalEvent)
      → decoded env limit w ≡ returned es
      → Misses k es
      → Absent w
      → Absent (read_and_route env rules limit w).1
  read_and_route-Absent limit w es page m a = go (Bronze.replay env (pos 0) limit w).0 refl
    where
      go :
          (x : Result (List InternalEvent))
          → (Bronze.replay env (pos 0) limit w).0 ≡ x
          → Absent (read_and_route env rules limit w).1
      go (err e) h = rw (h, (replay-SameTables env (pos 0) limit w).1) a
      go (ok es') h =
          let same : es' ≡ es =
            returned-injective (sym (replay-decoded env limit w es' h) ∙ page) in
          rw h (
            route_all-Absent es' nothing_routed (Bronze.replay env (pos 0) limit w).1 (rw same m)
              (rw (replay-SameTables env (pos 0) limit w).1 a))

  process_batch-Absent :
      (limit : ℤ) (w : World) (es : List InternalEvent)
      → decoded env limit w ≡ returned es
      → Misses k es
      → Absent w
      → Absent (process_batch env rules limit w).1
  process_batch-Absent limit w es page m a = elim (Bool-cases (ltb_ℤ limit (pos 1))) [
    | inl bad ↦ rw (process_batch-bad_limit env rules limit w bad) a
    | inr good ↦
        rw (process_batch-limit_ok env rules limit w good)
          (read_and_route-Absent limit w es page m a)
  ]

-- An event that is not among the first `limit` of Bronze in replay order, and not in Silver, is not
-- in Silver after any number of passes: each pass reads the same first page. (Texts come back from
-- the server as they were stored.)
pub passes_starve :
    (env : Environment) (rules : List Rule) (n : ℕ) (limit : ℤ) (k : String) (w : World)
    (es : List InternalEvent)
    → KeepsText env
    → decoded env limit w ≡ returned es
    → Misses k es
    → has_key "event_id" k w.silver ≡ false
    → has_key "event_id" k (passes env rules n limit w).silver ≡ false
passes_starve env rules zero limit k w es keeps page m a = a
passes_starve env rules (suc n) limit k w es keeps page m a =
    passes_starve env rules n limit k (process_batch env rules limit w).1 es keeps
      (decoded-bronze env limit w _ (process_batch-OnlyAdds env rules limit w).bronze ∙ page) m
      (process_batch-Absent env rules keeps k limit w es page m a)
