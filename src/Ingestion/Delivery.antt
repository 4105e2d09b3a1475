-- ===== src/Ingestion/Delivery.antt =====
-- At-least-once delivery: what an ingestion has committed is in Bronze.
use cryptopulse.Prelude.{
  ℕ, suc, ◌+◌, ◌-◌, ◌<◌, ◌≤◌, ◌≡◌, ◌∙◌, sym, ap, refl, ◌⊎◌, inl, inr, String, Bool, true, false,
  List, [], ◌∷◌, ◌++◌, map, Option, arith, Bool-cases, All, take, length, if◌then◌else◌,
}
use Prim.Native.Nat.{min}
use mathlib.Core.List.{append_assoc, append-nil}
use cryptopulse.Prelude.Int.{ℤ, pos, negsuc, pos_part, ltb_ℤ, leb_ℤ}
use cryptopulse.Contracts.Events.{InternalEvent}
use cryptopulse.Warehouse.Schemas.Bronze.{internal_event_to_record}
use cryptopulse.Warehouse.World.{
  Environment, World, Error, Result, ok, err, Action, pure, execute, ◌>>◌,
}
use cryptopulse.Warehouse.Effects.{>>_assoc}
use cryptopulse.Warehouse.Rows.{Row}
use cryptopulse.Warehouse.Table.{stored, text_cell, has_key, find_key, insert_new}
use cryptopulse.Warehouse.Table.Keys.{has_key-insert_new, has_key-insert_new_mono}
use cryptopulse.Warehouse.Bronze
use cryptopulse.Trust.Routing.{KeepsText}
use cryptopulse.Ingestion.Stored.{bronze_row, rows_of, insert_all, find_key-insert_all}
use cryptopulse.Ingestion.{
  Message, ConsumedEvent, offsets, stream_events, commit, acknowledge, ingest_loop, ingest,
}

-- The event's identity is in Bronze.
abbrev pub IsHeld : World → ConsumedEvent → Type 0
IsHeld w c = has_key "event_id" c.event.event_id w.bronze ≡ true

event_id-bronze_row :
    (env : Environment) (e : InternalEvent)
    → KeepsText env
    → text_cell "event_id" (bronze_row env e) ≡ e.event_id
unfolding stored internal_event_to_record text_cell
event_id-bronze_row env e keeps = rw (keeps e.event_id)

-- The identities in Bronze stay there.
abbrev Grows : World → World → Type 0
Grows w w' =
    (k : String) → has_key "event_id" k w.bronze ≡ true → has_key "event_id" k w'.bronze ≡ true

-- `done` are the events whose offsets were committed on the way from `w` to `w'`.
record Acknowledged (done : List ConsumedEvent) (w w' : World) : Type 0 where
  commits : w'.commits ≡ w.commits ++ map offsets done
  held : All (IsHeld w') done
  grows : Grows w w'

-- One round: append and acknowledge.
abbrev pub round : Environment → ConsumedEvent → Action (Unit {0})
round env c = do Bronze.append env c.event; acknowledge env true c

module _ (env : Environment) (keeps : KeepsText env) where
  bronze-round :
      (c : ConsumedEvent) (w : World)
      → (round env c w).1.bronze ≡ (
          if env.refuses w.ticks
          then w.bronze
          else insert_new "event_id" (bronze_row env c.event) w.bronze)
  unfolding acknowledge commit execute Bronze.append
  bronze-round c w = ground arith

  commits-round :
      (c : ConsumedEvent) (w : World)
      → (((round env c w).0 ≡ ok tt)
          × ((round env c w).1.commits ≡ w.commits ++ offsets c ∷ [])
          × (env.refuses w.ticks ≡ false))
        ⊎ ((e : Error) × ((round env c w).0 ≡ err e) × ((round env c w).1.commits ≡ w.commits))
  unfolding acknowledge commit execute Bronze.append
  commits-round c w = elim (Bool-cases (env.refuses w.ticks)) [
    | inl refused ↦ rw refused (inr (_, refl, refl))
    | inr stored ↦ elim (Bool-cases (env.refuses (suc w.ticks))) [
      | inl refused ↦ rw (stored, refused) (inr (_, refl, refl))
      | inr done ↦ rw (stored, done) (inl (refl, refl, refl))
    ]
  ]

  Grows-round : (c : ConsumedEvent) (w : World) → Grows w (round env c w).1
  Grows-round c w k h = rw (bronze-round c w) (elim (Bool-cases (env.refuses w.ticks)) [
    | inl refused ↦ rw refused h
    | inr done ↦ rw done (has_key-insert_new_mono "event_id" k (bronze_row env c.event) w.bronze h)
  ])

  IsHeld-round :
      (c : ConsumedEvent) (w : World) → env.refuses w.ticks ≡ false → IsHeld (round env c w).1 c
  IsHeld-round c w done =
      rw (bronze-round c w, done)
        (rw (event_id-bronze_row env c.event keeps) at
          (has_key-insert_new "event_id" (bronze_row env c.event) w.bronze))

  Grows-IsHeld :
      (cs : List ConsumedEvent) (u v : World) → Grows u v → All (IsHeld u) cs → All (IsHeld v) cs
  Grows-IsHeld [] u v g h = tt
  Grows-IsHeld (c ∷ cs) u v g h = (g c.event.event_id h.0, Grows-IsHeld cs u v g h.1)

  Acknowledged-trans :
      (c : ConsumedEvent) (cs : List ConsumedEvent) (u v w : World)
      → Acknowledged (c ∷ []) u v
      → Acknowledged cs v w
      → Acknowledged (c ∷ cs) u w
  Acknowledged-trans c cs u v w h k = record {
    commits = k.commits ∙ rw h.commits (append_assoc u.commits (offsets c ∷ []) (map offsets cs));
    held = (k.grows c.event.event_id h.held.0, k.held);
    grows = λ i p. k.grows i (h.grows i p);
  }

  -- Bronze has the rows of the first events, of `n` at least.
  abbrev Stored : ℕ → List ConsumedEvent → World → World → Type 0
  Stored n cs w w' = (k : ℕ) × (n ≤ k) × (w'.bronze ≡ insert_all env (take k cs) w.bronze)

  Stored-none : (cs : List ConsumedEvent) (w : World) → Stored 0 cs w w
  unfolding insert_all
  Stored-none cs w = (0, omega arith, refl)

  Stored-one :
      (c : ConsumedEvent) (cs : List ConsumedEvent) (w : World)
      → env.refuses w.ticks ≡ false
      → Stored 1 (c ∷ cs) w (round env c w).1
  unfolding insert_all
  Stored-one c cs w done = (1, omega arith, rw (bronze-round c w, done) refl)

  Stored-round :
      (c : ConsumedEvent) (cs : List ConsumedEvent) (w : World)
      → Stored 0 (c ∷ cs) w (round env c w).1
  unfolding insert_all
  Stored-round c cs w = elim (Bool-cases (env.refuses w.ticks)) [
    | inl refused ↦ (0, omega arith, rw (bronze-round c w, refused) refl)
    | inr done ↦ (1, omega arith, rw (bronze-round c w, done) refl)
  ]

  Stored-suc :
      (n : ℕ) (c : ConsumedEvent) (cs : List ConsumedEvent) (w w' : World)
      → env.refuses w.ticks ≡ false
      → Stored n cs (round env c w).1 w'
      → Stored (suc n) (c ∷ cs) w w'
  unfolding insert_all
  Stored-suc n c cs w w' done (k, least, is) = (
    suc k,
    omega (arith, least),
    is
        ∙ ap (λ (rows : List Row). insert_all env (take k cs) rows)
            (rw (bronze-round c w, done) refl),
  )

  -- A loop that has persisted `persisted` events acknowledges the next `n`, and says so if it
  -- returns.
  abbrev Ingested : ℕ → List ConsumedEvent → ℕ → World → Result ℕ × World → Type 0
  Ingested m cs persisted w out =
      (n : ℕ) × Acknowledged (take n cs) w out.1
      × Stored n cs w out.1
      × ((r : ℕ) → out.0 ≡ ok r → (r ≡ persisted + n) × (n ≡ min (m - persisted) (length cs)))

  stopped :
      (m : ℕ) (cs : List ConsumedEvent) (p : ℕ) (w w' : World) (e : Error)
      → w'.commits ≡ w.commits
      → Grows w w'
      → Stored 0 cs w w'
      → Ingested m cs p w (err e, w')
  stopped m cs p w w' e same g s = (
    0,
    record { commits = same ∙ sym (append-nil w.commits); held = tt; grows = g },
    s,
    λ r h. cc,
  )

  -- The rest of the loop after a round.
  abbrev next : ℕ → List ConsumedEvent → ℕ → Action ℕ
  next m cs p =
      if leb_ℤ (pos m) (pos (p + 1)) then pure (p + 1) else ingest_loop env (pos m) cs (p + 1)

  continued :
      (m : ℕ) (c : ConsumedEvent) (cs : List ConsumedEvent) (p : ℕ) (w : World)
      → Acknowledged (c ∷ []) w (round env c w).1
      → env.refuses w.ticks ≡ false
      → p < m
      → (p + 1 < m
          → Ingested m cs
              (p + 1)
              (round env c w).1
              (ingest_loop env (pos m) cs (p + 1) (round env c w).1))
      → Ingested m (c ∷ cs) p w (next m cs p (round env c w).1)
  continued m c cs p w a done h rest = elim (Bool-cases (leb_ℤ (pos m) (pos (p + 1)))) [
    | inl full ↦ rw full (1, a, Stored-one c cs w done, λ r e. (ground arith, ground arith))
    | inr room ↦ rw room (
        let (n, more, kept, count) = rest (ground arith) in
        (
          suc n,
          Acknowledged-trans c (take n cs) w (round env c w).1 _ a more,
          Stored-suc n c cs w (ingest_loop env (pos m) cs (p + 1) (round env c w).1).1 done kept,
          λ r e. (let both = count r e in (omega (arith, both.0), omega (arith, both.1))),
        ))
  ]

  ingest_loop-Ingested :
      (m : ℕ) (cs : List ConsumedEvent) (p : ℕ) (w : World)
      → p < m
      → Ingested m cs p w (ingest_loop env (pos m) cs p w)
  unfolding ingest_loop
  ingest_loop-Ingested m [] p w h = (
    0,
    record { commits = sym (append-nil w.commits); held = tt; grows = λ k i. i },
    Stored-none [] w,
    λ r e. let same : r ≡ p = cc in omega (arith, same),
  )
  ingest_loop-Ingested m (c ∷ cs) p w h =
      rw (>>_assoc (Bronze.append env c.event) (acknowledge env true c) (next m cs p) w)
        (elim (commits-round c w) [
          | inr (e, raised, same) ↦ rw raised (
              stopped m (c ∷ cs) p w (round env c w).1 e same (Grows-round c w)
                (Stored-round c cs w))
          | inl (fine, commits, done) ↦ rw fine (
              continued m c cs p w
                (record {
                  commits = commits;
                  held = (IsHeld-round c w done, tt);
                  grows = Grows-round c w;
                })
                done h (ingest_loop-Ingested m cs (p + 1) (round env c w).1))
        ])

  ingest_loop-limit :
      (max_events : ℤ) (cs : List ConsumedEvent) (w : World)
      → ltb_ℤ max_events (pos 1) ≡ false
      → Ingested (pos_part max_events) cs 0 w (ingest_loop env max_events cs 0 w)
  ingest_loop-limit (pos m) cs w h = ingest_loop-Ingested m cs 0 w (ground arith)
  ingest_loop-limit (negsuc m) cs w h = absurd (ground arith)

  module _ {ℓ} {Bytes : Type ℓ} (decode : Bytes → Option InternalEvent) (started : Bool)
      (messages : List (Message Bytes)) where
    ingest-Ingested :
        (max_events : ℤ) (w : World)
        → Ingested
            (pos_part max_events)
            (stream_events decode messages)
            0
            w
            (ingest env decode started messages max_events w)
    unfolding ingest
    ingest-Ingested max_events w = elim (Bool-cases (ltb_ℤ max_events (pos 1))) [
      | inl bad ↦ rw bad (stopped _ _ 0 w w _ refl (λ k h. h) (Stored-none _ w))
      | inr good ↦ rw good (elim (Bool-cases started) [
        | inr idle ↦ rw idle (stopped _ _ 0 w w _ refl (λ k h. h) (Stored-none _ w))
        | inl running ↦
            rw running (ingest_loop-limit max_events (stream_events decode messages) w good)
      ])
    ]

-- However an ingestion ends, the offsets that it has committed are those of the first `n` events of
-- the stream, in order; and Bronze has under each identity the first row of it among the rows of
-- before and then the rows of the first `k` events, where `k` is no less than `n`; so it holds the
-- identity of every event that was committed, and its row, unless an earlier row has that identity.
-- (Texts come back from the server as they were stored.)
pub ingest-at_least_once {ℓ} :
    {Bytes : Type ℓ} (env : Environment) (decode : Bytes → Option InternalEvent) (started : Bool)
    (messages : List (Message Bytes)) (max_events : ℤ) (w : World)
    → KeepsText env
    → (n : ℕ) × ((ingest env decode started messages max_events w).1.commits
        ≡ w.commits ++ map offsets (take n (stream_events decode messages)))
      × All
          (IsHeld (ingest env decode started messages max_events w).1)
          (take n (stream_events decode messages))
      × ((k : ℕ) × (n ≤ k)
          × ((id : String)
              → find_key "event_id" id (ingest env decode started messages max_events w).1.bronze
                ≡ find_key "event_id" id
                    (w.bronze ++ rows_of env (take k (stream_events decode messages)))))
ingest-at_least_once env decode started messages max_events w keeps =
    let (n, a, kept, count) = ingest-Ingested env keeps decode started messages max_events w in
    let (k, least, is) = kept in
    (
      n,
      a.commits,
      a.held,
      (
        k,
        least,
        λ id.
            ap (λ (rows : List Row). find_key "event_id" id rows) is
            ∙ find_key-insert_all env id (take k (stream_events decode messages)) w.bronze,
      ),
    )

-- An ingestion that returns has committed exactly the first `r` events of the stream, where `r`,
-- the number it returns, is the smaller of the limit and of the number of decodable messages.
-- (Texts come back from the server as they were stored.)
pub ingest-count {ℓ} :
    {Bytes : Type ℓ} (env : Environment) (decode : Bytes → Option InternalEvent) (started : Bool)
    (messages : List (Message Bytes)) (max_events : ℤ) (r : ℕ) (w : World)
    → KeepsText env
    → (ingest env decode started messages max_events w).0 ≡ ok r
    → (r ≡ min (pos_part max_events) (length (stream_events decode messages)))
      × ((ingest env decode started messages max_events w).1.commits
          ≡ w.commits ++ map offsets (take r (stream_events decode messages)))
ingest-count env decode started messages max_events r w keeps h =
    let (n, a, kept, count) = ingest-Ingested env keeps decode started messages max_events w in
    let both = count r h in
    let same : r ≡ n = omega (arith, both.0) in (omega (arith, same, both.1), rw same a.commits)
