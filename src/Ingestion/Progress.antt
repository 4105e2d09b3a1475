-- ===== src/Ingestion/Progress.antt =====
-- An ingestion that nothing refuses comes to its end.
use cryptopulse.Prelude.{
  ℕ, suc, ◌+◌, ◌<◌, ◌≤◌, ◌++◌, ◌≡◌, ◌∙◌, none, some, ap, refl, inl, inr, Bool-cases, true, false,
  List, [], ◌∷◌, Option, length, arith, if◌then◌else◌,
}
use cryptopulse.Prelude.Int.{pos, leb_ℤ, ltb_ℤ}
use cryptopulse.Contracts.Events.{InternalEvent}
use cryptopulse.Warehouse.World.{Environment, World, Action, ok, pure, execute}
use cryptopulse.Warehouse.Effects.{>>_assoc}
use cryptopulse.Warehouse.Bronze
use cryptopulse.Ingestion.{
  Message, ConsumedEvent, decode_message, yielded, stream_events, commit, acknowledge, ingest_loop,
  ingest,
}
use cryptopulse.Ingestion.Delivery.{round}

-- The server and the broker refuse nothing.
abbrev pub IsWilling : Environment → Type 0
IsWilling env = (n : ℕ) → env.refuses n ≡ false

module _ (env : Environment) (willing : IsWilling env) where
  round-ok : (c : ConsumedEvent) (w : World) → (round env c w).0 ≡ ok tt
  unfolding acknowledge commit execute Bronze.append
  round-ok c w = rw (willing w.ticks, willing (suc w.ticks)) refl

  abbrev next : ℕ → List ConsumedEvent → ℕ → Action ℕ
  next m cs p =
      if leb_ℤ (pos m) (pos (p + 1)) then pure (p + 1) else ingest_loop env (pos m) cs (p + 1)

  -- The loop stops at the limit, and asks for no more.
  ingest_loop-enough :
      (m : ℕ) (cs more : List ConsumedEvent) (p : ℕ) (w : World)
      → p < m
      → m ≤ p + length cs
      → ingest_loop env (pos m) (cs ++ more) p w ≡ (ok m, (ingest_loop env (pos m) cs p w).1)
  unfolding ingest_loop
  ingest_loop-enough m [] more p w h enough = absurd (omega arith)
  ingest_loop-enough m (c ∷ cs) more p w h enough =
      rw
        (
          >>_assoc (Bronze.append env c.event) (acknowledge env true c) (next m (cs ++ more) p) w,
          >>_assoc (Bronze.append env c.event) (acknowledge env true c) (next m cs p) w,
          round-ok c w,
        )
        (elim (Bool-cases (leb_ℤ (pos m) (pos (p + 1)))) [
          | inl full ↦ rw full (ap (λ (n : ℕ). (ok n, (round env c w).1)) (ground arith))
          | inr room ↦
              rw room (
                ingest_loop-enough m cs more (p + 1) (round env c w).1 (ground arith) (omega arith))
        ])

module _ {ℓ} {Bytes : Type ℓ} (decode : Bytes → Option InternalEvent) where
  yielded-append :
      (m : Message Bytes) (o : Option InternalEvent) (xs ys : List ConsumedEvent)
      → yielded decode m o (xs ++ ys) ≡ yielded decode m o xs ++ ys
  yielded-append m none xs ys = refl
  yielded-append m (some event) xs ys = refl

  stream_events-append :
      (ms more : List (Message Bytes))
      → stream_events decode (ms ++ more) ≡ stream_events decode ms ++ stream_events decode more
  unfolding stream_events
  stream_events-append [] more = refl
  stream_events-append (m ∷ ms) more =
      ap (λ (l : List ConsumedEvent). yielded decode m (decode_message decode m) l)
        (stream_events-append ms more)
      ∙ yielded-append m (decode_message decode m) (stream_events decode ms)
          (stream_events decode more)

-- If nothing is refused, and the limit is at least 1 and no more than the number of decodable
-- messages that have been delivered, then an ingestion by a started consumer returns the limit,
-- whatever the broker delivers afterwards, be it nothing: the ingestion does not wait for it.
pub ingest_returns {ℓ} :
    {Bytes : Type ℓ} (env : Environment) (decode : Bytes → Option InternalEvent)
    (delivered : List (Message Bytes)) (m : ℕ) (w : World)
    → IsWilling env
    → 0 < m
    → m ≤ length (stream_events decode delivered)
    → (w' : World) × ((later : List (Message Bytes))
        → ingest env decode true (delivered ++ later) (pos m) w ≡ (ok m, w'))
unfolding ingest
ingest_returns env decode delivered m w willing positive enough =
    let cs = stream_events decode delivered in
    let at_least_one : ltb_ℤ (pos m) (pos 1) ≡ false = ground arith in
    (
      (ingest_loop env (pos m) cs 0 w).1,
      λ later. rw at_least_one (
          ap (λ (l : List ConsumedEvent). ingest_loop env (pos m) l 0 w)
            (stream_events-append decode delivered later)
          ∙ ingest_loop-enough env willing m cs (stream_events decode later) 0 w positive
              (omega (arith, enough))),
    )
