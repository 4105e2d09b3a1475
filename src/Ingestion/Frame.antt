-- ===== src/Ingestion/Frame.antt =====
-- Ingestion writes Bronze and the commits, and nothing else.
use mathlib.Core.Path.{subst}
use cryptopulse.Prelude.{
  ℕ, ◌+◌, ◌≡◌, ◌∙◌, sym, refl, inl, inr, Bool-cases, Bool, true, false, not, List, [], ◌∷◌, Option,
}
use cryptopulse.Prelude.Int.{ℤ, pos, ltb_ℤ, leb_ℤ}
use cryptopulse.Contracts.Events.{InternalEvent}
use cryptopulse.Warehouse.Schemas.Bronze.{internal_event_to_record}
use cryptopulse.Warehouse.World.{Environment, World, check, execute}
use cryptopulse.Warehouse.Effects.{bind_keeps, check_world}
use cryptopulse.Warehouse.Table.{stored}
use cryptopulse.Warehouse.Table.Keys.{IsKeyed, insert_new-IsKeyed}
use cryptopulse.Warehouse.Bronze
use cryptopulse.Ingestion.{
  Message, ConsumedEvent, stream_events, commit, acknowledge, ingest_loop, ingest,
}

-- The later tables are as before, and no event_id is twice in Bronze if none was before.
pub record WritesBronze (w w' : World) : Type 0 where
  pub silver : w'.silver ≡ w.silver
  pub quarantine : w'.quarantine ≡ w.quarantine
  pub gold : w'.gold ≡ w.gold
  pub keyed : IsKeyed "event_id" w.bronze → IsKeyed "event_id" w'.bronze

WritesBronze-refl : (w : World) → WritesBronze w w
WritesBronze-refl w = record { silver = refl; quarantine = refl; gold = refl; keyed = λ k. k }

WritesBronze-trans : (u v w : World) → WritesBronze u v → WritesBronze v w → WritesBronze u w
WritesBronze-trans u v w h k = record {
  silver = k.silver ∙ h.silver;
  quarantine = k.quarantine ∙ h.quarantine;
  gold = k.gold ∙ h.gold;
  keyed = λ i. k.keyed (h.keyed i);
}

still : (u v : World) → v ≡ u → WritesBronze u v
still u v e = subst (λ (x : World). WritesBronze u x) (sym e) (WritesBronze-refl u)

module _ (env : Environment) where
  append-WritesBronze : (e : InternalEvent) (w : World) → WritesBronze w (Bronze.append env e w).1
  unfolding Bronze.append execute
  append-WritesBronze e w = elim (Bool-cases (env.refuses w.ticks)) [
    | inl h ↦ rw h (record { silver = refl; quarantine = refl; gold = refl; keyed = λ k. k })
    | inr h ↦ rw h (record {
      silver = refl;
      quarantine = refl;
      gold = refl;
      keyed =
          insert_new-IsKeyed "event_id" (stored env.column (internal_event_to_record e)) w.bronze;
    })
  ]

  acknowledge-WritesBronze :
      (started : Bool) (c : ConsumedEvent) (w : World)
      → WritesBronze w (acknowledge env started c w).1
  unfolding acknowledge commit
  acknowledge-WritesBronze false c w = WritesBronze-refl w
  acknowledge-WritesBronze true c w = elim (Bool-cases (env.refuses w.ticks)) [
    | inl h ↦ rw h (record { silver = refl; quarantine = refl; gold = refl; keyed = λ k. k })
    | inr h ↦ rw h (record { silver = refl; quarantine = refl; gold = refl; keyed = λ k. k })
  ]

  ingest_loop-WritesBronze :
      (max_events : ℤ) (cs : List ConsumedEvent) (n : ℕ) (w : World)
      → WritesBronze w (ingest_loop env max_events cs n w).1
  unfolding ingest_loop
  ingest_loop-WritesBronze max_events [] n w = WritesBronze-refl w
  ingest_loop-WritesBronze max_events (c ∷ cs) n w =
      bind_keeps WritesBronze WritesBronze-trans (Bronze.append env c.event) _ w
        (append-WritesBronze c.event w)
        λ _.
          bind_keeps WritesBronze WritesBronze-trans (acknowledge env true c) _ _
            (acknowledge-WritesBronze true c _)
            λ _. (elim (Bool-cases (leb_ℤ max_events (pos (n + 1)))) [
              | inl h ↦ rw h (WritesBronze-refl _)
              | inr h ↦ rw h (ingest_loop-WritesBronze max_events cs (n + 1) _)
            ])

-- However an ingestion ends, Silver, Quarantine and Gold are as before; and if no two rows of
-- Bronze had one event_id, then no two have, however often a message is delivered again.
pub ingest-WritesBronze {ℓ} :
    {Bytes : Type ℓ} (env : Environment) (decode : Bytes → Option InternalEvent) (started : Bool)
    (messages : List (Message Bytes)) (max_events : ℤ) (w : World)
    → WritesBronze w (ingest env decode started messages max_events w).1
unfolding ingest
ingest-WritesBronze env decode started messages max_events w =
    bind_keeps WritesBronze WritesBronze-trans (check (ltb_ℤ max_events (pos 1)) _) _ w
      (still _ _ (check_world (ltb_ℤ max_events (pos 1)) _ w))
      λ _.
        bind_keeps WritesBronze WritesBronze-trans (check (not started) _) _ _
          (still _ _ (check_world (not started) _ _))
          λ _. ingest_loop-WritesBronze env max_events (stream_events decode messages) 0 _
