-- ===== src/Trust/Safety.antt =====
-- Only trustworthy events reach Silver.
use cryptopulse.Prelude.{suc, ◌≡◌, refl, inl, inr, List, [], ◌∷◌, All, All-append, Bool-cases}
use cryptopulse.Prelude.Int.{ℤ, pos, ltb_ℤ}
use cryptopulse.Python.Datetime.{Datetime, from_instant}
use cryptopulse.Contracts.Events.{InternalEvent, attributes}
use cryptopulse.Validation.Rules.{default_rules}
use cryptopulse.Validation.Engine.{trusted_event_from}
use cryptopulse.Validation.Trustworthy.{IsTrustworthy}
use cryptopulse.Validation.Decision.{validate-IsTrustworthy}
use cryptopulse.Warehouse.Rows.{Row}
use cryptopulse.Warehouse.Schemas.Silver.{trusted_event_to_record}
use cryptopulse.Warehouse.World.{Environment, World, check}
use cryptopulse.Warehouse.Effects.{bind_keeps, check_world}
use cryptopulse.Warehouse.Table.{stored, has_key, text_cell, insert_new}
use cryptopulse.Warehouse.Table.Keys.{IsKeyed, insert_new-IsKeyed}
use cryptopulse.Warehouse.Bronze
use cryptopulse.Trust.Rounds.{decide, decide-Trusts}
use cryptopulse.Trust.{TrustRoutingResult, nothing_routed, route_one, route_all, process_batch}
use cryptopulse.Trust.Frame.{trusted_row, silver-route_one, replay-SameTables}

module _ (env : Environment) where
  -- The row was made from a trustworthy event.
  abbrev pub IsTrustedRow : Row → Type 0
  IsTrustedRow row =
      (e : InternalEvent) × (t : Datetime) × IsTrustworthy (attributes e)
      × (row ≡ stored env.column (trusted_event_to_record (trusted_event_from t e)))

  -- Every row of Silver was made from a trustworthy event, and no two have one event_id.
  abbrev pub IsTrustedLayer : List Row → Type 0
  IsTrustedLayer rows = All IsTrustedRow rows × IsKeyed "event_id" rows

  insert_new-IsTrustedLayer :
      (row : Row) (rows : List Row)
      → IsTrustedRow row
      → IsTrustedLayer rows
      → IsTrustedLayer (insert_new "event_id" row rows)
  unfolding insert_new
  insert_new-IsTrustedLayer row rows t h = (
    (elim (Bool-cases (has_key "event_id" (text_cell "event_id" row) rows)) [
      | inl e ↦ rw e h.0
      | inr e ↦ rw e (All-append IsTrustedRow rows (row ∷ []) h.0 (t, tt))
    ]),
    insert_new-IsKeyed "event_id" row rows h.1,
  )

  abbrev Keeps : World → World → Type 0
  Keeps w w' = IsTrustedLayer w.silver → IsTrustedLayer w'.silver

  Keeps-trans : (u v w : World) → Keeps u v → Keeps v w → Keeps u w
  Keeps-trans u v w h k s = k (h s)

  route_one-Keeps :
      (e : InternalEvent) (r : TrustRoutingResult) (w : World)
      → Keeps w (route_one env default_rules e r w).1
  route_one-Keeps e r w h =
      rw (silver-route_one env default_rules e w r)
        (elim (Bool-cases (decide env default_rules e).valid) [
          | inr rejected ↦ rw rejected h
          | inl accepted ↦ rw accepted (elim (Bool-cases (env.refuses (suc w.ticks))) [
            | inl refused ↦ rw refused h
            | inr done ↦ rw done (
                insert_new-IsTrustedLayer (trusted_row env default_rules e w) w.silver
                  (
                    e,
                    from_instant (env.clock w.ticks),
                    (validate-IsTrustworthy (attributes e)).0
                        (decide-Trusts env default_rules e accepted),
                    refl,
                  )
                  h)
          ])
        ])

  route_all-Keeps :
      (es : List InternalEvent) (r : TrustRoutingResult) (w : World)
      → Keeps w (route_all env default_rules es r w).1
  unfolding route_all
  route_all-Keeps [] r w = λ h. h
  route_all-Keeps (e ∷ es) r w =
      bind_keeps Keeps Keeps-trans (route_one env default_rules e r) _ w (route_one-Keeps e r w)
        λ r'. route_all-Keeps es r' _

  -- If every row of Silver was made from a trustworthy event and no two rows have one event_id,
  -- then this is so after a batch under the platform's rules, also after one that fails part of the
  -- way.
  pub process_batch-IsTrustedLayer :
      (limit : ℤ) (w : World)
      → IsTrustedLayer w.silver
      → IsTrustedLayer (process_batch env default_rules limit w).1.silver
  unfolding process_batch
  process_batch-IsTrustedLayer limit w =
      bind_keeps Keeps Keeps-trans (check (ltb_ℤ limit (pos 1)) _) _ w
        (λ h. rw (check_world (ltb_ℤ limit (pos 1)) _ w) h)
        λ _.
          bind_keeps Keeps Keeps-trans (Bronze.replay env (pos 0) limit) _ _
            (λ h. rw (replay-SameTables env (pos 0) limit _).1 h)
            λ events. route_all-Keeps events nothing_routed _
