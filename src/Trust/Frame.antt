-- ===== src/Trust/Frame.antt =====
-- What routing leaves alone, and that it only adds rows, however it ends.
use mathlib.Core.List.{append-nil, append_assoc}
use cryptopulse.Prelude.{
  suc, String, ◌≡◌, ◌∙◌, sym, refl, ap, inl, inr, Bool, true, false, List, [], ◌∷◌, ◌++◌, arith,
  Bool-cases, if◌then◌else◌, ◌||◌,
}
use cryptopulse.Prelude.Int.{ℤ, pos, ltb_ℤ}
use cryptopulse.Contracts.Events.{InternalEvent}
use cryptopulse.Warehouse.Schemas.Silver.{trusted_event_to_record}
use cryptopulse.Warehouse.Schemas.Quarantine.{quarantine_record_to_record}
use cryptopulse.Warehouse.Quarantine.{has_same_key}
use cryptopulse.Python.Datetime.{from_instant}
use cryptopulse.Validation.Rules.{Rule}
use cryptopulse.Validation.Engine.{trusted_event_from}
use cryptopulse.Python.Call.{Call}
use cryptopulse.Warehouse.Schemas.Bronze.{record_to_internal_event}
use cryptopulse.Warehouse.Rows.{Row}
use cryptopulse.Warehouse.World.{
  Environment, World, Error, check, or_storage_error, now, execute, fetch, tick,
}
use cryptopulse.Warehouse.Effects.{bind_keeps, check_world, or_storage_error_world}
use cryptopulse.Warehouse.Table.{map_rows, stored, insert_new, has_key, text_cell}
use cryptopulse.Warehouse.Bronze
use cryptopulse.Warehouse.Silver
use cryptopulse.Warehouse.Quarantine
use cryptopulse.Trust.Rounds.{decide, route_one-route}
use cryptopulse.Trust.{
  TrustRoutingResult, route, route_one, route_all, process_batch, nothing_routed,
}

-- The rows of the second table are those of the first, and then more.
abbrev pub Extends : List Row → List Row → Type 0
Extends xs ys = (more : List Row) × (ys ≡ xs ++ more)

-- Bronze, Gold and the commits are as before, Silver and Quarantine have kept all their rows.
pub record OnlyAdds (w w' : World) : Type 0 where
  pub bronze : w'.bronze ≡ w.bronze
  pub gold : w'.gold ≡ w.gold
  pub commits : w'.commits ≡ w.commits
  pub silver : Extends w.silver w'.silver
  pub quarantine : Extends w.quarantine w'.quarantine

module _ (env : Environment) (rules : List Rule) (e : InternalEvent) (w : World) where
  -- The row that a trusted event leaves in Silver, and that a rejected one leaves in Quarantine.
  abbrev pub trusted_row : Row
  trusted_row =
      stored env.column
        (trusted_event_to_record (trusted_event_from (from_instant (env.clock w.ticks)) e))

  abbrev pub rejected_row : Row
  rejected_row = stored env.column (
      quarantine_record_to_record (record {
        event = e;
        quarantined_at = from_instant (env.clock w.ticks);
        failures = (decide env rules e).failures;
      }))

  pub silver-route_one :
      (r : TrustRoutingResult)
      → (route_one env rules e r w).1.silver ≡ (
          if (decide env rules e).valid
          then (if env.refuses (suc w.ticks)
              then w.silver
              else insert_new "event_id" trusted_row w.silver)
          else w.silver)
  unfolding route now execute Silver.append Quarantine.append_record
  silver-route_one r = rw (route_one-route env rules e r w) (ground arith)

  pub quarantine-route_one :
      (r : TrustRoutingResult)
      → (route_one env rules e r w).1.quarantine ≡ (
          if (decide env rules e).valid
          then w.quarantine
          else (if env.refuses (suc w.ticks) || has_same_key rejected_row w.quarantine
              then w.quarantine
              else w.quarantine ++ rejected_row ∷ []))
  unfolding route now execute Silver.append Quarantine.append_record
  quarantine-route_one r = rw (route_one-route env rules e r w) (ground arith)

  pub route_one-others :
      (r : TrustRoutingResult)
      → ((route_one env rules e r w).1.bronze ≡ w.bronze)
        × ((route_one env rules e r w).1.gold ≡ w.gold)
        × ((route_one env rules e r w).1.commits ≡ w.commits)
  unfolding route now execute Silver.append Quarantine.append_record
  route_one-others r =
      rw (route_one-route env rules e r w) (ground arith, ground arith, ground arith)

-- Adding a row, or none.
Extends-refl : (xs : List Row) → Extends xs xs
Extends-refl xs = ([], sym (append-nil xs))

Extends-trans : (xs ys zs : List Row) → Extends xs ys → Extends ys zs → Extends xs zs
Extends-trans xs ys zs (m, p) (n, q) =
    (m ++ n, q ∙ ap (λ (t : List Row). t ++ n) p ∙ append_assoc xs m n)

Extends-if :
    (b : Bool) (xs ys zs : List Row)
    → Extends xs ys
    → Extends xs zs
    → Extends xs (if b then ys else zs)
Extends-if true xs ys zs h k = h
Extends-if false xs ys zs h k = k

pub Extends-insert_new :
    (name : String) (row : Row) (xs : List Row) → Extends xs (insert_new name row xs)
unfolding insert_new
Extends-insert_new name row xs =
    Extends-if (has_key name (text_cell name row) xs) xs xs (xs ++ row ∷ []) (Extends-refl xs)
      (row ∷ [], refl)

OnlyAdds-refl : (w : World) → OnlyAdds w w
OnlyAdds-refl w = record {
  bronze = refl;
  gold = refl;
  commits = refl;
  silver = Extends-refl w.silver;
  quarantine = Extends-refl w.quarantine;
}

OnlyAdds-trans : (u v w : World) → OnlyAdds u v → OnlyAdds v w → OnlyAdds u w
OnlyAdds-trans u v w h k = record {
  bronze = k.bronze ∙ h.bronze;
  gold = k.gold ∙ h.gold;
  commits = k.commits ∙ h.commits;
  silver = Extends-trans u.silver v.silver w.silver h.silver k.silver;
  quarantine = Extends-trans u.quarantine v.quarantine w.quarantine h.quarantine k.quarantine;
}

module _ (env : Environment) (rules : List Rule) where
  route_one-OnlyAdds :
      (e : InternalEvent) (r : TrustRoutingResult) (w : World)
      → OnlyAdds w (route_one env rules e r w).1
  route_one-OnlyAdds e r w =
      let others = route_one-others env rules e w r in
      record {
        bronze = others.0;
        gold = others.1;
        commits = others.2;
        silver = rw (silver-route_one env rules e w r) (
            Extends-if _ _ _ _ (Extends-if _ _ _ _ (Extends-refl _) (Extends-insert_new _ _ _))
              (Extends-refl _));
        quarantine = rw (quarantine-route_one env rules e w r) (
            Extends-if _ _ _ _ (Extends-refl _)
              (Extends-if _ _ _ _ (Extends-refl _) (rejected_row env rules e w ∷ [], refl)));
      }

  -- What a loop over events does, for anything that holds of no step and of one step more.
  pub route_all-OnlyAdds :
      (es : List InternalEvent) (r : TrustRoutingResult) (w : World)
      → OnlyAdds w (route_all env rules es r w).1
  unfolding route_all
  route_all-OnlyAdds [] r w = OnlyAdds-refl w
  route_all-OnlyAdds (e ∷ es) r w =
      bind_keeps OnlyAdds OnlyAdds-trans (route_one env rules e r)
        (λ (r' : TrustRoutingResult). route_all env rules es r') w (route_one-OnlyAdds e r w)
        λ r'. route_all-OnlyAdds es r' (route_one env rules e r w).1

OnlyAdds-tick : (w : World) → OnlyAdds w (tick w)
OnlyAdds-tick w = record {
  bronze = refl;
  gold = refl;
  commits = refl;
  silver = Extends-refl w.silver;
  quarantine = Extends-refl w.quarantine;
}

check-OnlyAdds : (b : Bool) (x : Error) (w : World) → OnlyAdds w (check b x w).1
check-OnlyAdds b x w = rw (check_world b x w) (OnlyAdds-refl w)

or_storage_error-OnlyAdds :
    {A : Type 0} (c : Call A) (w : World) → OnlyAdds w (or_storage_error c w).1
or_storage_error-OnlyAdds c w = rw (or_storage_error_world c w) (OnlyAdds-refl w)

fetch-OnlyAdds :
    (env : Environment) (message : String) (query : World → List Row) (w : World)
    → OnlyAdds w (fetch env message query w).1
unfolding fetch
fetch-OnlyAdds env message query w = elim (Bool-cases (env.refuses w.ticks)) [
  | inl h ↦ rw h (OnlyAdds-tick w)
  | inr h ↦ rw h (OnlyAdds-tick w)
]

replay-OnlyAdds :
    (env : Environment) (offset limit : ℤ) (w : World)
    → OnlyAdds w (Bronze.replay env offset limit w).1
unfolding Bronze.replay
replay-OnlyAdds env offset limit w =
    bind_keeps OnlyAdds OnlyAdds-trans (check (ltb_ℤ offset (pos 0)) _) _ w (check-OnlyAdds _ _ w)
      λ _.
        bind_keeps OnlyAdds OnlyAdds-trans (check (ltb_ℤ limit (pos 1)) _) _ _
          (check-OnlyAdds _ _ _)
          λ _.
            bind_keeps OnlyAdds OnlyAdds-trans (fetch env _ _) _ _ (fetch-OnlyAdds env _ _ _)
              λ rows. or_storage_error-OnlyAdds (map_rows record_to_internal_event rows) _

-- However a batch ends, Bronze, Gold and the commits are as before, and Silver and Quarantine have
-- kept all their rows in their order.
pub process_batch-OnlyAdds :
    (env : Environment) (rules : List Rule) (limit : ℤ) (w : World)
    → OnlyAdds w (process_batch env rules limit w).1
unfolding process_batch
process_batch-OnlyAdds env rules limit w =
    bind_keeps OnlyAdds OnlyAdds-trans (check (ltb_ℤ limit (pos 1)) _) _ w (check-OnlyAdds _ _ w)
      λ _.
        bind_keeps OnlyAdds OnlyAdds-trans (Bronze.replay env (pos 0) limit) _ _
          (replay-OnlyAdds env (pos 0) limit _)
          λ events. route_all-OnlyAdds env rules events nothing_routed _

-- Reading leaves every table alone.
abbrev SameTables : World → World → Type 0
SameTables u v = (v.bronze ≡ u.bronze) × (v.silver ≡ u.silver) × (v.quarantine ≡ u.quarantine)

SameTables-trans : (u v w : World) → SameTables u v → SameTables v w → SameTables u w
SameTables-trans u v w h k = (k.0 ∙ h.0, k.1 ∙ h.1, k.2 ∙ h.2)

fetch-SameTables :
    (env : Environment) (message : String) (query : World → List Row) (w : World)
    → SameTables w (fetch env message query w).1
unfolding fetch
fetch-SameTables env message query w = (ground arith, ground arith, ground arith)

pub replay-SameTables :
    (env : Environment) (offset limit : ℤ) (w : World)
    → SameTables w (Bronze.replay env offset limit w).1
unfolding Bronze.replay
replay-SameTables env offset limit w =
    bind_keeps SameTables SameTables-trans (check (ltb_ℤ offset (pos 0)) _) _ w
      (rw (check_world (ltb_ℤ offset (pos 0)) _ w) (refl, refl, refl))
      λ _.
        bind_keeps SameTables SameTables-trans (check (ltb_ℤ limit (pos 1)) _) _ _
          (rw (check_world (ltb_ℤ limit (pos 1)) _ _) (refl, refl, refl))
          λ _.
            bind_keeps SameTables SameTables-trans (fetch env _ _) _ _ (fetch-SameTables env _ _ _)
              λ rows.
                rw (or_storage_error_world (map_rows record_to_internal_event rows) _)
                  (refl, refl, refl)
