-- ===== src/GoldService/Frame.antt =====
-- The Gold stage reads Silver and writes Gold, and nothing else.
use mathlib.Core.Path.{subst}
use cryptopulse.Prelude.{
  ℕ, ◌≡◌, ◌∙◌, sym, refl, inl, inr, Bool-cases, String, List, [], ◌∷◌, Option, if◌then◌else◌,
}
use cryptopulse.Prelude.Int.{ℤ, pos, ltb_ℤ}
use cryptopulse.Prelude.Sort.{sort_by}
use cryptopulse.Python.Datetime.{Datetime}
use cryptopulse.Contracts.Events.{TrustedEvent}
use cryptopulse.Contracts.Gold.{MarketWindow}
use cryptopulse.Warehouse.Schemas.Gold.{market_window_to_record}
use cryptopulse.Warehouse.World.{Environment, World, check, now, tick, execute, fetch}
use cryptopulse.Warehouse.Effects.{bind_keeps, check_world, or_storage_error_world}
use cryptopulse.Warehouse.Table.{stored, map_rows}
use cryptopulse.Warehouse.Table
use cryptopulse.Warehouse.Rows.{Row}
use cryptopulse.Warehouse.Table.Keys.{IsKeyed, upsert-IsKeyed}
use cryptopulse.Warehouse.Schemas.Silver.{record_to_trusted_event}
use cryptopulse.Warehouse.Silver
use cryptopulse.Warehouse.Gold
use cryptopulse.GoldService.{
  GoldSettings, Candidate, candidates, candidate_le, returning, window_end_of, write_window,
  recompute_window, recompute_all, process_page, process_batch, counted, page_size,
}
use cryptopulse.Aggregation.{is_final_for, aggregate_window}

-- Only Gold differs, and no window is there twice if none was before.
pub record WritesGold (w w' : World) : Type 0 where
  pub bronze : w'.bronze ≡ w.bronze
  pub silver : w'.silver ≡ w.silver
  pub quarantine : w'.quarantine ≡ w.quarantine
  pub commits : w'.commits ≡ w.commits
  pub keyed : IsKeyed "window_id" w.gold → IsKeyed "window_id" w'.gold

pub WritesGold-refl : (w : World) → WritesGold w w
WritesGold-refl w = record {
  bronze = refl;
  silver = refl;
  quarantine = refl;
  commits = refl;
  keyed = λ k. k;
}

pub WritesGold-trans : (u v w : World) → WritesGold u v → WritesGold v w → WritesGold u w
WritesGold-trans u v w h k = record {
  bronze = k.bronze ∙ h.bronze;
  silver = k.silver ∙ h.silver;
  quarantine = k.quarantine ∙ h.quarantine;
  commits = k.commits ∙ h.commits;
  keyed = λ i. k.keyed (h.keyed i);
}

-- A step that leaves the world as it was, or only lets time pass.
still : (u v : World) → v ≡ u → WritesGold u v
still u v e = subst (λ (x : World). WritesGold u x) (sym e) (WritesGold-refl u)

ticked : (u v : World) → v ≡ tick u → WritesGold u v
ticked u v e =
    subst (λ (x : World). WritesGold u x) (sym e)
      (record { bronze = refl; silver = refl; quarantine = refl; commits = refl; keyed = λ k. k })

module _ (env : Environment) where
  fetch_world :
      (message : String) (query : World → List Row) (w : World)
      → (fetch env message query w).1 ≡ tick w
  unfolding fetch
  fetch_world message query w = elim (Bool-cases (env.refuses w.ticks)) [
    | inl h ↦ rw h refl
    | inr h ↦ rw h refl
  ]

  now_world : (w : World) → (now env w).1 ≡ tick w
  unfolding now
  now_world w = refl

  upsert_world :
      (window : MarketWindow) (w : World)
      → (Gold.upsert env window w).1 ≡ (
          if env.refuses w.ticks then tick w else record (tick w) {
            gold =
                Table.upsert "window_id"
                  (stored env.column (market_window_to_record window))
                  w.gold;
          })
  unfolding Gold.upsert execute
  upsert_world window w = elim (Bool-cases (env.refuses w.ticks)) [
    | inl h ↦ rw h refl
    | inr h ↦ rw h refl
  ]

  upsert-WritesGold :
      (window : MarketWindow) (w : World) → WritesGold w (Gold.upsert env window w).1
  upsert-WritesGold window w = rw (upsert_world window w) (elim (Bool-cases (env.refuses w.ticks)) [
    | inl h ↦ rw h (ticked w (tick w) refl)
    | inr h ↦ rw h (record {
      bronze = refl;
      silver = refl;
      quarantine = refl;
      commits = refl;
      keyed =
          upsert-IsKeyed "window_id" (stored env.column (market_window_to_record window)) w.gold;
    })
  ])

  read_window-WritesGold :
      (symbol : String) (from to : Datetime) (limit : ℤ) (w : World)
      → WritesGold w (Silver.read_window env symbol from to limit w).1
  unfolding Silver.read_window
  read_window-WritesGold symbol from to limit w =
      bind_keeps WritesGold WritesGold-trans (check (ltb_ℤ limit (pos 1)) _) _ w
        (still _ _ (check_world (ltb_ℤ limit (pos 1)) _ w))
        λ _.
          bind_keeps WritesGold WritesGold-trans (fetch env _ _) _ _
            (ticked _ _ (fetch_world _ _ _))
            λ rows. still _ _ (or_storage_error_world (map_rows record_to_trusted_event rows) _)

  read-WritesGold : (offset limit : ℤ) (w : World) → WritesGold w (Silver.read env offset limit w).1
  unfolding Silver.read
  read-WritesGold offset limit w =
      bind_keeps WritesGold WritesGold-trans (check (ltb_ℤ offset (pos 0)) _) _ w
        (still _ _ (check_world (ltb_ℤ offset (pos 0)) _ w))
        λ _.
          bind_keeps WritesGold WritesGold-trans (check (ltb_ℤ limit (pos 1)) _) _ _
            (still _ _ (check_world (ltb_ℤ limit (pos 1)) _ _))
            λ _.
              bind_keeps WritesGold WritesGold-trans (fetch env _ _) _ _
                (ticked _ _ (fetch_world _ _ _))
                λ rows. still _ _ (or_storage_error_world (map_rows record_to_trusted_event rows) _)

  module _ (settings : GoldSettings) where
    write_window-WritesGold :
        (symbol : String) (start : Datetime) (es : List TrustedEvent) (w : World)
        → WritesGold w (write_window env settings symbol start es w).1
    write_window-WritesGold symbol start [] w = WritesGold-refl w
    write_window-WritesGold symbol start (e ∷ es) w =
        bind_keeps WritesGold WritesGold-trans (now env) _ w (ticked _ _ (now_world w)) λ t.
          bind_keeps WritesGold WritesGold-trans
            (returning
              (is_final_for (window_end_of env settings start) t settings.allowed_lateness_seconds))
            _ _ (WritesGold-refl _)
            λ f.
              bind_keeps WritesGold WritesGold-trans
                (returning (
                  aggregate_window symbol start (window_end_of env settings start) t f
                    settings.vwap_scale (e ∷ es)))
                _ _ (WritesGold-refl _)
                λ window.
                  bind_keeps WritesGold WritesGold-trans (Gold.upsert env window) _ _
                    (upsert-WritesGold window _) λ _. WritesGold-refl _

    recompute_window-WritesGold :
        (symbol : String) (start : Datetime) (w : World)
        → WritesGold w (recompute_window env settings symbol start w).1
    unfolding recompute_window
    recompute_window-WritesGold symbol start w =
        bind_keeps WritesGold WritesGold-trans (Silver.read_window env symbol start _ _) _ w
          (read_window-WritesGold symbol start _ _ w)
          λ es. write_window-WritesGold symbol start es _

    recompute_all-WritesGold :
        (cs : List Candidate) (n : ℕ) (w : World)
        → WritesGold w (recompute_all env settings cs n w).1
    unfolding recompute_all
    recompute_all-WritesGold [] n w = WritesGold-refl w
    recompute_all-WritesGold (c ∷ cs) n w =
        bind_keeps WritesGold WritesGold-trans (recompute_window env settings c.0 c.1) _ w
          (recompute_window-WritesGold c.0 c.1 w)
          λ window. recompute_all-WritesGold cs (counted env settings window n) _

    process_page-WritesGold :
        (es : List TrustedEvent) (w : World) → WritesGold w (process_page env settings es w).1
    process_page-WritesGold [] w = WritesGold-refl w
    process_page-WritesGold (e ∷ es) w =
        bind_keeps WritesGold WritesGold-trans
          (returning (candidates settings.window_seconds (e ∷ es))) _ w (WritesGold-refl w)
          λ found. recompute_all-WritesGold (sort_by candidate_le found) 0 w

-- However the Gold stage ends, Bronze, Silver, Quarantine and the commits are as before; and if no
-- two rows of Gold had one window_id, then no two have.
pub process_batch-WritesGold :
    (env : Environment) (settings : GoldSettings) (offset : ℤ) (limit : Option ℤ) (w : World)
    → WritesGold w (process_batch env settings offset limit w).1
unfolding process_batch
process_batch-WritesGold env settings offset limit w =
    bind_keeps WritesGold WritesGold-trans (check (ltb_ℤ offset (pos 0)) _) _ w
      (still _ _ (check_world (ltb_ℤ offset (pos 0)) _ w))
      λ _.
        bind_keeps WritesGold WritesGold-trans
          (check (ltb_ℤ (page_size env settings limit) (pos 1)) _) _ _
          (still _ _ (check_world (ltb_ℤ (page_size env settings limit) (pos 1)) _ _))
          λ _.
            bind_keeps WritesGold WritesGold-trans
              (Silver.read env offset (page_size env settings limit)) _ _
              (read-WritesGold env offset (page_size env settings limit) _)
              λ es. process_page-WritesGold env settings es _
