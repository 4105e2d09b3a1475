-- ===== src/GoldService/Written.antt =====
-- A window that the Gold stage returns is the aggregate of what it read, and stands in Gold.
use mathlib.Core.Path.{subst}
use cryptopulse.Prelude.{
  ◌≡◌, ◌∙◌, sym, ap, refl, String, Bool, List, [], ◌∷◌, Option, some, arith, str_eq_iff, All,
  length,
}
use cryptopulse.Python.Datetime.{Datetime, from_instant}
use cryptopulse.Contracts.Events.{TrustedEvent}
use cryptopulse.Contracts.Gold.{MarketWindow}
use cryptopulse.Warehouse.Rows.{Row}
use cryptopulse.Warehouse.Schemas.Gold.{market_window_to_record}
use cryptopulse.Warehouse.World.{
  Environment, World, Result, ok, Action, pure, now, execute, ◌>>=◌, ◌>>◌,
}
use cryptopulse.Warehouse.Effects.{>>=-eq-ok}
use cryptopulse.Warehouse.Table.{stored, text_cell, find_key}
use cryptopulse.Warehouse.Table
use cryptopulse.Warehouse.Table.Keys.{find_key-upsert}
use cryptopulse.Warehouse.Silver
use cryptopulse.Warehouse.Gold
use cryptopulse.Trust.Routing.{KeepsText}
use cryptopulse.Aggregation.{is_final_for, aggregate_window}
use cryptopulse.Aggregation.Prices.{IsWithin, aggregate_window-bounds}
use cryptopulse.GoldService.{
  GoldSettings, returning, window_end_of, write_window, recompute_window, read_limit,
}

>>=-world :
    {A B : Type 0} (m : Action A) (f : A → Action B) (w : World) {a : A}
    → (m w).0 ≡ ok a
    → ((m >>= f) w).1 ≡ (f a (m w).1).1
>>=-world m f w h = rw h refl

-- The row that a window leaves in Gold.
abbrev pub window_row : Environment → MarketWindow → Row
window_row env window = stored env.column (market_window_to_record window)

window_id-window_row :
    (env : Environment) (window : MarketWindow)
    → KeepsText env
    → text_cell "window_id" (window_row env window) ≡ window.window_id
unfolding stored market_window_to_record text_cell
window_id-window_row env window keeps = rw (keeps window.window_id)

-- Gold holds the window under its identity.
abbrev pub IsStored : Environment → MarketWindow → World → Type 0
IsStored env window w = find_key "window_id" window.window_id w.gold ≡ some (window_row env window)

module _ (env : Environment) (settings : GoldSettings) (symbol : String) (start : Datetime) where
  abbrev pub aggregate_at : Datetime → Bool → List TrustedEvent → Result MarketWindow
  aggregate_at t f es =
      aggregate_window symbol start (window_end_of env settings start) t f settings.vwap_scale es

  abbrev pub final_at : Datetime → Result Bool
  final_at t = is_final_for (window_end_of env settings start) t settings.allowed_lateness_seconds

  -- The time that the clock shows at the world's next operation.
  abbrev pub time_at : World → Datetime
  time_at u = from_instant (env.clock u.ticks)

  -- The window is the aggregate of the events at that time, it counts each of them and has each
  -- one's price between its low and its high, and Gold holds it.
  abbrev pub IsWritten : List TrustedEvent → MarketWindow → World → World → Type 0
  IsWritten es window u w =
      (f : Bool) × (final_at (time_at u) ≡ ok f)
      × (aggregate_at (time_at u) f es ≡ ok window)
      × (window.trade_count ≡ length es)
      × All (IsWithin window) es
      × IsStored env window w

module _ (env : Environment) (keeps : KeepsText env) where
  now-ok : (w : World) {t : Datetime} → (now env w).0 ≡ ok t → t ≡ from_instant (env.clock w.ticks)
  unfolding now
  now-ok w h = cc

  upsert-ok :
      (window : MarketWindow) (w : World)
      → (Gold.upsert env window w).0 ≡ ok tt
      → (Gold.upsert env window w).1.gold ≡ Table.upsert "window_id" (window_row env window) w.gold
  unfolding Gold.upsert execute
  upsert-ok window w h = ground arith

  find_key-upsert_same :
      (window : MarketWindow) (rows : List Row)
      → find_key "window_id" window.window_id
          (Table.upsert "window_id" (window_row env window) rows)
        ≡ some (window_row env window)
  find_key-upsert_same window rows = ground (
    arith,
    find_key-upsert "window_id" window.window_id (window_row env window) rows,
    window_id-window_row env window keeps,
    str_eq_iff window.window_id window.window_id,
  )

  upsert-IsStored :
      (window : MarketWindow) (w : World)
      → (Gold.upsert env window w).0 ≡ ok tt
      → IsStored env window (Gold.upsert env window w).1
  upsert-IsStored window w h = rw (upsert-ok window w h) (find_key-upsert_same window w.gold)

  module _ (settings : GoldSettings) (symbol : String) (start : Datetime) where
    abbrev finish : MarketWindow → Action (Option MarketWindow)
    finish v = Gold.upsert env v >> pure (some v)

    finish-IsStored :
        (v window : MarketWindow) (w : World)
        → (finish v w).0 ≡ ok (some window)
        → (v ≡ window) × IsStored env window (finish v w).1
    finish-IsStored v window w h =
        let (u, stored, back) = >>=-eq-ok (Gold.upsert env v) (λ _. pure (some v)) w h in
        let same : v ≡ window = cc in
        (
          same,
          subst (λ (x : World). IsStored env window x)
              (sym (>>=-world (Gold.upsert env v) (λ _. pure (some v)) w stored))
              (subst (λ (y : MarketWindow). IsStored env y (Gold.upsert env v w).1) same
                (upsert-IsStored v w stored)),
        )

    abbrev after_final : List TrustedEvent → Datetime → Bool → Action (Option MarketWindow)
    after_final es t f = returning (aggregate_at env settings symbol start t f es) >>= finish

    abbrev after_now : List TrustedEvent → Datetime → Action (Option MarketWindow)
    after_now es t = returning (final_at env settings symbol start t) >>= after_final es t

    write_window-IsWritten :
        (es : List TrustedEvent) (window : MarketWindow) (w : World)
        → (write_window env settings symbol start es w).0 ≡ ok (some window)
        → IsWritten env settings symbol start es window w
            (write_window env settings symbol start es w).1
    write_window-IsWritten [] window w h = absurd (cc)
    write_window-IsWritten (e ∷ es) window w h =
        let (t, clock, h1) = >>=-eq-ok (now env) (after_now (e ∷ es)) w h in
        let (f, final, h2) =
          >>=-eq-ok (returning (final_at env settings symbol start t)) (after_final (e ∷ es) t)
            (now env w).1 h1 in
        let (v, aggregate, h3) =
          >>=-eq-ok (returning (aggregate_at env settings symbol start t f (e ∷ es))) finish
            (now env w).1 h2 in
        let (same, held) = finish-IsStored v window (now env w).1 h3 in
        let world : (write_window env settings symbol start (e ∷ es) w).1
            ≡ (finish v (now env w).1).1 =
          >>=-world (now env) (after_now (e ∷ es)) w clock
          ∙ >>=-world (returning (final_at env settings symbol start t)) (after_final (e ∷ es) t)
              (now env w).1 final
          ∙ >>=-world (returning (aggregate_at env settings symbol start t f (e ∷ es))) finish
              (now env w).1 aggregate in
        let shown : t ≡ time_at env settings symbol start w = now-ok w clock in
        let made : aggregate_at env settings symbol start t f (e ∷ es) ≡ ok window =
          aggregate ∙ ap ok same in
        let (count, within) =
          aggregate_window-bounds symbol start (window_end_of env settings start) t f
            settings.vwap_scale (e ∷ es) window made in
        (
          f,
          ap (λ (x : Datetime). final_at env settings symbol start x) (sym shown) ∙ final,
          ap (λ (x : Datetime). aggregate_at env settings symbol start x f (e ∷ es)) (sym shown)
              ∙ made,
          count,
          within,
          subst (λ (x : World). IsStored env window x) (sym world) held,
        )

-- If the recomputation of a window returns one, then the events of that symbol and interval were
-- read from Silver; the window is their aggregate at the time that the clock shows right after that
-- read, final as the settings say; it counts each event, the price of each lies between its low and
-- its high, and Gold holds the window's row under its identity. (Texts come back from the
-- server as they were stored.)
pub recompute_window-IsWritten :
    (env : Environment) (settings : GoldSettings) (symbol : String) (start : Datetime)
    (window : MarketWindow) (w : World)
    → KeepsText env
    → (recompute_window env settings symbol start w).0 ≡ ok (some window)
    → (es : List TrustedEvent) × ((Silver.read_window env symbol start
          (window_end_of env settings start)
          read_limit
          w).0
        ≡ ok es)
      × IsWritten env settings symbol start es window
          (Silver.read_window env symbol start (window_end_of env settings start) read_limit w).1
          (recompute_window env settings symbol start w).1
unfolding recompute_window
recompute_window-IsWritten env settings symbol start window w keeps h =
    let read = Silver.read_window env symbol start (window_end_of env settings start) read_limit in
    let write = write_window env settings symbol start in
    let (es, got, rest) = >>=-eq-ok read write w h in
    (
      es,
      got,
      subst (λ (x : World). IsWritten env settings symbol start es window (read w).1 x)
          (sym (>>=-world read write w got))
          (write_window-IsWritten env keeps settings symbol start es window (read w).1 rest),
    )
