-- ===== src/GoldService.antt =====
-- processing/gold/service.py: from Silver to Gold. The clock is the platform's. The Silver
-- repository is the PostgreSQL one, so the fallback of `_read_window` is not taken. Logging is left
-- out.
pub mod Frame
pub mod Written
use cryptopulse.Prelude.{
  ℕ, zero, suc, ◌+◌, String, Bool, true, false, ◌&&◌, ◌||◌, str_eq, List, [], ◌∷◌, if◌then◌else◌,
  Option, none, some,
}
use cryptopulse.Prelude.Int.{ℤ, pos, ◌+ℤ◌, leb_ℤ, ltb_ℤ}
use cryptopulse.Prelude.Sort.{sort_by}
use cryptopulse.Python.Text.{str_leb}
use cryptopulse.Python.Datetime.{Datetime, instant, of_seconds}
use cryptopulse.Contracts.Events.{TrustedEvent}
use cryptopulse.Contracts.Gold.{MarketWindow}
use cryptopulse.Warehouse.World.{
  Environment, World, Result, ok, err, value_error, Action, pure, raise, check, now, ◌>>=◌, ◌>>◌,
}
use cryptopulse.Warehouse.Silver
use cryptopulse.Warehouse.Gold
use cryptopulse.Aggregation.{window_start_for, is_final_for, aggregate_window}

-- processing/config/settings.py
pub record GoldSettings : Type 0 where
  pub window_seconds : ℤ
  pub allowed_lateness_seconds : ℤ
  pub vwap_scale : ℕ
  pub batch_size : ℤ

abbrev pub returning {ℓ} : {A : Type ℓ} → Result A → Action A
returning r w = (r, w)

abbrev pub Candidate : Type 0
Candidate = String × Datetime

abbrev same_instant : Datetime → Datetime → Bool
same_instant s t = leb_ℤ (instant s) (instant t) && leb_ℤ (instant t) (instant s)

-- The members of a set of candidates; equal ones are kept once.
unfoldable pub is_candidate : Candidate → List Candidate → Bool
is_candidate c [] = false
is_candidate c (d ∷ ds) = (str_eq c.0 d.0 && same_instant c.1 d.1) || is_candidate c ds

abbrev with_start : ℤ → TrustedEvent → List Candidate → Result Datetime → Result (List Candidate)
with_start window_seconds e found (err x) = err x
with_start window_seconds e found (ok start) =
    ok (if is_candidate (e.symbol, start) found then found else (e.symbol, start) ∷ found)

abbrev with_event : ℤ → TrustedEvent → Result (List Candidate) → Result (List Candidate)
with_event window_seconds e (err x) = err x
with_event window_seconds e (ok found) =
    with_start window_seconds e found (window_start_for e.trade_timestamp window_seconds)

unfoldable pub candidates : ℤ → List TrustedEvent → Result (List Candidate)
unfolding is_candidate
candidates window_seconds [] = ok []
candidates window_seconds (e ∷ es) = with_event window_seconds e (candidates window_seconds es)

-- `key=lambda c: (c[1], c[0])`
unfoldable pub candidate_le : Candidate → Candidate → Bool
unfolding str_leb
candidate_le a b =
    ltb_ℤ (instant a.1) (instant b.1) || (leb_ℤ (instant a.1) (instant b.1) && str_leb a.0 b.0)

-- The default of `read_window`'s limit.
abbrev pub read_limit : ℤ
read_limit = pos 1000000

module _ (env : Environment) (settings : GoldSettings) where
  -- `window_start + timedelta(seconds=window_seconds)`
  abbrev pub window_end_of : Datetime → Datetime
  window_end_of start = record start { wall = start.wall +ℤ of_seconds settings.window_seconds }

  abbrev pub write_window : String → Datetime → List TrustedEvent → Action (Option MarketWindow)
  write_window symbol window_start [] = pure none
  write_window symbol window_start (e ∷ es) = do
    computed_at ← now env
    is_final ←
        returning
          (is_final_for (window_end_of window_start) computed_at settings.allowed_lateness_seconds)
    window ← returning (
        aggregate_window symbol window_start (window_end_of window_start) computed_at is_final
          settings.vwap_scale (e ∷ es))
    Gold.upsert env window
    pure (some window)

  -- `recompute_window`
  unfoldable pub recompute_window : String → Datetime → Action (Option MarketWindow)
  recompute_window symbol window_start = do
    events ← Silver.read_window env symbol window_start (window_end_of window_start) read_limit
    write_window symbol window_start events

  abbrev pub counted : Option MarketWindow → ℕ → ℕ
  counted none written = written
  counted (some window) written = written + 1

  -- The loop over the sorted candidates, which has written `written` windows so far.
  unfoldable pub recompute_all : List Candidate → ℕ → Action ℕ
  unfolding recompute_window
  recompute_all [] written = pure written
  recompute_all (c ∷ cs) written = do
    window ← recompute_window c.0 c.1
    recompute_all cs (counted window written)

  abbrev pub process_page : List TrustedEvent → Action ℕ
  process_page [] = pure 0
  process_page (e ∷ es) = do
    found ← returning (candidates settings.window_seconds (e ∷ es))
    recompute_all (sort_by candidate_le found) 0

  abbrev page_size : Option ℤ → ℤ
  page_size none = settings.batch_size
  page_size (some limit) = limit

  -- `process_batch`
  unfoldable pub process_batch : ℤ → Option ℤ → Action ℕ
  unfolding recompute_all candidates candidate_le
  process_batch offset limit = do
    check (ltb_ℤ offset (pos 0)) (value_error "offset must be >= 0")
    check (ltb_ℤ (page_size limit) (pos 1)) (value_error "limit must be >= 1")
    page ← Silver.read env offset (page_size limit)
    process_page page
