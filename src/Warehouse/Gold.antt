-- ===== src/Warehouse/Gold.antt =====
-- warehouse/repositories/gold.py: the write path and the reads.
pub mod Latest
pub mod Newest
use cryptopulse.Prelude.{
  not, take, map, if◌then◌else◌, String, Bool, ◌&&◌, ◌||◌, str_eq, List, [], ◌∷◌, select, Option,
  none, some,
}
use cryptopulse.Prelude.Int.{ℤ, pos, pos_part, leb_ℤ, ltb_ℤ}
use cryptopulse.Prelude.Sort.{sort_by}
use cryptopulse.Contracts.Gold.{MarketWindow}
use cryptopulse.Warehouse.Rows.{Row}
use cryptopulse.Warehouse.Schemas.Gold.{market_window_to_record, record_to_market_window}
use cryptopulse.Warehouse.World.{
  Environment, World, value_error, Action, pure, check, or_storage_error, execute, fetch, ◌>>=◌,
  ◌>>◌,
}
use cryptopulse.Warehouse.Table
use cryptopulse.Warehouse.Table.{stored, text_cell, instant_cell, find_key, page, map_rows}

-- SELECT DISTINCT ON (name): the first row of each value of the column.
unfoldable pub distinct_on : String → List Row → List Row
distinct_on name [] = []
distinct_on name (row ∷ rows) =
    row ∷ select (λ r. not (str_eq (text_cell name r) (text_cell name row))) (distinct_on name rows)

module _ (env : Environment) where
  -- `_INSERT_SQL` with the columns of a row
  abbrev pub upsert_window : Row → World → Option World
  upsert_window row w =
      some (record w { gold = Table.upsert "window_id" (stored env.column row) w.gold })

  -- `PostgresGoldRepository.upsert`
  unfoldable pub upsert : MarketWindow → Action (Unit {0})
  upsert window =
      execute env "failed to persist MarketWindow to Gold"
        (upsert_window (market_window_to_record window))

  -- ORDER BY window_start DESC, symbol
  unfoldable pub newer : Row → Row → Bool
  newer a b =
      ltb_ℤ (instant_cell "window_start" b) (instant_cell "window_start" a)
      || (leb_ℤ (instant_cell "window_start" b) (instant_cell "window_start" a)
          && env.collate (text_cell "symbol" a) (text_cell "symbol" b))

  abbrev of_symbol : Option String → List Row → List Row
  of_symbol none rows = rows
  of_symbol (some symbol) rows = select (λ row. str_eq (text_cell "symbol" row) symbol) rows

  -- `PostgresGoldRepository.read`
  unfoldable pub read : Option String → ℤ → ℤ → Action (List MarketWindow)
  unfolding newer
  read symbol offset limit = do
    check (ltb_ℤ offset (pos 0)) (value_error "offset must be >= 0")
    check (ltb_ℤ limit (pos 1)) (value_error "limit must be >= 1")
    rows ←
        fetch env "failed to read MarketWindows from Gold"
          (λ w. page offset limit (sort_by newer (of_symbol symbol w.gold)))
    or_storage_error (map_rows record_to_market_window rows)

  abbrev as_rows : Option Row → List Row
  as_rows none = []
  as_rows (some row) = row ∷ []

  abbrev read_first : List Row → Action (Option MarketWindow)
  read_first [] = pure none
  read_first (row ∷ rows) = do
    window ← or_storage_error (record_to_market_window row)
    pure (some window)

  -- `PostgresGoldRepository.get`
  unfoldable pub get : String → Action (Option MarketWindow)
  get window_id = do
    rows ←
        fetch env "failed to read MarketWindow from Gold"
          (λ w. as_rows (find_key "window_id" window_id w.gold))
    read_first rows

  -- The order inside the query: symbol, window_start DESC.
  unfoldable pub by_symbol : Row → Row → Bool
  by_symbol a b =
      if str_eq (text_cell "symbol" a) (text_cell "symbol" b)
      then leb_ℤ (instant_cell "window_start" b) (instant_cell "window_start" a)
      else env.collate (text_cell "symbol" a) (text_cell "symbol" b)

  -- ORDER BY window_start DESC
  abbrev pub by_start : Row → Row → Bool
  by_start a b = leb_ℤ (instant_cell "window_start" b) (instant_cell "window_start" a)

  -- `_SELECT_LATEST_BY_SYMBOL_SQL`
  unfoldable pub latest_rows : ℤ → World → List Row
  unfolding distinct_on by_symbol
  latest_rows limit w =
      take (pos_part limit) (sort_by by_start (distinct_on "symbol" (sort_by by_symbol w.gold)))

  -- `PostgresGoldRepository.latest_by_symbol`
  unfoldable pub latest_by_symbol : ℤ → Action (List MarketWindow)
  unfolding latest_rows
  latest_by_symbol limit = do
    check (ltb_ℤ limit (pos 1)) (value_error "limit must be >= 1")
    rows ← fetch env "failed to read latest MarketWindows from Gold" (latest_rows limit)
    or_storage_error (map_rows record_to_market_window rows)

  abbrev symbol_le : Row → Row → Bool
  symbol_le a b = env.collate (text_cell "symbol" a) (text_cell "symbol" b)

  abbrev symbols_of : List Row → List String
  symbols_of rows = map (λ (row : Row). text_cell "symbol" row) rows

  -- `PostgresGoldRepository.list_symbols`
  unfoldable pub list_symbols : Action (List String)
  unfolding distinct_on
  list_symbols = do
    rows ←
        fetch env "failed to list Gold symbols"
          (λ w. sort_by symbol_le (distinct_on "symbol" w.gold))
    pure (symbols_of rows)
