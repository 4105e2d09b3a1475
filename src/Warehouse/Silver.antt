-- ===== src/Warehouse/Silver.antt =====
-- warehouse/repositories/silver.py
use cryptopulse.Prelude.{
  String, Bool, ◌&&◌, str_eq, List, [], ◌∷◌, take, select, Option, none, some,
}
use cryptopulse.Prelude.Int.{ℤ, pos, pos_part, leb_ℤ, ltb_ℤ}
use cryptopulse.Prelude.Sort.{sort_by}
use cryptopulse.Python.Datetime.{Datetime, instant}
use cryptopulse.Contracts.Events.{TrustedEvent}
use cryptopulse.Warehouse.Rows.{Row}
use cryptopulse.Warehouse.Schemas.Silver.{trusted_event_to_record, record_to_trusted_event}
use cryptopulse.Warehouse.World.{
  Environment, World, value_error, Action, pure, check, or_storage_error, execute, fetch, ◌>>=◌,
  ◌>>◌,
}
use cryptopulse.Warehouse.Table.{
  stored, text_cell, instant_cell, insert_new, find_key, row_le, page, map_rows,
}

module _ (env : Environment) where
  -- `_INSERT_SQL` with the columns of a row
  abbrev pub insert_trusted : Row → World → Option World
  insert_trusted row w =
      some (record w { silver = insert_new "event_id" (stored env.column row) w.silver })

  -- `PostgresSilverRepository.append`
  unfoldable pub append : TrustedEvent → Action (Unit {0})
  append event =
      execute env "failed to persist TrustedEvent to Silver"
        (insert_trusted (trusted_event_to_record event))

  -- `_READ_SQL`
  unfoldable pub read_rows : ℤ → ℤ → World → List Row
  read_rows offset limit w =
      page offset limit (sort_by (row_le env.collate "validated_at") w.silver)

  -- `PostgresSilverRepository.read`
  unfoldable pub read : ℤ → ℤ → Action (List TrustedEvent)
  unfolding read_rows
  read offset limit = do
    check (ltb_ℤ offset (pos 0)) (value_error "offset must be >= 0")
    check (ltb_ℤ limit (pos 1)) (value_error "limit must be >= 1")
    rows ← fetch env "failed to read events from Silver" (read_rows offset limit)
    or_storage_error (map_rows record_to_trusted_event rows)

  -- The WHERE clause of `_READ_WINDOW_SQL`
  unfoldable pub in_window : String → Datetime → Datetime → Row → Bool
  in_window symbol from to row =
      str_eq (text_cell "symbol" row) symbol
      && (leb_ℤ (instant from) (instant_cell "trade_timestamp" row)
          && ltb_ℤ (instant_cell "trade_timestamp" row) (instant to))

  unfoldable pub window_rows : String → Datetime → Datetime → ℤ → World → List Row
  unfolding in_window
  window_rows symbol from to limit w =
      take (pos_part limit) (
        sort_by (row_le env.collate "trade_timestamp") (select (in_window symbol from to) w.silver))

  -- `PostgresSilverRepository.read_window`
  unfoldable pub read_window : String → Datetime → Datetime → ℤ → Action (List TrustedEvent)
  unfolding window_rows
  read_window symbol from to limit = do
    check (ltb_ℤ limit (pos 1)) (value_error "limit must be >= 1")
    rows ← fetch env "failed to read window events from Silver" (window_rows symbol from to limit)
    or_storage_error (map_rows record_to_trusted_event rows)

  abbrev as_rows : Option Row → List Row
  as_rows none = []
  as_rows (some row) = row ∷ []

  abbrev read_first : List Row → Action (Option TrustedEvent)
  read_first [] = pure none
  read_first (row ∷ rows) = do
    event ← or_storage_error (record_to_trusted_event row)
    pure (some event)

  -- `PostgresSilverRepository.get`
  unfoldable pub get : String → Action (Option TrustedEvent)
  get event_id = do
    rows ←
        fetch env "failed to read event from Silver"
          (λ w. as_rows (find_key "event_id" event_id w.silver))
    read_first rows
