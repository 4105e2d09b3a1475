-- ===== src/Warehouse/Bronze.antt =====
-- warehouse/repositories/bronze.py
use cryptopulse.Prelude.{String, List, [], ◌∷◌, Option, none, some}
use cryptopulse.Prelude.Int.{ℤ, pos, ltb_ℤ}
use cryptopulse.Prelude.Sort.{sort_by}
use cryptopulse.Contracts.Events.{InternalEvent}
use cryptopulse.Warehouse.Rows.{Row}
use cryptopulse.Warehouse.Schemas.Bronze.{internal_event_to_record, record_to_internal_event}
use cryptopulse.Warehouse.World.{
  Environment, World, value_error, Action, pure, check, or_storage_error, execute, fetch, ◌>>=◌,
  ◌>>◌,
}
use cryptopulse.Warehouse.Table.{stored, insert_new, find_key, row_le, page, map_rows}

module _ (env : Environment) where
  -- `_INSERT_SQL` with the columns of a row
  abbrev pub insert_event : Row → World → Option World
  insert_event row w =
      some (record w { bronze = insert_new "event_id" (stored env.column row) w.bronze })

  -- `PostgresBronzeRepository.append`
  unfoldable pub append : InternalEvent → Action (Unit {0})
  append event =
      execute env "failed to persist InternalEvent to Bronze"
        (insert_event (internal_event_to_record event))

  -- `_REPLAY_SQL`
  unfoldable pub replay_rows : ℤ → ℤ → World → List Row
  replay_rows offset limit w =
      page offset limit (sort_by (row_le env.collate "received_at") w.bronze)

  -- `PostgresBronzeRepository.replay`
  unfoldable pub replay : ℤ → ℤ → Action (List InternalEvent)
  unfolding replay_rows
  replay offset limit = do
    check (ltb_ℤ offset (pos 0)) (value_error "offset must be >= 0")
    check (ltb_ℤ limit (pos 1)) (value_error "limit must be >= 1")
    rows ← fetch env "failed to read events from Bronze" (replay_rows offset limit)
    or_storage_error (map_rows record_to_internal_event rows)

  abbrev as_rows : Option Row → List Row
  as_rows none = []
  as_rows (some row) = row ∷ []

  abbrev read_first : List Row → Action (Option InternalEvent)
  read_first [] = pure none
  read_first (row ∷ rows) = do
    event ← or_storage_error (record_to_internal_event row)
    pure (some event)

  -- `PostgresBronzeRepository.get`
  unfoldable pub get : String → Action (Option InternalEvent)
  get event_id = do
    rows ←
        fetch env "failed to read event from Bronze"
          (λ w. as_rows (find_key "event_id" event_id w.bronze))
    read_first rows
