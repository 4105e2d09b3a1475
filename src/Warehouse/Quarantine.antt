-- ===== src/Warehouse/Quarantine.antt =====
-- warehouse/repositories/quarantine.py. The key of the table is (event_id, quarantined_at), and
-- there is no conflict clause: a second row with one key violates the constraint.
use cryptopulse.Prelude.{
  String, Bool, false, ◌&&◌, ◌||◌, str_eq, List, [], ◌∷◌, ◌++◌, take, select, Option, none, some,
  if◌then◌else◌,
}
use cryptopulse.Prelude.Int.{ℤ, pos, pos_part, leb_ℤ, ltb_ℤ}
use cryptopulse.Prelude.Sort.{sort_by}
use cryptopulse.Python.Datetime.{Datetime}
use cryptopulse.Contracts.Events.{InternalEvent}
use cryptopulse.Contracts.Validation.{ValidationFailure}
use cryptopulse.Warehouse.Rows.{Row}
use cryptopulse.Warehouse.Schemas.Quarantine.{
  QuarantineRecord, quarantine_record_to_record, record_to_quarantine_record,
}
use cryptopulse.Warehouse.World.{
  Environment, World, value_error, Action, pure, check, or_storage_error, now, execute, fetch,
  ◌>>=◌, ◌>>◌,
}
use cryptopulse.Warehouse.Table.{stored, text_cell, instant_cell, row_le, page, map_rows}

-- The two rows have the same primary key.
unfoldable pub same_key : Row → Row → Bool
same_key a b =
    str_eq (text_cell "event_id" a) (text_cell "event_id" b)
    && (leb_ℤ (instant_cell "quarantined_at" a) (instant_cell "quarantined_at" b)
        && leb_ℤ (instant_cell "quarantined_at" b) (instant_cell "quarantined_at" a))

unfoldable pub has_same_key : Row → List Row → Bool
unfolding same_key
has_same_key row [] = false
has_same_key row (r ∷ rows) = same_key r row || has_same_key row rows

module _ (env : Environment) where
  -- `_INSERT_SQL` with the columns of a row
  unfoldable pub insert_rejected : Row → World → Option World
  insert_rejected row w =
      let new = stored env.column row in
      if has_same_key new w.quarantine
      then none
      else some (record w { quarantine = w.quarantine ++ new ∷ [] })

  -- `PostgresQuarantineRepository.append_record`
  unfoldable pub append_record :
      InternalEvent → Datetime → List ValidationFailure → Action (Unit {0})
  unfolding insert_rejected
  append_record event quarantined_at failures =
      execute env "failed to persist rejected InternalEvent to Quarantine" (
        insert_rejected (
          quarantine_record_to_record
            (record { event = event; quarantined_at = quarantined_at; failures = failures })))

  -- `PostgresQuarantineRepository.append`
  unfoldable pub append : InternalEvent → String → Action (Unit {0})
  unfolding append_record
  append event reason = do
    quarantined_at ← now env
    append_record event quarantined_at
        (record { rule = "quarantine"; code = "rejection_reason"; message = reason } ∷ [])

  abbrev events_of : List QuarantineRecord → List InternalEvent
  events_of [] = []
  events_of (r ∷ rs) = r.event ∷ events_of rs

  -- `PostgresQuarantineRepository.read_rejected`
  unfoldable pub read_rejected : ℤ → ℤ → Action (List InternalEvent)
  read_rejected offset limit = do
    check (ltb_ℤ offset (pos 0)) (value_error "offset must be >= 0")
    check (ltb_ℤ limit (pos 1)) (value_error "limit must be >= 1")
    rows ←
        fetch env "failed to read rejected events from Quarantine"
          (λ w. page offset limit (sort_by (row_le env.collate "quarantined_at") w.quarantine))
    records ← or_storage_error (map_rows record_to_quarantine_record rows)
    pure (events_of records)

  -- ORDER BY quarantined_at
  abbrev earlier : Row → Row → Bool
  earlier a b = leb_ℤ (instant_cell "quarantined_at" a) (instant_cell "quarantined_at" b)

  -- `PostgresQuarantineRepository.get_records`
  unfoldable pub get_records : String → ℤ → Action (List QuarantineRecord)
  get_records event_id limit = do
    check (ltb_ℤ limit (pos 1)) (value_error "limit must be >= 1")
    rows ← fetch env "failed to read quarantine records" (λ w.
        take (pos_part limit) (
          sort_by earlier
            (select (λ row. str_eq (text_cell "event_id" row) event_id) w.quarantine)))
    or_storage_error (map_rows record_to_quarantine_record rows)
