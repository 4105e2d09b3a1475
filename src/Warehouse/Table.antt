-- ===== src/Warehouse/Table.antt =====
-- The SQL statements of the repositories, on a table as the list of its rows. Of the constraints, the
-- keys of the conflict clauses are here; a violation of any other is an operation that the server
-- refuses.
pub mod Keys
use cryptopulse.Prelude.{
  ℕ, zero, suc, String, Bool, true, false, ◌&&◌, ◌||◌, not, ◌==◌, str_eq, List, [], ◌∷◌, ◌++◌, map,
  take, drop, Option, none, some, if◌then◌else◌,
}
use cryptopulse.Prelude.Int.{ℤ, pos, pos_part, leb_ℤ, ltb_ℤ}
use cryptopulse.Prelude.Sort.{sort_by}
use cryptopulse.Python.Datetime.{instant}
use cryptopulse.Python.Value.{Value, text, datetime, as_text}
use cryptopulse.Python.Call.{Call, returned, raised, ◌>>=◌}
use cryptopulse.Warehouse.Rows.{Row, cell}

-- The columns of a row as the server stores them.
unfoldable pub stored : (Value → Value) → Row → Row
stored column [] = []
stored column ((name, v) ∷ row) = (name, column v) ∷ stored column row

abbrev value_text : Value → String
value_text v = elim (as_text v) [ none ↦ "" | some s ↦ s ]

abbrev value_instant : Value → ℤ
value_instant (datetime d) = instant d
value_instant _ = pos 0

-- A column of type TEXT, and one of type TIMESTAMPTZ.
unfoldable pub text_cell : String → Row → String
unfolding cell as_text
text_cell name row = elim (cell name row) [ none ↦ "" | some v ↦ value_text v ]

unfoldable pub instant_cell : String → Row → ℤ
unfolding cell
instant_cell name row = elim (cell name row) [ none ↦ pos 0 | some v ↦ value_instant v ]

-- Some row holds the text `k` in its column `name`.
unfoldable pub has_key : String → String → List Row → Bool
has_key name k [] = false
has_key name k (row ∷ rows) = str_eq (text_cell name row) k || has_key name k rows

-- INSERT … ON CONFLICT (name) DO NOTHING
unfoldable pub insert_new : String → Row → List Row → List Row
unfolding has_key
insert_new name row rows = if has_key name (text_cell name row) rows then rows else rows ++ row ∷ []

-- INSERT … ON CONFLICT (name) DO UPDATE SET every other column
unfoldable pub upsert : String → Row → List Row → List Row
upsert name row [] = row ∷ []
upsert name row (r ∷ rows) =
    if str_eq (text_cell name r) (text_cell name row) then row ∷ rows else r ∷ upsert name row rows

-- SELECT … WHERE name = k, of a key: the row, if there is one.
unfoldable pub find_key : String → String → List Row → Option Row
find_key name k [] = none
find_key name k (row ∷ rows) =
    if str_eq (text_cell name row) k then some row else find_key name k rows

-- ORDER BY time, event_id
unfoldable pub row_le : (String → String → Bool) → String → Row → Row → Bool
unfolding text_cell instant_cell
row_le collate time a b =
    ltb_ℤ (instant_cell time a) (instant_cell time b)
    || (leb_ℤ (instant_cell time a) (instant_cell time b)
        && collate (text_cell "event_id" a) (text_cell "event_id" b))

-- OFFSET … LIMIT …
abbrev pub page : ℤ → ℤ → List Row → List Row
page offset limit rows = take (pos_part limit) (drop (pos_part offset) rows)

-- The mapping of every row, which stops at the first that does not conform (`_map_rows`).
unfoldable pub map_rows {ℓ} : {A : Type ℓ} → (Row → Call A) → List Row → Call (List A)
map_rows f [] = returned []
map_rows f (row ∷ rows) = do a ← f row; mapped ← map_rows f rows; returned (a ∷ mapped)
