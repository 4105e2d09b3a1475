-- ===== src/Warehouse/Table/Keys.antt =====
-- Keys of a table under the two kinds of INSERT.
use cryptopulse.Prelude.{
  ◌≡◌, refl, inl, inr, String, true, false, ◌||◌, str_eq, str_eq_iff, List, [], ◌∷◌, ◌++◌, some,
  arith, Bool-cases, if◌then◌else◌, Option, none, Option-cases, ◌∙◌, sym, ap,
}
use cryptopulse.Warehouse.Rows.{Row}
use cryptopulse.Warehouse.Table.{text_cell, has_key, insert_new, upsert, find_key}

pub has_key-append :
    (name k : String) (xs ys : List Row)
    → has_key name k (xs ++ ys) ≡ (has_key name k xs || has_key name k ys)
unfolding has_key
has_key-append name k [] ys = refl
has_key-append name k (x ∷ xs) ys = ground (arith, has_key-append name k xs ys)

-- After an insert the key is there, new or not.
pub has_key-insert_new :
    (name : String) (row : Row) (rows : List Row)
    → has_key name (text_cell name row) (insert_new name row rows) ≡ true
unfolding insert_new
has_key-insert_new name row rows = ground (
  arith,
  has_key-append name (text_cell name row) rows (row ∷ []),
  str_eq_iff (text_cell name row) (text_cell name row),
)

-- The keys after an insert are those before and the new one.
pub has_key-insert_new_ne :
    (name k : String) (row : Row) (rows : List Row)
    → str_eq (text_cell name row) k ≡ false
    → has_key name k (insert_new name row rows) ≡ has_key name k rows
unfolding insert_new
has_key-insert_new_ne name k row rows h = ground (arith, has_key-append name k rows (row ∷ []))

pub has_key-insert_new_mono :
    (name k : String) (row : Row) (rows : List Row)
    → has_key name k rows ≡ true
    → has_key name k (insert_new name row rows) ≡ true
unfolding insert_new
has_key-insert_new_mono name k row rows h = ground (arith, has_key-append name k rows (row ∷ []))

pub insert_new_present :
    (name : String) (row : Row) (rows : List Row)
    → has_key name (text_cell name row) rows ≡ true
    → insert_new name row rows ≡ rows
unfolding insert_new
insert_new_present name row rows h = rw h

-- Inserting a second row under a key changes nothing.
pub insert_new-insert_new :
    (name : String) (r s : Row) (rows : List Row)
    → text_cell name s ≡ text_cell name r
    → insert_new name s (insert_new name r rows) ≡ insert_new name r rows
insert_new-insert_new name r s rows e =
    insert_new_present name s (insert_new name r rows) (rw e (has_key-insert_new name r rows))

-- No two rows have the same key.
abbrev pub IsKeyed : String → List Row → Type 0
IsKeyed name [] = Unit {0}
IsKeyed name (row ∷ rows) = (has_key name (text_cell name row) rows ≡ false) × IsKeyed name rows

IsKeyed-append :
    (name : String) (rows : List Row) (row : Row)
    → has_key name (text_cell name row) rows ≡ false
    → IsKeyed name rows
    → IsKeyed name (rows ++ row ∷ [])
unfolding has_key
IsKeyed-append name [] row h k = (refl, tt)
IsKeyed-append name (r ∷ rows) row h k = (
  ground (
    arith,
    k.0,
    has_key-append name (text_cell name r) rows (row ∷ []),
    str_eq_iff (text_cell name row) (text_cell name r),
    str_eq_iff (text_cell name r) (text_cell name row),
  ),
  IsKeyed-append name rows row (ground arith) k.1,
)

-- If no two rows have one key, then no two have after an insert that does nothing on conflict.
pub insert_new-IsKeyed :
    (name : String) (row : Row) (rows : List Row)
    → IsKeyed name rows
    → IsKeyed name (insert_new name row rows)
unfolding insert_new
insert_new-IsKeyed name row rows h = elim (Bool-cases (has_key name (text_cell name row) rows)) [
  | inl e ↦ rw e h
  | inr e ↦ rw e (IsKeyed-append name rows row e h)
]

-- The upsert replaces the row of its key and leaves every other key's row.
pub find_key-upsert :
    (name k : String) (row : Row) (rows : List Row)
    → find_key name k (upsert name row rows)
      ≡ (if str_eq (text_cell name row) k then some row else find_key name k rows)
unfolding find_key upsert
find_key-upsert name k row [] = refl
find_key-upsert name k row (r ∷ rows) = ground (
  arith,
  find_key-upsert name k row rows,
  str_eq_iff (text_cell name r) (text_cell name row),
  str_eq_iff (text_cell name row) k,
  str_eq_iff (text_cell name r) k,
)

has_key-upsert :
    (name k : String) (row : Row) (rows : List Row)
    → has_key name k (upsert name row rows) ≡ (str_eq (text_cell name row) k || has_key name k rows)
unfolding has_key upsert
has_key-upsert name k row [] = refl
has_key-upsert name k row (r ∷ rows) = ground (
  arith,
  has_key-upsert name k row rows,
  str_eq_iff (text_cell name r) (text_cell name row),
  str_eq_iff (text_cell name row) k,
  str_eq_iff (text_cell name r) k,
)

-- If no two rows have one key, then no two have after an upsert.
pub upsert-IsKeyed :
    (name : String) (row : Row) (rows : List Row)
    → IsKeyed name rows
    → IsKeyed name (upsert name row rows)
unfolding upsert
upsert-IsKeyed name row [] h = (unfold has_key in refl, tt)
upsert-IsKeyed name row (r ∷ rows) h =
    elim (Bool-cases (str_eq (text_cell name r) (text_cell name row))) [
      | inl e ↦ rw e (rw ((str_eq_iff _ _).0 e) at h.0, h.1)
      | inr e ↦ rw e (
        ground (
          arith,
          h.0,
          has_key-upsert name (text_cell name r) row rows,
          str_eq_iff (text_cell name r) (text_cell name row),
          str_eq_iff (text_cell name row) (text_cell name r),
        ),
        upsert-IsKeyed name row rows h.1,
      )
    ]

-- Writing a second row under a key leaves the table as the second write alone.
pub upsert-upsert :
    (name : String) (r s : Row) (rows : List Row)
    → text_cell name r ≡ text_cell name s
    → upsert name s (upsert name r rows) ≡ upsert name s rows
unfolding upsert
upsert-upsert name r s [] e = ground (arith, str_eq_iff (text_cell name r) (text_cell name s))
upsert-upsert name r s (x ∷ rows) e = ground (
  arith,
  upsert-upsert name r s rows e,
  str_eq_iff (text_cell name r) (text_cell name s),
  str_eq_iff (text_cell name x) (text_cell name s),
  str_eq_iff (text_cell name x) (text_cell name r),
)

abbrev first_of : Option Row → Option Row → Option Row
first_of none o = o
first_of (some row) o = some row

find_key-append :
    (name k : String) (xs ys : List Row)
    → find_key name k (xs ++ ys) ≡ first_of (find_key name k xs) (find_key name k ys)
unfolding find_key
find_key-append name k [] ys = refl
find_key-append name k (x ∷ xs) ys = elim (Bool-cases (str_eq (text_cell name x) k)) [
  | inl e ↦ rw e refl
  | inr e ↦ rw e (find_key-append name k xs ys)
]

not_found :
    (name k : String) (rows : List Row)
    → has_key name k rows ≡ true
    → find_key name k rows ≡ none
    → ⊥
unfolding find_key has_key
not_found name k [] h n = ground arith
not_found name k (r ∷ rows) h n = elim (Bool-cases (str_eq (text_cell name r) k)) [
  | inl e ↦ ground arith
  | inr e ↦ not_found name k rows (ground arith) (ground arith)
]

find_key-one :
    (name k : String) (row : Row) (rows : List Row)
    → has_key name (text_cell name row) rows ≡ true
    → find_key name k rows ≡ none
    → find_key name k (row ∷ []) ≡ none
unfolding find_key
find_key-one name k row rows h n = elim (Bool-cases (str_eq (text_cell name row) k)) [
  | inl e ↦
      let same = (str_eq_iff (text_cell name row) k).0 e in
      let held : has_key name k rows ≡ true = cc in absurd (not_found name k rows held n)
  | inr e ↦ rw e refl
]

-- The insert that does nothing on a conflict leaves under each key what adding the row at the end
-- would: the first row of the key.
pub find_key-insert_new :
    (name k : String) (row : Row) (rows : List Row)
    → find_key name k (insert_new name row rows) ≡ find_key name k (rows ++ row ∷ [])
unfolding insert_new
find_key-insert_new name k row rows = elim (Bool-cases (has_key name (text_cell name row) rows)) [
  | inr new ↦ rw new refl
  | inl old ↦
      rw (old, find_key-append name k rows (row ∷ []))
        (elim (Option-cases (find_key name k rows)) [
          | inl e ↦ rw e (sym (find_key-one name k row rows old e))
          | inr (r, e) ↦ rw e refl
        ])
]

-- What is found depends on what is found in the first rows.
pub find_key-append_same :
    (name k : String) (xs xs' ys : List Row)
    → find_key name k xs ≡ find_key name k xs'
    → find_key name k (xs ++ ys) ≡ find_key name k (xs' ++ ys)
find_key-append_same name k xs xs' ys h =
    find_key-append name k xs ys
    ∙ ap (λ (o : Option Row). first_of o (find_key name k ys)) h
    ∙ sym (find_key-append name k xs' ys)
