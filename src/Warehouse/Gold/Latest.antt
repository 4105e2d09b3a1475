-- ===== src/Warehouse/Gold/Latest.antt =====
-- The latest windows: no symbol twice.
use cryptopulse.Prelude.{
  ℕ, zero, suc, ◌≡◌, ◌∙◌, refl, inl, inr, String, Bool, false, not, ◌||◌, str_eq, str_eq_iff, List,
  [], ◌∷◌, select, take, arith, Bool-cases,
}
use cryptopulse.Prelude.Int.{ℤ, pos_part}
use cryptopulse.Prelude.Sort.{insert_by, sort_by}
use cryptopulse.Warehouse.Rows.{Row}
use cryptopulse.Warehouse.World.{Environment, World}
use cryptopulse.Warehouse.Table.{text_cell, has_key}
use cryptopulse.Warehouse.Table.Keys.{IsKeyed}
use cryptopulse.Warehouse.Gold.{distinct_on, by_symbol, by_start, latest_rows}

module _ (name : String) where
  has_key-select :
      (k : String) (p : Row → Bool) (rows : List Row)
      → has_key name k rows ≡ false
      → has_key name k (select p rows) ≡ false
  unfolding has_key
  has_key-select k p [] h = refl
  has_key-select k p (r ∷ rows) h =
      let rest = has_key-select k p rows (ground arith) in ground (arith, rest)

  IsKeyed-select :
      (p : Row → Bool) (rows : List Row) → IsKeyed name rows → IsKeyed name (select p rows)
  IsKeyed-select p [] h = tt
  IsKeyed-select p (r ∷ rows) h = elim (Bool-cases (p r)) [
    | inl e ↦ rw e (has_key-select (text_cell name r) p rows h.0, IsKeyed-select p rows h.1)
    | inr e ↦ rw e (IsKeyed-select p rows h.1)
  ]

  has_key-select_ne :
      (k : String) (rows : List Row)
      → has_key name k (select (λ r. not (str_eq (text_cell name r) k)) rows) ≡ false
  unfolding has_key
  has_key-select_ne k [] = refl
  has_key-select_ne k (r ∷ rows) = ground (arith, has_key-select_ne k rows)

  distinct_on-IsKeyed : (rows : List Row) → IsKeyed name (distinct_on name rows)
  unfolding distinct_on
  distinct_on-IsKeyed [] = tt
  distinct_on-IsKeyed (r ∷ rows) = (
    has_key-select_ne (text_cell name r) (distinct_on name rows),
    IsKeyed-select _ (distinct_on name rows) (distinct_on-IsKeyed rows),
  )

  module _ (le : Row → Row → Bool) where
    has_key-insert_by :
        (k : String) (r : Row) (rows : List Row)
        → has_key name k (insert_by le r rows)
          ≡ (str_eq (text_cell name r) k || has_key name k rows)
    unfolding has_key
    has_key-insert_by k r [] = refl
    has_key-insert_by k r (s ∷ rows) = ground (arith, has_key-insert_by k r rows)

    IsKeyed-insert_by :
        (r : Row) (rows : List Row)
        → has_key name (text_cell name r) rows ≡ false
        → IsKeyed name rows
        → IsKeyed name (insert_by le r rows)
    unfolding has_key
    IsKeyed-insert_by r [] h i = (refl, tt)
    IsKeyed-insert_by r (s ∷ rows) h i = elim (Bool-cases (le r s)) [
      | inl e ↦ rw e (h, i)
      | inr e ↦ rw e (
        ground (
          arith,
          has_key-insert_by (text_cell name s) r rows,
          i.0,
          str_eq_iff (text_cell name r) (text_cell name s),
          str_eq_iff (text_cell name s) (text_cell name r),
        ),
        IsKeyed-insert_by r rows (ground arith) i.1,
      )
    ]

    has_key-sort_by :
        (k : String) (rows : List Row) → has_key name k (sort_by le rows) ≡ has_key name k rows
    unfolding has_key
    has_key-sort_by k [] = refl
    has_key-sort_by k (r ∷ rows) =
        ground (arith, has_key-insert_by k r (sort_by le rows), has_key-sort_by k rows)

    IsKeyed-sort_by : (rows : List Row) → IsKeyed name rows → IsKeyed name (sort_by le rows)
    IsKeyed-sort_by [] h = tt
    IsKeyed-sort_by (r ∷ rows) h =
        IsKeyed-insert_by r (sort_by le rows) (has_key-sort_by (text_cell name r) rows ∙ h.0)
          (IsKeyed-sort_by rows h.1)

  has_key-take :
      (k : String) (n : ℕ) (rows : List Row)
      → has_key name k rows ≡ false
      → has_key name k (take n rows) ≡ false
  unfolding has_key
  has_key-take k zero rows h = refl
  has_key-take k (suc n) [] h = refl
  has_key-take k (suc n) (r ∷ rows) h =
      let rest = has_key-take k n rows (ground arith) in ground (arith, rest)

  IsKeyed-take : (n : ℕ) (rows : List Row) → IsKeyed name rows → IsKeyed name (take n rows)
  IsKeyed-take zero rows h = tt
  IsKeyed-take (suc n) [] h = tt
  IsKeyed-take (suc n) (r ∷ rows) h =
      (has_key-take (text_cell name r) n rows h.0, IsKeyed-take n rows h.1)

-- Of the rows that the query for the latest windows returns, no two have the same symbol, whatever
-- Gold holds.
pub latest_rows-IsKeyed :
    (env : Environment) (limit : ℤ) (w : World) → IsKeyed "symbol" (latest_rows env limit w)
unfolding latest_rows
latest_rows-IsKeyed env limit w =
    let rows : List Row = sort_by (by_symbol env) w.gold in
    let latest : List Row = distinct_on "symbol" rows in
    IsKeyed-take "symbol" (pos_part limit) (sort_by (by_start env) latest)
      (IsKeyed-sort_by "symbol" (by_start env) latest (distinct_on-IsKeyed "symbol" rows))
