-- ===== src/Warehouse/Gold/Newest.antt =====
-- The latest windows: each is the newest of its symbol.
use cryptopulse.Prelude.{
  ◌≡◌, refl, sym, ◌∙◌, inl, inr, String, Bool, true, false, not, str_eq, str_eq_iff, List, [], ◌∷◌,
  select, arith, Bool-cases, All, All-map, All-select, All-take,
}
use cryptopulse.Prelude.Int.{ℤ, pos_part, leb_ℤ}
use cryptopulse.Prelude.Sort.{sort_by, IsSorted, sort_by-IsSorted, All-sort_by, All-of_sort_by}
use cryptopulse.Warehouse.Rows.{Row}
use cryptopulse.Warehouse.World.{Environment, World}
use cryptopulse.Warehouse.Table.{text_cell, instant_cell}
use cryptopulse.Warehouse.Table.Keys.{IsKeyed}
use cryptopulse.Warehouse.Gold.{distinct_on, by_symbol, by_start, latest_rows}
use cryptopulse.Warehouse.Gold.Latest.{latest_rows-IsKeyed}

-- The collation is a total order of the texts.
abbrev pub IsCollation : (String → String → Bool) → Type 0
IsCollation le =
    ((s t : String) → le s t ≡ false → le t s ≡ true)
    × ((s t u : String) → le s t ≡ true → le t u ≡ true → le s u ≡ true)
    × ((s t : String) → le s t ≡ true → le t s ≡ true → s ≡ t)

abbrev symbol : Row → String
symbol r = text_cell "symbol" r

-- Against the row: another of its symbol starts no later.
abbrev StartsFirst : Row → Row → Type 0
StartsFirst r s =
    symbol s ≡ symbol r
    → leb_ℤ (instant_cell "window_start" s) (instant_cell "window_start" r) ≡ true

-- The rows of the list with this row's symbol start no later than it.
abbrev pub IsNewest : List Row → Row → Type 0
IsNewest rows r =
    All (λ s. leb_ℤ (instant_cell "window_start" s) (instant_cell "window_start" r) ≡ true)
      (select (λ s. str_eq (text_cell "symbol" s) (text_cell "symbol" r)) rows)

StartsFirst-IsNewest : (rows : List Row) (r : Row) → All (StartsFirst r) rows → IsNewest rows r
StartsFirst-IsNewest rows r h =
    All-select (λ s. str_eq (text_cell "symbol" s) (text_cell "symbol" r))
      (λ s e first. first ((str_eq_iff (symbol s) (symbol r)).0 e)) rows h

module _ (env : Environment) (order : IsCollation env.collate) where
  by_symbol_total : (a b : Row) → by_symbol env a b ≡ false → by_symbol env b a ≡ true
  unfolding by_symbol
  by_symbol_total a b h = ground (
    arith,
    str_eq_iff (symbol a) (symbol b),
    str_eq_iff (symbol b) (symbol a),
    order.0 (symbol a) (symbol b),
  )

  by_symbol_other :
      (a b : Row)
      → str_eq (symbol a) (symbol b) ≡ false
      → by_symbol env a b ≡ env.collate (symbol a) (symbol b)
  unfolding by_symbol
  by_symbol_other a b e = rw e refl

  by_symbol_trans :
      (a b c : Row) → by_symbol env a b ≡ true → by_symbol env b c ≡ true → by_symbol env a c ≡ true
  unfolding by_symbol
  by_symbol_trans a b c h k = elim (Bool-cases (str_eq (symbol a) (symbol b))) [
    | inl e ↦ elim (Bool-cases (str_eq (symbol b) (symbol c))) [
      | inl f ↦ ground (
        arith,
        str_eq_iff (symbol a) (symbol b),
        str_eq_iff (symbol b) (symbol c),
        str_eq_iff (symbol a) (symbol c),
      )
      | inr f ↦
          let same = (str_eq_iff (symbol a) (symbol b)).0 e in
          let other : str_eq (symbol a) (symbol c) ≡ false = cc in
          cc (by_symbol_other a c other, by_symbol_other b c f)
    ]
    | inr e ↦ elim (Bool-cases (str_eq (symbol b) (symbol c))) [
      | inl f ↦
          let same = (str_eq_iff (symbol b) (symbol c)).0 f in
          let other : str_eq (symbol a) (symbol c) ≡ false = cc in
          cc (by_symbol_other a c other, by_symbol_other a b e)
      | inr f ↦
          let first = sym (by_symbol_other a b e) ∙ h in
          let second = sym (by_symbol_other b c f) ∙ k in
          elim (Bool-cases (str_eq (symbol a) (symbol c))) [
            | inl g ↦
                let same = (str_eq_iff (symbol a) (symbol c)).0 g in
                let back : env.collate (symbol b) (symbol a) ≡ true = cc in
                let equal = order.2 (symbol a) (symbol b) first back in
                absurd (ground (arith, str_eq_iff (symbol a) (symbol b)))
            | inr g ↦ by_symbol_other a c g ∙ order.1 (symbol a) (symbol b) (symbol c) first second
          ]
    ]
  ]

  by_symbol_start :
      (a b : Row)
      → by_symbol env a b ≡ true
      → symbol b ≡ symbol a
      → leb_ℤ (instant_cell "window_start" b) (instant_cell "window_start" a) ≡ true
  unfolding by_symbol
  by_symbol_start a b h same = ground (arith, str_eq_iff (symbol a) (symbol b))

  distinct_on-StartsFirst :
      (rows : List Row)
      → IsSorted (by_symbol env) rows
      → All (λ r. All (StartsFirst r) rows) (distinct_on "symbol" rows)
  unfolding distinct_on
  distinct_on-StartsFirst [] h = tt
  distinct_on-StartsFirst (r ∷ rows) h = (
    (λ same. ground arith, All-map (λ s before same. by_symbol_start r s before same) rows h.0),
    All-select (λ t. not (str_eq (symbol t) (symbol r)))
        (λ t other newest.
          (λ same. absurd (ground (arith, str_eq_iff (symbol t) (symbol r))), newest))
        (distinct_on "symbol" rows) (distinct_on-StartsFirst rows h.1),
  )

  -- If the database's collation is a total order of the texts, then of the rows that the query for
  -- the latest windows returns, no two have the same symbol, and each is the newest of its symbol:
  -- every row of Gold with the same symbol starts no later than it.
  pub latest_rows-AreNewest :
      (limit : ℤ) (w : World)
      → IsKeyed "symbol" (latest_rows env limit w) × All (IsNewest w.gold) (latest_rows env limit w)
  unfolding latest_rows
  latest_rows-AreNewest limit w =
      let rows : List Row = sort_by (by_symbol env) w.gold in
      let latest : List Row = distinct_on "symbol" rows in
      let sorted = sort_by-IsSorted (by_symbol env) by_symbol_total by_symbol_trans w.gold in
      (
        latest_rows-IsKeyed env limit w,
        All-take (IsNewest w.gold) (pos_part limit) (sort_by (by_start env) latest) (
            All-sort_by (IsNewest w.gold) (by_start env) latest (
              All-map
                (λ r h.
                  StartsFirst-IsNewest w.gold r
                    (All-of_sort_by (StartsFirst r) (by_symbol env) w.gold h))
                latest (distinct_on-StartsFirst rows sorted))),
      )
