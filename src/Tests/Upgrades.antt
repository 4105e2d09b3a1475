-- ===== src/Tests/Upgrades.antt =====
-- The theorems on migrations at concrete inputs.
use cryptopulse.Prelude.{
  ◌≡◌, refl, sym, ap, ◌∙◌, inl, inr, String, Bool, true, false, ◌||◌, str_eq, str_eq_iff, List, [],
  ◌∷◌, ◌++◌, none, some, if◌then◌else◌, leb, ◌&&◌, not, select, Bool-cases, arith,
}
use mathlib.Core.Path.{subst}
use Prim.Native.Char.{Char, code}
use cryptopulse.Prelude.Sort.{sort_by}
use cryptopulse.Python.Text.{str_leb}
use cryptopulse.Warehouse.World.{ok, migration_error}
use cryptopulse.Migrations.{
  Directory, Database, Scripts, is_in, fetch_applied, pending_of, apply_all, apply_migrations,
  not_applied,
}
use cryptopulse.Migrations.Shipped.{first_name, shipped, shipped_directory}
use cryptopulse.Migrations.Runs.{
  apply_migrations-apply_migrations, apply_migrations_again, apply_migrations-prefix,
}
use cryptopulse.Migrations.Applying.{RecordsAmong, NeverRecords}

abbrev pub ascii_digit : Char → Bool
ascii_digit c = leb 48 (code c) && leb (code c) 57

abbrev pub fresh : Database
fresh = record { history = none; committed = [] }

-- The shipped scripts on a fresh database: the first run applies all four, the second applies three
-- of them again.
first_run :
    (apply_migrations shipped ascii_digit shipped_directory fresh).0
    ≡ ok (
        first_name ∷ "002_create_silver_events" ∷ "003_create_quarantine_events"
        ∷ "004_create_gold_market_windows" ∷ [])
unfolding apply_migrations shipped
first_run = refl

abbrev after_first : Database
unfolding apply_migrations shipped
after_first = (apply_migrations shipped ascii_digit shipped_directory fresh).1

second_run :
    (apply_migrations shipped ascii_digit shipped_directory after_first).0
    ≡ ok (
        "002_create_silver_events" ∷ "003_create_quarantine_events"
        ∷ "004_create_gold_market_windows" ∷ [])
unfolding apply_migrations shipped after_first
second_run = refl

-- Scripts that write their own names.
abbrev pub recording : Scripts
unfolding fetch_applied
recording name db =
    some
      (record { history = some (name ∷ fetch_applied db); committed = db.committed ++ name ∷ [] })

some-injective : {A : Type 0} {a b : A} → some a ≡ some b → a ≡ b
some-injective h = cc

abbrev recorded : Database
unfolding recording fetch_applied
recorded = record { history = some ("001_a" ∷ []); committed = "001_a" ∷ [] }

abbrev pub one_file : Directory
one_file = record { exists = true; path = "sql"; stems = "001_a" ∷ [] }

abbrev first_only : String → Bool
first_only n = str_eq n first_name

is_in-one_more :
    (m n : String) (names : List String) → is_in m (names ++ n ∷ []) ≡ (is_in m names || str_eq n m)
unfolding is_in
is_in-one_more m n [] = ground arith
is_in-one_more m n (x ∷ xs) = ground (arith, is_in-one_more m n xs)

is_in_same :
    (m n : String) (names : List String)
    → is_in n names ≡ true
    → is_in m names ≡ (is_in m names || str_eq n m)
is_in_same m n names h = elim (Bool-cases (str_eq n m)) [
  | inl e ↦ let same = (str_eq_iff n m).0 e in let old : is_in m names ≡ true = cc in ground arith
  | inr e ↦ ground arith
]

is_in-recorded :
    (m n : String) (names : List String)
    → is_in m (if is_in n names then names else names ++ n ∷ []) ≡ (is_in m names || str_eq n m)
is_in-recorded m n names = elim (Bool-cases (is_in n names)) [
  | inl old ↦ rw old (is_in_same m n names old)
  | inr new ↦ rw new (is_in-one_more m n names)
]

shipped-RecordsAmong : RecordsAmong first_only shipped
unfolding shipped
shipped-RecordsAmong n db db' h m = elim (Bool-cases (str_eq n first_name)) [
  | inl e ↦
      let names =
        if is_in n (fetch_applied db) then fetch_applied db else fetch_applied db ++ n ∷ [] in
      let is : shipped n db
          ≡ some (record { history = some names; committed = db.committed ++ n ∷ [] }) =
        rw e refl in
      subst
        (λ (d : Database).
          is_in m (fetch_applied d) ≡ (is_in m (fetch_applied db) || (first_only n && str_eq n m)))
        (some-injective (sym is ∙ h))
        (rw e (unfold fetch_applied in is_in-recorded m n (fetch_applied db)))
  | inr e ↦
      let is : shipped n db ≡ some (record db { committed = db.committed ++ n ∷ [] }) = rw e refl in
      subst
        (λ (d : Database).
          is_in m (fetch_applied d) ≡ (is_in m (fetch_applied db) || (first_only n && str_eq n m)))
        (some-injective (sym is ∙ h)) (rw e (unfold fetch_applied in ground arith))
]

apply_migrations-apply_migrations_example :
    "002_create_silver_events" ∷ "003_create_quarantine_events" ∷ "004_create_gold_market_windows"
      ∷ []
    ≡ select
        (λ n. not (first_only n))
        (first_name ∷ "002_create_silver_events" ∷ "003_create_quarantine_events"
          ∷ "004_create_gold_market_windows" ∷ [])
unfolding apply_migrations shipped after_first
apply_migrations-apply_migrations_example =
    apply_migrations-apply_migrations shipped ascii_digit shipped_directory fresh after_first
      (first_name ∷ "002_create_silver_events" ∷ "003_create_quarantine_events"
        ∷ "004_create_gold_market_windows" ∷ [])
      first_only
      ("002_create_silver_events" ∷ "003_create_quarantine_events"
        ∷ "004_create_gold_market_windows" ∷ [])
      (apply_migrations shipped ascii_digit shipped_directory after_first).1 shipped-RecordsAmong
      refl refl

abbrev second_name : String
second_name = "002_create_silver_events"

is_in-last :
    (name last : String) (names : List String)
    → str_eq last name ≡ false
    → is_in name names ≡ false
    → is_in name (names ++ last ∷ []) ≡ false
unfolding is_in
is_in-last name last [] other new = rw other refl
is_in-last name last (n ∷ ns) other new = ground (arith, is_in-last name last ns other)

still_new :
    (n : String) (names : List String) (b : Bool)
    → str_eq n second_name ≡ false
    → is_in second_name names ≡ false
    → is_in second_name (if b then names else names ++ n ∷ []) ≡ false
still_new n names true other new = new
still_new n names false other new = is_in-last second_name n names other new

shipped-NeverRecords : NeverRecords shipped second_name
unfolding shipped is_in fetch_applied
shipped-NeverRecords n db db' h new = elim (Bool-cases (str_eq n first_name)) [
  | inl e ↦
      let names =
        if is_in n (fetch_applied db) then fetch_applied db else fetch_applied db ++ n ∷ [] in
      let is : shipped n db
          ≡ some (record { history = some names; committed = db.committed ++ n ∷ [] }) =
        rw e refl in
      let other : str_eq n second_name ≡ false =
        ap (λ (s : String). str_eq s second_name) ((str_eq_iff n first_name).0 e) in
      subst (λ (d : Database). is_in second_name (fetch_applied d) ≡ false)
        (some-injective (sym is ∙ h))
        (still_new n (fetch_applied db) (is_in n (fetch_applied db)) other new)
  | inr e ↦
      let is : shipped n db ≡ some (record db { committed = db.committed ++ n ∷ [] }) = rw e refl in
      subst (λ (d : Database). is_in second_name (fetch_applied d) ≡ false)
        (some-injective (sym is ∙ h)) new
]

after_second : Database
unfolding apply_migrations shipped after_first
after_second = (apply_migrations shipped ascii_digit shipped_directory after_first).1

apply_migrations_again_example :
    (is_in second_name (
        first_name ∷ second_name ∷ "003_create_quarantine_events" ∷ "004_create_gold_market_windows"
        ∷ [])
      ≡ true)
    × (is_in second_name
          (second_name ∷ "003_create_quarantine_events" ∷ "004_create_gold_market_windows" ∷ [])
        ≡ true)
unfolding apply_migrations shipped after_first after_second is_in
apply_migrations_again_example =
    apply_migrations_again shipped ascii_digit shipped_directory fresh after_first
      (first_name ∷ second_name ∷ "003_create_quarantine_events" ∷ "004_create_gold_market_windows"
        ∷ [])
      second_name
      (second_name ∷ "003_create_quarantine_events" ∷ "004_create_gold_market_windows" ∷ [])
      after_second shipped-NeverRecords refl refl refl refl

-- Scripts of which the second fails.
abbrev failing : Scripts
unfolding fetch_applied
failing name db = if str_eq name "002_b" then none else recording name db

abbrev two_files : Directory
two_files = record { exists = true; path = "sql"; stems = "002_b" ∷ "001_a" ∷ [] }

apply_migrations-prefix_example :
    (begun : List String) × (n : String) × (rest : List String) × (pending_of
        (sort_by str_leb two_files.stems)
        fresh
      ≡ begun ++ n ∷ rest)
    × (apply_all failing begun fresh ≡ (ok tt, recorded))
    × (failing n recorded ≡ none)
    × (not_applied "002_b" ≡ not_applied n)
unfolding apply_migrations failing recording recorded fetch_applied
apply_migrations-prefix_example =
    apply_migrations-prefix failing ascii_digit two_files fresh recorded []
      (migration_error "failed to apply migration 002_b" "") refl refl refl
