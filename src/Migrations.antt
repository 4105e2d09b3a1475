-- ===== src/Migrations.antt =====
-- warehouse/migrations/runner.py: the migrations that a run applies, in which order. The scripts
-- are a parameter: what the SQL of a name does to the database, in its transaction, or `none` where
-- it raises. What `\d` matches beyond ASCII is a parameter too. Logging is left out, and so are
-- files that cannot be read, a history that cannot be read although its table exists, and the text of
-- what the database raises.
pub mod Shipped
pub mod Applying
pub mod Runs
use Prim.Native.Char.{Char, code}
use Prim.Native.String
use cryptopulse.Prelude.{
  ℕ, String, Bool, true, false, not, ◌&&◌, ◌||◌, leb, ◌==◌, str_eq, List, [], ◌∷◌, select, Option,
  none, some, if◌then◌else◌,
}
use cryptopulse.Prelude.Sort.{sort_by}
use cryptopulse.Python.Text.{str_leb, is_empty}
use cryptopulse.Warehouse.World.{Result, ok, err, migration_error}

-- `[a-z0-9_]`
unfoldable pub is_name_char : Char → Bool
is_name_char c = let n = code c in (leb 97 n && leb n 122) || (leb 48 n && leb n 57) || n == 95

-- The rest of `[a-z0-9_]+$` after its first character: `$` also matches before a last line feed.
unfoldable pub matches_rest : String → Bool
unfolding is_name_char
matches_rest String.[] = true
matches_rest (String.◌∷◌ c s) = (is_name_char c && matches_rest s) || (code c == 10 && is_empty s)

abbrev matches_word : String → Bool
matches_word String.[] = false
matches_word (String.◌∷◌ c s) = is_name_char c && matches_rest s

-- `MIGRATION_FILENAME_PATTERN.match(name)`
unfoldable pub matches_pattern : (Char → Bool) → String → Bool
unfolding is_name_char matches_rest
matches_pattern digit (String.◌∷◌ a (String.◌∷◌ b (String.◌∷◌ c (String.◌∷◌ d s)))) =
    digit a && digit b && digit c && code d == 95 && matches_word s
matches_pattern digit _ = false

-- The migrations directory: the stems of its SQL files, in no particular order.
pub record Directory : Type 0 where
  pub exists : Bool
  pub path : String
  pub stems : List String

-- `warehouse.migration_history`, if there is such a table, and the scripts that were committed.
pub record Database : Type 0 where
  pub history : Option (List String)
  pub committed : List String

-- What a script does; `none` if it raises, and then nothing is changed.
abbrev pub Scripts : Type 0
Scripts = String → Database → Option Database

unfoldable pub is_in : String → List String → Bool
is_in name [] = false
is_in name (n ∷ ns) = str_eq n name || is_in name ns

-- `_fetch_applied`
unfoldable pub fetch_applied : Database → List String
fetch_applied db = elim db.history [ none ↦ [] | some names ↦ names ]

-- The first name that breaks the convention.
unfoldable pub find_misnamed : (Char → Bool) → List String → Option String
unfolding matches_pattern
find_misnamed digit [] = none
find_misnamed digit (n ∷ ns) = if matches_pattern digit n then find_misnamed digit ns else some n

unfoldable pub pending_of : List String → Database → List String
unfolding fetch_applied is_in
pending_of names db = select (λ n. not (is_in n (fetch_applied db))) names

abbrev pub not_applied : String → Result (Unit {0})
not_applied name = err (migration_error (String.◌++◌ "failed to apply migration " name) "")

module _ (scripts : Scripts) where
  -- `_apply_one`, for one name after the other.
  unfoldable pub apply_all : List String → Database → Result (Unit {0}) × Database
  apply_all [] db = (ok tt, db)
  apply_all (n ∷ ns) db = elim (scripts n db) [
    | none ↦ (not_applied n, db)
    | some db' ↦ apply_all ns db'
  ]

  abbrev pub returning :
      List String → Result (Unit {0}) × Database → Result (List String) × Database
  returning names (ok u, db) = (ok names, db)
  returning names (err e, db) = (err e, db)

  abbrev apply_named : List String → Option String → Database → Result (List String) × Database
  apply_named names (some name) db =
      (err (migration_error "migration file does not follow the NNN_name.sql convention" name), db)
  apply_named names none db = returning (pending_of names db) (apply_all (pending_of names db) db)

  -- `MigrationRunner.apply_migrations`
  unfoldable pub apply_migrations :
      (Char → Bool) → Directory → Database → Result (List String) × Database
  unfolding apply_all pending_of find_misnamed str_leb
  apply_migrations digit directory db =
      if not directory.exists
      then (err (migration_error "migrations directory not found" directory.path), db)
      else (let names = sort_by str_leb directory.stems in
          apply_named names (find_misnamed digit names) db)
