-- ===== src/Migrations/Runs.antt =====
-- What a run of the migrations leaves for the next run.
use mathlib.Core.Path.{subst}
use Prim.Native.Char.{Char}
use cryptopulse.Prelude.{
  ◌≡◌, ◌∙◌, sym, ap, String, Bool, true, false, not, select, List, ◌∷◌, ◌++◌, none,
}
use cryptopulse.Prelude.Sort.{sort_by}
use cryptopulse.Python.Text.{str_leb}
use cryptopulse.Warehouse.World.{Result, Error, ok, err}
use cryptopulse.Migrations.{
  Directory, Database, Scripts, is_in, fetch_applied, find_misnamed, pending_of, not_applied,
  apply_all, apply_migrations,
}
use cryptopulse.Migrations.Applying.{
  RecordsAmong, pending_of-pending_of, apply_all-recorded, NeverRecords, apply_all_keeps,
  apply_all-prefix, apply_migrations-cases, apply_migrations_returned, returning_raised,
  is_in-pending_of,
}

module _ (scripts : Scripts) (digit : Char → Bool) (directory : Directory) (db db' : Database)
    (applied : List String) where
  -- If each script of a run adds to the history its own name, or nothing, then after a run that
  -- returned, the next run of the directory that returns has applied, in their order, exactly those
  -- files of the first that do not record themselves: nothing if all do.
  pub apply_migrations-apply_migrations :
      (own : String → Bool) (applied' : List String) (db'' : Database)
      → RecordsAmong own scripts
      → apply_migrations scripts digit directory db ≡ (ok applied, db')
      → apply_migrations scripts digit directory db' ≡ (ok applied', db'')
      → applied' ≡ select (λ n. not (own n)) applied
  apply_migrations-apply_migrations own applied' db'' among first second =
      let names = sort_by str_leb directory.stems in
      let (_, _, before, ran) =
        apply_migrations_returned scripts digit directory db applied db' first in
      let (_, _, after, _) =
        apply_migrations_returned scripts digit directory db' applied' db'' second in
      let history = λ (m : String).
        ap (λ (r : Result (Unit {0}) × Database). is_in m (fetch_applied r.1)) (sym ran)
        ∙ apply_all-recorded scripts own among (pending_of names db) db
            (ap (λ (r : Result (Unit {0}) × Database). r.0) ran) m in
      after
      ∙ pending_of-pending_of own names db db' history
      ∙ ap (λ (l : List String). select (λ n. not (own n)) l) (sym before)

  never_recorded :
      (name : String)
      → NeverRecords scripts name
      → is_in name (fetch_applied db) ≡ false
      → apply_migrations scripts digit directory db ≡ (ok applied, db')
      → is_in name (fetch_applied db') ≡ false
  never_recorded name never new h =
      let (there, named, _, ran) =
        apply_migrations_returned scripts digit directory db applied db' h in
      subst (λ (r : Result (Unit {0}) × Database). is_in name (fetch_applied r.1) ≡ false) ran
        (apply_all_keeps scripts (λ d. is_in name (fetch_applied d) ≡ false)
          (λ n d d' s. never n d d' s) (pending_of (sort_by str_leb directory.stems) db) db new)

  -- If no script of a run writes a file's name into the history, and it is not there, then the run
  -- returns the name among those that it applied, and so does the run after it: a file that does
  -- not record itself is applied again each time.
  pub apply_migrations_again :
      (name : String) (applied' : List String) (db'' : Database)
      → NeverRecords scripts name
      → is_in name (fetch_applied db) ≡ false
      → is_in name (sort_by str_leb directory.stems) ≡ true
      → apply_migrations scripts digit directory db ≡ (ok applied, db')
      → apply_migrations scripts digit directory db' ≡ (ok applied', db'')
      → (is_in name applied ≡ true) × (is_in name applied' ≡ true)
  apply_migrations_again name applied' db'' never new file first second =
      let (_, _, before, _) =
        apply_migrations_returned scripts digit directory db applied db' first in
      let (_, _, after, _) =
        apply_migrations_returned scripts digit directory db' applied' db'' second in
      let names = sort_by str_leb directory.stems in
      (
        subst (λ (l : List String). is_in name l ≡ true) (sym before)
            (is_in-pending_of name names db new file),
        subst (λ (l : List String). is_in name l ≡ true) (sym after)
            (is_in-pending_of name names db' (never_recorded name never new first) file),
      )

  -- A run that raises because of a script has committed the scripts before it, in the order of the
  -- names, and nothing else: the same run of the shorter list would have returned with the database
  -- that this one leaves.
  pub apply_migrations-prefix :
      (e : Error)
      → directory.exists ≡ true
      → find_misnamed digit (sort_by str_leb directory.stems) ≡ none
      → apply_migrations scripts digit directory db ≡ (err e, db')
      → (begun : List String) × (n : String) × (rest : List String) × (pending_of
            (sort_by str_leb directory.stems)
            db
          ≡ begun ++ n ∷ rest)
        × (apply_all scripts begun db ≡ (ok tt, db'))
        × (scripts n db' ≡ none)
        × (err e ≡ not_applied n)
  apply_migrations-prefix e there named h =
      let names = sort_by str_leb directory.stems in
      let ns = pending_of names db in
      let cases = apply_migrations-cases scripts digit directory db there named in
      let raised : ((apply_all scripts ns db).0 ≡ err e) × ((apply_all scripts ns db).1 ≡ db') =
        returning_raised scripts ns (apply_all scripts ns db) e db' (sym cases ∙ h) in
      let (begun, n, rest, split, ran, none_left, is) = apply_all-prefix scripts ns db e raised.0 in
      (begun, n, rest, split, cc, cc, is)
