-- ===== src/Migrations/Applying.antt =====
-- What the scripts of one run do to the database, and which names they leave pending.
use mathlib.Core.Path.{subst}
use Prim.Native.Char.{Char}
use cryptopulse.Prelude.{
  ◌≡◌, ◌∙◌, sym, ap, refl, inl, inr, String, Bool, true, false, str_eq, str_eq_iff, List, [], ◌∷◌,
  ◌++◌, none, some, arith, All, All-map, Bool-cases, Option-cases, ◌||◌, ◌&&◌, not, select,
}
use cryptopulse.Prelude.Sort.{sort_by}
use cryptopulse.Python.Text.{str_leb}
use cryptopulse.Warehouse.World.{Result, Error, ok, err}
use cryptopulse.Migrations.{
  Directory, Database, Scripts, is_in, fetch_applied, find_misnamed, pending_of, not_applied,
  apply_all, returning, apply_migrations,
}

-- A script adds its own name to the history if it is among those that do, and nothing else.
abbrev pub RecordsAmong : (String → Bool) → Scripts → Type 0
RecordsAmong own scripts =
    (n : String) (db db' : Database)
    → scripts n db ≡ some db'
    → (m : String)
    → is_in m (fetch_applied db') ≡ (is_in m (fetch_applied db) || (own n && str_eq n m))

-- No script writes the name into the history.
abbrev pub NeverRecords : Scripts → String → Type 0
NeverRecords scripts name =
    (n : String) (db db' : Database)
    → scripts n db ≡ some db'
    → is_in name (fetch_applied db) ≡ false
    → is_in name (fetch_applied db') ≡ false

with_first :
    (old own_n own_m first rest : Bool)
    → (first ≡ true → own_n ≡ own_m)
    → ((old || (own_n && first)) || (own_m && rest)) ≡ (old || (own_m && (first || rest)))
with_first old own_n own_m first rest same = ground arith

module _ (scripts : Scripts) where
  apply_all-step :
      (n : String) (ns : List String) (db db' : Database)
      → scripts n db ≡ some db'
      → apply_all scripts (n ∷ ns) db ≡ apply_all scripts ns db'
  unfolding apply_all
  apply_all-step n ns db db' h = rw (apply_all, h) refl

  apply_all_raised :
      (n : String) (ns : List String) (db : Database)
      → scripts n db ≡ none
      → apply_all scripts (n ∷ ns) db ≡ (not_applied n, db)
  unfolding apply_all
  apply_all_raised n ns db h = rw (apply_all, h) refl

  -- What every script keeps, a run keeps.
  pub apply_all_keeps :
      (P : Database → Type 0)
      → ((n : String) (db db' : Database) → scripts n db ≡ some db' → P db → P db')
      → (ns : List String) (db : Database) → P db
      → P (apply_all scripts ns db).1
  unfolding apply_all
  apply_all_keeps P keep [] db p = p
  apply_all_keeps P keep (n ∷ ns) db p = elim (Option-cases (scripts n db)) [
    | inl raises ↦
        subst (λ (r : Result (Unit {0}) × Database). P r.1) (sym (apply_all_raised n ns db raises))
          p
    | inr (db', h) ↦
        subst (λ (r : Result (Unit {0}) × Database). P r.1) (sym (apply_all-step n ns db db' h))
          (apply_all_keeps P keep ns db' (keep n db db' h p))
  ]

  -- After a run that ends, the history has the names of before, and of those that it ran the ones
  -- that record themselves.
  pub apply_all-recorded :
      (own : String → Bool)
      → RecordsAmong own scripts
      → (ns : List String) (db : Database) → (apply_all scripts ns db).0 ≡ ok tt
      → (m : String)
      → is_in m (fetch_applied (apply_all scripts ns db).1)
        ≡ (is_in m (fetch_applied db) || (own m && is_in m ns))
  unfolding apply_all is_in
  apply_all-recorded own among [] db h m = ground arith
  apply_all-recorded own among (n ∷ ns) db h m = elim (Option-cases (scripts n db)) [
    | inl raises ↦ absurd (ground (arith, apply_all_raised n ns db raises))
    | inr (db', e) ↦
        let step = apply_all-step n ns db db' e in
        let ended : (apply_all scripts ns db').0 ≡ ok tt =
          ap (λ (r : Result (Unit {0}) × Database). r.0) (sym step) ∙ h in
        let rest = apply_all-recorded own among ns db' ended m in
        let one = among n db db' e m in
        let same : str_eq n m ≡ true → own n ≡ own m = λ k. ap own ((str_eq_iff n m).0 k) in
        ap (λ (r : Result (Unit {0}) × Database). is_in m (fetch_applied r.1)) step
        ∙ rest
        ∙ ap (λ (x : Bool). x || (own m && is_in m ns)) one
        ∙ with_first (is_in m (fetch_applied db)) (own n) (own m) (str_eq n m) (is_in m ns) same
  ]

  pub apply_all-nil : (db : Database) → apply_all scripts [] db ≡ (ok tt, db)
  unfolding apply_all
  apply_all-nil db = refl

  -- A run that does not end has done the start of the list, and raised at the next name.
  pub apply_all-prefix :
      (ns : List String) (db : Database) (e : Error)
      → (apply_all scripts ns db).0 ≡ err e
      → (begun : List String) × (n : String) × (rest : List String) × (ns ≡ begun ++ n ∷ rest)
        × (apply_all scripts begun db ≡ (ok tt, (apply_all scripts ns db).1))
        × (scripts n (apply_all scripts ns db).1 ≡ none)
        × (err e ≡ not_applied n)
  apply_all-prefix [] db e h = absurd (ground (arith, apply_all-nil db))
  apply_all-prefix (n ∷ ns) db e h = elim (Option-cases (scripts n db)) [
    | inl raises ↦
        let q = apply_all_raised n ns db raises in ([], n, ns, refl, cc (apply_all-nil db), cc, cc)
    | inr (db', s) ↦
        let q = apply_all-step n ns db db' s in
        let (begun, m, rest, split, ran, raised, is) = apply_all-prefix ns db' e (cc) in
        (
          n ∷ begun,
          m,
          rest,
          ap (λ (l : List String). n ∷ l) split,
          cc (apply_all-step n begun db db' s),
          cc,
          is,
        )
  ]

  module _ (digit : Char → Bool) (directory : Directory) (db : Database) where
    abbrev names : List String
    names = sort_by str_leb directory.stems

    -- What a run that found its files well named did.
    pub apply_migrations-cases :
        (there : directory.exists ≡ true)
        → (named : find_misnamed digit names ≡ none)
        → apply_migrations scripts digit directory db
          ≡ returning scripts (pending_of names db) (apply_all scripts (pending_of names db) db)
    unfolding apply_migrations
    apply_migrations-cases there named = rw (there, named) refl

    pub apply_migrations_returned :
        (applied : List String) (db' : Database)
        → apply_migrations scripts digit directory db ≡ (ok applied, db')
        → (directory.exists ≡ true)
          × (find_misnamed digit names ≡ none)
          × (applied ≡ pending_of names db)
          × (apply_all scripts (pending_of names db) db ≡ (ok tt, db'))
    unfolding apply_migrations
    apply_migrations_returned applied db' h = ground arith

pub returning_raised :
    (scripts : Scripts) (ns : List String) (r : Result (Unit {0}) × Database) (e : Error)
    (db' : Database)
    → returning scripts ns r ≡ (err e, db')
    → (r.0 ≡ err e) × (r.1 ≡ db')
returning_raised scripts ns (ok u, d) e db' h = absurd (ground arith)
returning_raised scripts ns (err x, d) e db' h = ground arith

pub is_in-pending_of :
    (name : String) (names : List String) (db : Database)
    → is_in name (fetch_applied db) ≡ false
    → is_in name names ≡ true
    → is_in name (pending_of names db) ≡ true
unfolding pending_of is_in
is_in-pending_of name [] db new file = file
is_in-pending_of name (n ∷ ns) db new file = elim (Bool-cases (is_in n (fetch_applied db))) [
  | inl old ↦ elim (Bool-cases (str_eq n name)) [
    | inl e ↦ absurd (ground (arith, (str_eq_iff n name).0 e))
    | inr e ↦ rw old (is_in-pending_of name ns db new (rw e at file))
  ]
  | inr e ↦ elim (Bool-cases (str_eq n name)) [
    | inl same ↦ rw e (rw same refl)
    | inr other ↦ rw e (rw other (is_in-pending_of name ns db new (rw other at file)))
  ]
]

All-is_in-tail :
    (n : String) (ns ms : List String)
    → All (λ m. is_in m ns ≡ true) ms
    → All (λ m. is_in m (n ∷ ns) ≡ true) ms
unfolding is_in
All-is_in-tail n ns ms h = All-map (λ m e. ground arith) ms h

All-is_in : (ns : List String) → All (λ n. is_in n ns ≡ true) ns
unfolding is_in
All-is_in [] = tt
All-is_in (n ∷ ns) = (rw ((str_eq_iff n n).1 refl) refl, All-is_in-tail n ns ns (All-is_in ns))

-- What is pending after a run: of the names that it applied, those that do not record themselves.
module _ (own : String → Bool) (names : List String) (db db' : Database)
    (now : (m : String)
      → is_in m (fetch_applied db')
        ≡ (is_in m (fetch_applied db) || (own m && is_in m (pending_of names db)))) where
  still_pending :
      (ms : List String)
      → All (λ m. is_in m names ≡ true) ms
      → pending_of ms db' ≡ select (λ m. not (own m)) (pending_of ms db)
  unfolding pending_of
  still_pending [] h = refl
  still_pending (m ∷ ms) h =
      let rest = still_pending ms h.1 in
      let history = now m in
      elim (Bool-cases (is_in m (fetch_applied db))) [
        | inl old ↦
            let still : is_in m (fetch_applied db') ≡ true = ground arith in rw old (rw still rest)
        | inr new ↦
            let ran = is_in-pending_of m names db new h.0 in
            elim (Bool-cases (own m)) [
              | inl own_m ↦
                  let recorded : is_in m (fetch_applied db') ≡ true = ground arith in
                  rw new (rw own_m (rw recorded rest))
              | inr other ↦
                  let left : is_in m (fetch_applied db') ≡ false = ground arith in
                  rw new (rw other (rw left (ap (λ (l : List String). m ∷ l) rest)))
            ]
      ]

  pub pending_of-pending_of : pending_of names db' ≡ select (λ m. not (own m)) (pending_of names db)
  pending_of-pending_of = still_pending names (All-is_in names)
