-- ===== src/Producer/Preparation/Match/Errors.antt =====
-- What the preparation of a match message raises.
use cryptopulse.Prelude.{
  ◌≡◌, ◌∙◌, refl, inl, inr, String, true, not, str_eq, Option, none, some, Bool-cases, Option-cases,
}
use cryptopulse.Python.Text.{is_empty}
use cryptopulse.Python.Decimal.{Decimal, Number, finite}
use cryptopulse.Python.Decimal.Parse.{parse_decimal}
use cryptopulse.Python.Datetime.{Datetime, is_naive, instant}
use cryptopulse.Python.Value.{Value, Fields, text, object}
use cryptopulse.Warehouse.World.{Error, preparation_error}
use cryptopulse.Producer.Settings.{get, is_hashable}
use cryptopulse.Producer.Raising.{Raises, >>=-Raises, raise_if-Raises}
use cryptopulse.Producer.Preparation.{
  Runtime, require, present, str, to_side, non_empty, with_offset, is_representable, converted,
  parsed_datetime, to_decimal, to_utc_datetime, field_decimal,
}
use cryptopulse.Producer.Preparation.Parts.{to_decimal-eq-ok, require-eq-ok}
use cryptopulse.Producer.Preparation.Match.{is_match, prepare}

abbrev pub IsPreparationError : Error → Type 0
IsPreparationError (preparation_error s) = Unit
IsPreparationError _ = ⊥

-- If the text of the field denotes a number at all, then a finite one.
abbrev pub IsFiniteField : Runtime → Fields → String → Type 0
IsFiniteField runtime raw key =
    (n : Number)
    → parse_decimal runtime.digit (str runtime (get key raw)) ≡ some n
    → (d : Decimal) × (n ≡ finite d)

-- If the field is a text that denotes a time with an offset, then this time is in the years 1 to
-- 9999 also in UTC.
abbrev pub IsTimely : Runtime → Fields → String → Type 0
IsTimely runtime raw key =
    (s : String) (d : Datetime)
    → get key raw ≡ text s
    → runtime.fromisoformat (with_offset s) ≡ some d
    → is_representable (instant d) ≡ true

present-Raises : (key : String) (v : Value) → Raises IsPreparationError (present key v)
present-Raises key Value.null = tt
present-Raises key _ = tt

require-Raises : (raw : Fields) (key : String) → Raises IsPreparationError (require raw key)
unfolding require
require-Raises raw key = present-Raises key (get key raw)

is_match-Raises :
    (raw : Fields) → is_hashable (get "type" raw) ≡ true → Raises IsPreparationError (is_match raw)
unfolding is_match
is_match-Raises raw h = rw h tt

to_side-Raises : (s : String) → Raises IsPreparationError (to_side s)
unfolding to_side
to_side-Raises s = elim (Bool-cases (str_eq s "buy")) [
  | inl b ↦ rw b tt
  | inr b ↦ elim (Bool-cases (str_eq s "sell")) [ inl c ↦ rw b (rw c tt) | inr c ↦ rw b (rw c tt) ]
]

non_empty-Raises : (key : String) (v : Value) → Raises IsPreparationError (non_empty key v)
unfolding non_empty
non_empty-Raises key (text s) = elim (Bool-cases (is_empty s)) [ inl e ↦ rw e tt | inr e ↦ rw e tt ]
non_empty-Raises key _ = tt

field_decimal-Raises :
    (n : Number) → ((d : Decimal) × (n ≡ finite d)) → Raises IsPreparationError (field_decimal n)
unfolding field_decimal
field_decimal-Raises n (d, e) = rw e tt

module _ (runtime : Runtime) where
  converted-Raises :
      (key : String) (o : Option Number) → Raises IsPreparationError (converted runtime key o)
  converted-Raises key none = tt
  converted-Raises key (some n) = tt

  to_decimal-Raises :
      (raw : Fields) (key : String) → Raises IsPreparationError (to_decimal runtime raw key)
  unfolding to_decimal
  to_decimal-Raises raw key =
      >>=-Raises IsPreparationError (require raw key) _ (require-Raises raw key)
        (λ v e. converted-Raises key _)

  parsed_datetime-Raises :
      (key : String) (v : Value)
      → ((s : String) (d : Datetime)
          → v ≡ text s
          → runtime.fromisoformat (with_offset s) ≡ some d
          → is_representable (instant d) ≡ true)
      → Raises IsPreparationError (parsed_datetime runtime key v)
  parsed_datetime-Raises key (text s) reads =
      elim (Option-cases (runtime.fromisoformat (with_offset s))) [
        | inl wrong ↦ rw wrong tt
        | inr (d, e) ↦ rw e (elim (Bool-cases (is_naive d)) [
          | inl n ↦ rw n tt
          | inr n ↦ rw n (rw (reads s d refl e) tt)
        ])
      ]
  parsed_datetime-Raises key _ reads = tt

  to_utc_datetime-Raises :
      (raw : Fields) (key : String)
      → IsTimely runtime raw key
      → Raises IsPreparationError (to_utc_datetime runtime raw key)
  unfolding to_utc_datetime
  to_utc_datetime-Raises raw key reads =
      >>=-Raises IsPreparationError (require raw key) _ (require-Raises raw key)
        (λ v e. parsed_datetime-Raises key v (λ s d is. reads s d (require-eq-ok raw key e ∙ is)))

  -- A payload whose type can be hashed, whose price and size denote no infinity and no NaN, and whose
  -- time, if it denotes one, is also in UTC in the years that a datetime can have, is prepared or
  -- makes a PreparationError.
  pub prepare-Raises :
      (raw : Fields)
      → is_hashable (get "type" raw) ≡ true
      → IsFiniteField runtime raw "price"
      → IsFiniteField runtime raw "size"
      → IsTimely runtime raw "time"
      → Raises IsPreparationError (prepare runtime (object raw))
  unfolding prepare
  prepare-Raises raw hashable price size reads =
      >>=-Raises IsPreparationError (is_match raw) _ (is_match-Raises raw hashable) λ known _.
        raise_if-Raises IsPreparationError (not known) _ _ (λ _. tt)
          (>>=-Raises IsPreparationError (require raw "side") _ (require-Raises raw "side")
            λ raw_side _.
              >>=-Raises IsPreparationError (to_side (str runtime raw_side)) _ (to_side-Raises _)
                λ side _.
                  >>=-Raises IsPreparationError (require raw "product_id") _
                    (require-Raises raw "product_id")
                    λ raw_product _.
                      >>=-Raises IsPreparationError (non_empty "product_id" raw_product) _
                        (non_empty-Raises "product_id" raw_product)
                        λ product _.
                          >>=-Raises IsPreparationError (require raw "trade_id") _
                            (require-Raises raw "trade_id")
                            λ raw_trade _.
                              raise_if-Raises IsPreparationError (is_empty (str runtime raw_trade))
                                _ _ (λ _. tt)
                                (>>=-Raises IsPreparationError (to_utc_datetime runtime raw "time")
                                  _ (to_utc_datetime-Raises raw "time" reads)
                                  λ time _.
                                    >>=-Raises IsPreparationError (to_decimal runtime raw "price") _
                                      (to_decimal-Raises raw "price")
                                      λ n is_n.
                                        >>=-Raises IsPreparationError
                                          (to_decimal runtime raw "size") _
                                          (to_decimal-Raises raw "size")
                                          λ m is_m.
                                            >>=-Raises IsPreparationError (field_decimal n) _
                                              (field_decimal-Raises n (
                                                price n
                                                  (to_decimal-eq-ok runtime raw "price" is_n)))
                                              λ price' _.
                                                >>=-Raises IsPreparationError (field_decimal m) _
                                                  (field_decimal-Raises m (
                                                    size m
                                                      (to_decimal-eq-ok runtime raw "size" is_m)))
                                                  λ size' _. tt))
