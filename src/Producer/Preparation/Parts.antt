-- ===== src/Producer/Preparation/Parts.antt =====
-- What the conversions return.
use cryptopulse.Prelude.{
  ◌≡◌, refl, ap, ◌∙◌, inl, inr, String, false, str_eq, str_eq_iff, Option, some, arith, Bool-cases,
  Option-cases,
}
use cryptopulse.Python.Text.{is_empty}
use cryptopulse.Python.Decimal.{Decimal, Number, finite}
use cryptopulse.Python.Decimal.Parse.{parse_decimal}
use cryptopulse.Python.Datetime.{Datetime, is_naive, instant, from_instant}
use cryptopulse.Python.Value.{Value, Fields, TradeSide, text, buy, sell, side_value}
use cryptopulse.Warehouse.World.{ok}
use cryptopulse.Producer.Settings.{get}
use cryptopulse.Producer.Raising.{bound}
use cryptopulse.Producer.Preparation.{
  Runtime, require, present, str, to_side, non_empty, to_utc_datetime, to_decimal, field_decimal,
  with_offset, converted, parsed_datetime,
}

present-eq-ok : (key : String) (v w : Value) → present key v ≡ ok w → v ≡ w
present-eq-ok key v w h = ground arith

pub require-eq-ok :
    (raw : Fields) (key : String) {v : Value} → require raw key ≡ ok v → get key raw ≡ v
unfolding require
require-eq-ok raw key h = present-eq-ok key (get key raw) _ h

side_is : (s : String) (a : TradeSide) {t : TradeSide} → to_side s ≡ ok a → to_side s ≡ ok t → a ≡ t
side_is s a h k = cc

pub to_side-eq-ok : (s : String) {t : TradeSide} → to_side s ≡ ok t → s ≡ side_value t
unfolding to_side side_value
to_side-eq-ok s h = elim (Bool-cases (str_eq s "buy")) [
  | inl b ↦ (str_eq_iff s "buy").0 b ∙ ap side_value (side_is s buy (rw (to_side, b) refl) h)
  | inr b ↦ elim (Bool-cases (str_eq s "sell")) [
    | inl c ↦
        (str_eq_iff s "sell").0 c ∙ ap side_value (side_is s sell (rw (to_side, b) (rw c refl)) h)
    | inr c ↦ absurd (ground arith)
  ]
]

pub non_empty-eq-ok :
    (key : String) (v : Value) {s : String}
    → non_empty key v ≡ ok s
    → (v ≡ text s) × (is_empty s ≡ false)
unfolding non_empty
non_empty-eq-ok key v h = ground arith

pub field_decimal-eq-ok : (n : Number) {d : Decimal} → field_decimal n ≡ ok d → n ≡ finite d
unfolding field_decimal
field_decimal-eq-ok n h = ground arith

module _ (runtime : Runtime) where
  converted-eq-ok :
      (key : String) (o : Option Number) {n : Number} → converted runtime key o ≡ ok n → o ≡ some n
  converted-eq-ok key o h = ground arith

  pub to_decimal-eq-ok :
      (raw : Fields) (key : String) {n : Number}
      → to_decimal runtime raw key ≡ ok n
      → parse_decimal runtime.digit (str runtime (get key raw)) ≡ some n
  unfolding to_decimal
  to_decimal-eq-ok raw key h = bound (require raw key) _ h λ v found is.
      ap (λ (x : Value). parse_decimal runtime.digit (str runtime x)) (require-eq-ok raw key found)
      ∙ converted-eq-ok key _ is

  parsed_datetime-eq-ok :
      (key : String) (v : Value) {d : Datetime}
      → parsed_datetime runtime key v ≡ ok d
      → (s : String) × (parsed : Datetime) × (v ≡ text s)
        × (runtime.fromisoformat (with_offset s) ≡ some parsed)
        × (is_naive parsed ≡ false)
        × (d ≡ from_instant (instant parsed))
  parsed_datetime-eq-ok key (text s) h =
      elim (Option-cases (runtime.fromisoformat (with_offset s))) [
        | inl wrong ↦ absurd (ground arith)
        | inr (parsed, e) ↦ (s, parsed, refl, e, ground arith, ground arith)
      ]
  parsed_datetime-eq-ok key _ h = absurd (ground arith)

  pub to_utc_datetime-eq-ok :
      (raw : Fields) (key : String) {d : Datetime}
      → to_utc_datetime runtime raw key ≡ ok d
      → (s : String) × (parsed : Datetime) × (get key raw ≡ text s)
        × (runtime.fromisoformat (with_offset s) ≡ some parsed)
        × (is_naive parsed ≡ false)
        × (d ≡ from_instant (instant parsed))
  unfolding to_utc_datetime
  to_utc_datetime-eq-ok raw key h = bound (require raw key) _ h λ v found is.
      let (s, parsed, value, reads, zone, result) = parsed_datetime-eq-ok key v is in
      (s, parsed, require-eq-ok raw key found ∙ value, reads, zone, result)
