-- ===== src/Python/Decimal.antt =====
-- Python's `decimal`: numbers, comparison, and the operations of the default context.
pub mod Digits
pub mod Parse
use cryptopulse.Prelude.{
  ℕ, zero, suc, ◌+◌, ◌-◌, ◌*◌, ◌/◌, ◌%◌, ◌^◌, Bool, true, false, ◌||◌, ◌&&◌, ltb, leb, ◌==◌,
  if◌then◌else◌, Option, none, some,
}
use cryptopulse.Prelude.Int.{ℤ, pos, negsuc, pos_part, neg_part, ◌+ℤ◌, ◌-ℤ◌, leb_ℤ, ltb_ℤ}

-- (-1) ^ negative * coefficient * 10 ^ exponent
pub record Decimal : Type 0 where
  pub negative : Bool
  pub coefficient : ℕ
  pub exponent : ℤ

-- A value of the class: a finite one, or an infinity, or a NaN.
pub data Number : Type 0 where
  finite : Decimal → Number
  infinity : Bool → Number
  nan : Number

-- The value is (positive - negated) / divisor.
abbrev pub magnitude : Decimal → ℕ
magnitude d = d.coefficient * 10 ^ pos_part d.exponent

abbrev pub positive : Decimal → ℕ
positive d = if d.negative then 0 else magnitude d

abbrev pub negated : Decimal → ℕ
negated d = if d.negative then magnitude d else 0

abbrev pub divisor : Decimal → ℕ
divisor d = 10 ^ neg_part d.exponent

-- `a <= b` of two finite values
unfoldable pub le_decimal : Decimal → Decimal → Bool
le_decimal a b =
    leb (positive a * divisor b + negated b * divisor a)
      (positive b * divisor a + negated a * divisor b)

-- `d <= 0`
unfoldable pub is_non_positive : Decimal → Bool
is_non_positive d = d.negative || d.coefficient == 0

abbrev pub of_ℕ : ℕ → Decimal
of_ℕ n = record { negative = false; coefficient = n; exponent = pos 0 }

-- The number of decimal digits; none for 0. The fuel bounds the number of digits.
digits_on : ℕ → ℕ → ℕ
digits_on zero n = 0
digits_on (suc fuel) n = elim (n == 0) [ true ↦ 0 | false ↦ suc (digits_on fuel (n / 10)) ]

unfoldable pub digits : ℕ → ℕ
unfolding digits_on
digits n = digits_on n n

-- The default context: 28 digits, ROUND_HALF_EVEN.
abbrev pub precision : ℕ
precision = 28

-- Drop the last `k` digits of a coefficient.
abbrev half_even : ℕ → ℕ → ℕ
half_even c k =
    let q = c / 10 ^ k in
    let r = c % 10 ^ k in
    if ltb (10 ^ k) (2 * r) || (2 * r == 10 ^ k && q % 2 == 1) then q + 1 else q

abbrev half_up : ℕ → ℕ → ℕ
half_up c k = if leb (10 ^ k) (2 * (c % 10 ^ k)) then c / 10 ^ k + 1 else c / 10 ^ k

-- A coefficient rounded up to one digit more is a power of ten, and loses a zero.
abbrev carry : Decimal → Decimal
carry d =
    if ltb precision (digits d.coefficient)
    then record d { coefficient = d.coefficient / 10; exponent = d.exponent +ℤ pos 1 }
    else d

-- What an operation does to its exact result.
unfoldable pub round : Decimal → Decimal
unfolding digits ◌+ℤ◌
round d =
    let k = digits d.coefficient - precision in
    if k == 0
    then d
    else carry
        (record d { coefficient = half_even d.coefficient k; exponent = d.exponent +ℤ pos k })

-- The coefficient at the smaller exponent `e`.
abbrev aligned : Decimal → ℤ → ℕ
aligned d e = d.coefficient * 10 ^ pos_part (d.exponent -ℤ e)

abbrev signed_sum : Bool → ℕ → Bool → ℕ → ℤ → Decimal
signed_sum s a t b e = elim s [
  | true ↦ elim t [
    | true ↦ record { negative = true; coefficient = a + b; exponent = e }
    | false ↦ record {
      negative = ltb b a;
      coefficient = if ltb b a then a - b else b - a;
      exponent = e;
    }
  ]
  | false ↦ elim t [
    | true ↦ record {
      negative = ltb a b;
      coefficient = if ltb a b then b - a else a - b;
      exponent = e;
    }
    | false ↦ record { negative = false; coefficient = a + b; exponent = e }
  ]
]

-- `a + b`
unfoldable pub add : Decimal → Decimal → Decimal
unfolding round ◌-ℤ◌
add a b =
    let e = if leb_ℤ a.exponent b.exponent then a.exponent else b.exponent in
    round (signed_sum a.negative (aligned a e) b.negative (aligned b e) e)

abbrev xor : Bool → Bool → Bool
xor true b = if b then false else true
xor false b = b

-- `a * b`
unfoldable pub mul : Decimal → Decimal → Decimal
unfolding round
mul a b = round (record {
  negative = xor a.negative b.negative;
  coefficient = a.coefficient * b.coefficient;
  exponent = a.exponent +ℤ b.exponent;
})

-- Exact quotients lose trailing zeros until the exponent is `ideal`; the fuel bounds the zeros.
strip_zeros : ℕ → ℕ → ℤ → ℤ → ℕ × ℤ
strip_zeros zero c e ideal = (c, e)
strip_zeros (suc fuel) c e ideal =
    let rest = strip_zeros fuel (c / 10) (e +ℤ pos 1) ideal in
    if ltb_ℤ e ideal && c % 10 == 0 then rest else (c, e)

-- An inexact quotient that ends in 0 or 5 gets a sticky last digit, so that it rounds right.
abbrev sticky : ℕ → ℕ
sticky c = if c % 5 == 0 then c + 1 else c

abbrev quotient : Bool → ℕ → ℕ → ℤ → ℤ → Decimal
quotient s n d e ideal =
    if n % d == 0
    then (let (c, e') = strip_zeros (digits (n / d)) (n / d) e ideal in
        record { negative = s; coefficient = c; exponent = e' })
    else record { negative = s; coefficient = sticky (n / d); exponent = e }

-- `a / b` for b ≢ 0
unfoldable pub div : Decimal → Decimal → Decimal
unfolding round strip_zeros
div a b =
    let s = xor a.negative b.negative in
    let ideal = a.exponent -ℤ b.exponent in
    let la = digits a.coefficient in
    let lb = digits b.coefficient in
    if a.coefficient == 0
    then record { negative = s; coefficient = 0; exponent = ideal }
    else if leb la (lb + precision + 1)
    then (let shift = lb + precision + 1 - la in
        round (quotient s (a.coefficient * 10 ^ shift) b.coefficient (ideal -ℤ pos shift) ideal))
    else (let shift = la - (lb + precision + 1) in
        round (quotient s a.coefficient (b.coefficient * 10 ^ shift) (ideal +ℤ pos shift) ideal))

-- `d.quantize(Decimal(1).scaleb(-scale), rounding=ROUND_HALF_UP)`; `none` is InvalidOperation,
-- raised where the result has more digits than the context allows.
unfoldable pub quantize : Decimal → ℕ → Option Decimal
unfolding digits ◌+ℤ◌
quantize d scale =
    let shift = d.exponent +ℤ pos scale in
    let c : ℕ = elim shift [
      | pos up ↦ d.coefficient * 10 ^ up
      | negsuc k ↦ half_up d.coefficient (suc k)
    ] in
    if ltb precision (digits c)
    then none
    else some (record { negative = d.negative; coefficient = c; exponent = pos 0 -ℤ pos scale })
