-- ===== src/Python/Decimal/Digits.antt =====
-- The fuel of the count of digits is enough.
use cryptopulse.Prelude.{
  ℕ, zero, suc, ◌/◌, ◌^◌, ◌≤◌, ◌<◌, ◌≡◌, inl, inr, ◌==◌, false, refl, arith, Bool-cases,
}
use native.Mathlib.Nat.{pow-suc}
use cryptopulse.Python.Decimal.{digits, digits_on}

digits_on-zero : (fuel : ℕ) → digits_on fuel 0 ≡ 0
unfolding digits_on
digits_on-zero zero = refl
digits_on-zero (suc fuel) = refl

digits_on-step :
    (fuel n : ℕ) → (n == 0) ≡ false → digits_on (suc fuel) n ≡ suc (digits_on fuel (n / 10))
unfolding digits_on
digits_on-step fuel n h = rw (digits_on, h) refl

-- Two sides of one step: a digit more stands for a factor of ten.
digits_on-bound : (fuel n : ℕ) → n ≤ fuel → n < 10 ^ digits_on fuel n
digits_on-bound zero n h =
    let none_left : n ≡ 0 = omega (arith, h) in rw (none_left, digits_on-zero 0) (omega arith)
digits_on-bound (suc fuel) n h = elim (Bool-cases (n == 0)) [
  | inl e ↦
      (let none_left : n ≡ 0 = ground arith in
        rw (none_left, digits_on-zero (suc fuel)) (omega arith))
  | inr e ↦
      (let smaller : n / 10 ≤ fuel = ground arith in
        let below : n / 10 < 10 ^ digits_on fuel (n / 10) = digits_on-bound fuel (n / 10) smaller in
        rw (digits_on-step fuel n e) (omega (arith, below, pow-suc 10 (digits_on fuel (n / 10)))))
]

-- With `n` for its fuel the count is large enough for `n`.
pub digits-bound : (n : ℕ) → n < 10 ^ digits n
unfolding digits
digits-bound n = digits_on-bound n n (omega arith)
