-- ===== src/Python/Text/Printing.antt =====
-- The fuel of the printing of numbers is enough.
use cryptopulse.Prelude.{
  ℕ, zero, suc, ◌/◌, ◌%◌, ◌≤◌, ◌≡◌, ◌∙◌, sym, refl, inl, inr, ◌==◌, String, false, arith,
  Bool-cases,
}
use cryptopulse.Python.Text.{digit, digits_before}
use Prim.Native.String

digits_before-zero : (fuel : ℕ) (acc : String) → digits_before fuel 0 acc ≡ acc
unfolding digits_before
digits_before-zero zero acc = refl
digits_before-zero (suc fuel) acc = refl

digits_before-step :
    (fuel n : ℕ) (acc : String)
    → (n == 0) ≡ false
    → digits_before (suc fuel) n acc
      ≡ digits_before fuel (n / 10) (String.◌++◌ (digit (n % 10)) acc)
unfolding digits_before
digits_before-step fuel n acc h = rw (digits_before, h) refl

abbrev Agrees : ℕ → ℕ → Type 0
Agrees f g = (n : ℕ) (acc : String) → n ≤ f → n ≤ g → digits_before f n acc ≡ digits_before g n acc

Agrees-suc : (f g : ℕ) → Agrees f g → Agrees (suc f) (suc g)
Agrees-suc f g same n acc h k = elim (Bool-cases (n == 0)) [
  | inl e ↦
      (let none_left : n ≡ 0 = ground arith in
        rw none_left (digits_before-zero (suc f) acc ∙ sym (digits_before-zero (suc g) acc)))
  | inr e ↦
      digits_before-step f n acc e
      ∙ same (n / 10) (String.◌++◌ (digit (n % 10)) acc) (ground arith) (ground arith)
      ∙ sym (digits_before-step g n acc e)
]

-- Every fuel that is at least the number prints the same digits.
digits_before-enough : (f g : ℕ) → Agrees f g
digits_before-enough zero g n acc h k =
    let none_left : n ≡ 0 = omega (arith, h) in
    rw none_left (digits_before-zero 0 acc ∙ sym (digits_before-zero g acc))
digits_before-enough (suc f) zero n acc h k =
    let none_left : n ≡ 0 = omega (arith, k) in
    rw none_left (digits_before-zero (suc f) acc ∙ sym (digits_before-zero 0 acc))
digits_before-enough (suc f) (suc g) n acc h k = Agrees-suc f g (digits_before-enough f g) n acc h k
