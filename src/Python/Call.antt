-- ===== src/Python/Call.antt =====
-- A call that returns or raises, with no state of its own.
use cryptopulse.Prelude.{◌≡◌, refl}
use cryptopulse.Python.Value.{Raised}

pub data Call {ℓ} (A : Type ℓ) : Type ℓ where
  returned : A → Call A
  raised : Raised → Call A

infixl 5 ◌>>=◌
abbrev pub ◌>>=◌ {ℓ κ} : {A : Type ℓ} {B : Type κ} → Call A → (A → Call B) → Call B
returned a >>= f = f a
raised x >>= f = raised x

-- Inversion of a call that returned.
pub >>=-eq-returned {ℓ κ} :
    {A : Type ℓ} {B : Type κ} (m : Call A) (f : A → Call B) {b : B}
    → (m >>= f) ≡ returned b
    → (a : A) × (m ≡ returned a) × (f a ≡ returned b)
>>=-eq-returned (returned a) f h = (a, refl, h)
>>=-eq-returned (raised x) f h = cc

pub returned-injective {ℓ} : {A : Type ℓ} {a b : A} → returned a ≡ returned b → a ≡ b
returned-injective h = cc
