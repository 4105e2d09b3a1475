-- ===== src/Producer/Raising.antt =====
-- A call of the producer's code that returns or raises, with no state of its own.
use cryptopulse.Prelude.{◌≡◌, refl, Bool, true, false, arith}
use cryptopulse.Warehouse.World.{Error, Result, ok, err}

-- What comes after a call, which an exception skips.
abbrev pub unless_raised {κ ℓ} : {X : Type κ} {Y : Type ℓ} → (X → Result Y) → Result X → Result Y
unless_raised next (err x) = err x
unless_raised next (ok value) = next value

infixl 5 ◌>>=◌ ◌>>◌
abbrev pub ◌>>=◌ {κ ℓ} : {X : Type κ} {Y : Type ℓ} → Result X → (X → Result Y) → Result Y
call >>= next = unless_raised next call

abbrev pub ◌>>◌ {ℓ} : {Y : Type ℓ} → Result (Unit {0}) → Result Y → Result Y
call >> next = unless_raised (λ _. next) call

-- `if test: raise x`
abbrev pub raise_if : Bool → Error → Result (Unit {0})
raise_if test x = elim test [ false ↦ ok tt | true ↦ err x ]

-- What a chain that returned tells of its first call, for the user who goes on with it.
pub bound {κ ℓ μ} :
    {X : Type κ} {Y : Type ℓ} {Z : Type μ} (call : Result X) (next : X → Result Y) {y : Y}
    → (call >>= next) ≡ ok y
    → ((x : X) → call ≡ ok x → next x ≡ ok y → Z)
    → Z
bound (err x) next h user = absurd (ground arith)
bound (ok value) next h user = user value refl h

pub passed {ℓ μ} :
    {Y : Type ℓ} {Z : Type μ} (test : Bool) (x : Error) (next : Result Y) {y : Y}
    → (raise_if test x >> next) ≡ ok y
    → (test ≡ false → next ≡ ok y → Z)
    → Z
passed true x next h user = absurd (ground arith)
passed false x next h user = user refl h

-- Whatever error the call raises has the property.
abbrev pub Raises {ℓ κ} : {X : Type ℓ} → (Error → Type κ) → Result X → Type κ
Raises P (ok value) = Unit
Raises P (err x) = P x

pub >>=-Raises {ℓ κ} :
    {X Y : Type ℓ} (P : Error → Type κ) (call : Result X) (next : X → Result Y)
    → Raises P call
    → ((x : X) → call ≡ ok x → Raises P (next x))
    → Raises P (call >>= next)
>>=-Raises P (ok value) next h k = k value refl
>>=-Raises P (err x) next h k = h

pub raise_if-Raises {ℓ κ} :
    {Y : Type ℓ} (P : Error → Type κ) (test : Bool) (x : Error) (next : Result Y)
    → (test ≡ true → P x)
    → Raises P next
    → Raises P (raise_if test x >> next)
raise_if-Raises P true x next h r = h refl
raise_if-Raises P false x next h r = r
