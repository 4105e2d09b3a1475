-- ===== src/Warehouse/Effects.antt =====
-- How a chain of actions acts on the world: rules for relations between the world before and after.
use cryptopulse.Prelude.{◌≡◌, refl, Bool, true, false}
use cryptopulse.Python.Call.{Call, returned, raised}
use cryptopulse.Warehouse.World.{
  World, Error, Result, ok, err, Action, continue, check, or_storage_error, ◌>>=◌,
}

module _ (R : World → World → Type 0) (trans : (u v w : World) → R u v → R v w → R u w) where
  continue_keeps :
      {A B : Type 0} (r : Result A) (f : A → Action B) (w u : World)
      → R w u
      → ((a : A) → R u (f a u).1)
      → R w (continue r f u).1
  continue_keeps (ok a) f w u h k = trans w u (f a u).1 h (k a)
  continue_keeps (err e) f w u h k = h

  -- A chain keeps what its parts keep, also where the first part raises.
  pub bind_keeps :
      {A B : Type 0} (m : Action A) (f : A → Action B) (w : World)
      → R w (m w).1
      → ((a : A) → R (m w).1 (f a (m w).1).1)
      → R w ((m >>= f) w).1
  bind_keeps m f w h k = continue_keeps (m w).0 f w (m w).1 h k

-- These two do nothing to the world.
pub check_world : (b : Bool) (e : Error) (w : World) → (check b e w).1 ≡ w
check_world true e w = refl
check_world false e w = refl

pub or_storage_error_world : {A : Type 0} (c : Call A) (w : World) → (or_storage_error c w).1 ≡ w
or_storage_error_world (returned a) w = refl
or_storage_error_world (raised x) w = refl

pub continue-eq-ok :
    {A B : Type 0} (r : Result A) (f : A → Action B) (w : World) {b : B}
    → (continue r f w).0 ≡ ok b
    → (a : A) × (r ≡ ok a) × ((f a w).0 ≡ ok b)
continue-eq-ok (ok a) f w h = (a, refl, h)
continue-eq-ok (err e) f w h = cc

-- Inversion of a chain that returned.
pub >>=-eq-ok :
    {A B : Type 0} (m : Action A) (f : A → Action B) (w : World) {b : B}
    → ((m >>= f) w).0 ≡ ok b
    → (a : A) × ((m w).0 ≡ ok a) × ((f a (m w).1).0 ≡ ok b)
>>=-eq-ok m f w h = continue-eq-ok (m w).0 f (m w).1 h

continue_assoc :
    {A : Type 0} (r : Result (Unit {0})) (k : Action (Unit {0})) (f : Action A) (w : World)
    → continue r (λ _. k >>= λ _. f) w
      ≡ continue (continue r (λ _. k) w).0 (λ _. f) (continue r (λ _. k) w).1
continue_assoc (ok a) k f w = refl
continue_assoc (err e) k f w = refl

pub >>_assoc :
    {A : Type 0} (m k : Action (Unit {0})) (f : Action A) (w : World)
    → (m >>= λ _. k >>= λ _. f) w ≡ ((m >>= λ _. k) >>= λ _. f) w
>>_assoc m k f w = continue_assoc (m w).0 k f (m w).1
