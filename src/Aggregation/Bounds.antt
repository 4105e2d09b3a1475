-- ===== src/Aggregation/Bounds.antt =====
-- Windows of time: where a window starts and ends, and when it is final.
use native.Mathlib.Nat.{mod-le, mod-lt}
use native.Mathlib.Omega.{div_any}
use cryptopulse.Prelude.{
  ℕ, suc, ◌+◌, ◌*◌, ◌/◌, ◌%◌, ◌≤◌, ◌<◌, ◌≡◌, ◌↔◌, refl, ap, ◌∙◌, Bool, true, false, arith, leb→le,
  le→leb,
}
use cryptopulse.Prelude.Int.{ℤ, pos, negsuc, ◌+ℤ◌, ◌-ℤ◌, ◌≤ℤ◌, leb_ℤ, int_laws}
use cryptopulse.Python.Datetime.{
  Datetime, instant, is_naive, from_instant, second, trunc_div, floor_mod, of_seconds,
}
use cryptopulse.Warehouse.World.{ok}
use cryptopulse.Aggregation.{start_epoch, window_start_for, is_final_for}

start_epoch-pos : (e s : ℕ) → start_epoch (pos e) s ≡ pos (s * (e / s))
unfolding start_epoch floor_mod ◌-ℤ◌
start_epoch-pos e s = let parts = div_any e s in ground (arith, parts, mod-le e s)

window_start_for-eq :
    (d : Datetime) (s t : ℕ)
    → is_naive d ≡ false
    → instant d ≡ pos t
    → 0 < s
    → window_start_for d (pos s) ≡ ok (from_instant (of_seconds (start_epoch (pos (t / second)) s)))
unfolding window_start_for trunc_div
window_start_for-eq d s t aware at positive =
    let ok_s : leb_ℤ (pos s) (pos 0) ≡ false = ground arith in rw (aware, at, ok_s) refl

-- A timestamp at or after the epoch with an offset lies in its window, of any positive length: at
-- or after the start and before the start and the length; and the start is a multiple of the
-- length.
pub window_start_for-contains :
    (d : Datetime) (s t : ℕ)
    → is_naive d ≡ false
    → instant d ≡ pos t
    → 0 < s
    → (start : ℕ) × (window_start_for d (pos s) ≡ ok (from_instant (pos start)))
      × (start ≡ s * (t / second / s) * second)
      × (start ≤ t)
      × (t < start + s * second)
unfolding of_seconds
window_start_for-contains d s t aware at positive = (
  s * (t / second / s) * second,
  window_start_for-eq d s t aware at positive
      ∙ ap (λ (x : ℤ). ok (from_instant (of_seconds x))) (start_epoch-pos (t / second) s),
  refl,
  omega (arith, div_any (t / second) s),
  omega (arith, div_any (t / second) s, mod-lt (t / second) positive),
)

-- An aware timestamp less than a second before the epoch is put into the window that starts at the
-- epoch, which is after it: the seconds are rounded toward zero and not down.
pub window_start_for-after :
    (d : Datetime) (s n : ℕ)
    → is_naive d ≡ false
    → instant d ≡ negsuc n
    → suc n < second
    → 0 < s
    → window_start_for d (pos s) ≡ ok (from_instant (pos 0))
unfolding window_start_for trunc_div start_epoch floor_mod of_seconds ◌-ℤ◌
window_start_for-after d s n aware at short positive =
    let ok_s : leb_ℤ (pos s) (pos 0) ≡ false = ground arith in
    let whole : suc n / second ≡ 0 = omega arith in
    let rest : 0 % s ≡ 0 = omega (arith, div_any 0 s, mod-le 0 s) in
    rw (aware, at, ok_s, whole, rest) refl

ok-injective : {a b : Bool} → ok a ≡ ok b → a ≡ b
ok-injective h = cc

-- Of two aware datetimes: a window is final exactly if the clock shows at least its end and the
-- allowed lateness.
pub is_final_for_iff :
    (window_end now : Datetime) (lateness : ℤ)
    → is_naive window_end ≡ false
    → is_naive now ≡ false
    → (is_final_for window_end now lateness ≡ ok true)
      ↔ (instant window_end +ℤ of_seconds lateness ≤ℤ instant now)
unfolding is_final_for
is_final_for_iff window_end now lateness a b =
    let iff : (leb_ℤ (of_seconds lateness) (instant now -ℤ instant window_end) ≡ true)
        ↔ (instant window_end +ℤ of_seconds lateness ≤ℤ instant now) =
      (λ h. omega (int_laws, leb→le _ _ h), λ h. le→leb _ _ (omega (int_laws, h))) in
    rw (a, b) (λ h. iff.0 (ok-injective h), λ h. ap ok (iff.1 h))
