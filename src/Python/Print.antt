-- ===== src/Python/Print.antt =====
-- `str` of a Decimal, as a failure message shows it.
use Prim.Native.String
use cryptopulse.Prelude.{ℕ, zero, suc, ◌-◌, String, ◌&&◌, leb, ◌==◌, if◌then◌else◌}
use cryptopulse.Prelude.Int.{ℤ, pos, negsuc, ◌+ℤ◌, ◌-ℤ◌, leb_ℤ, ltb_ℤ}
use cryptopulse.Python.Text.{str_ℕ}
use cryptopulse.Python.Decimal.{Decimal, digits}

zeros : ℕ → String
zeros zero = ""
zeros (suc n) = String.◌++◌ "0" (zeros n)

-- A full stop after the first `n` characters.
dot_after : ℕ → String → String
dot_after zero s = String.◌++◌ "." s
dot_after (suc n) String.[] = ""
dot_after (suc n) (String.◌∷◌ c s) = String.◌∷◌ c (dot_after n s)

-- `dotplace` digits of `s`, which has `len` of them, stand before the dot.
place_dot : ℤ → ℕ → String → String
unfolding zeros dot_after
place_dot (negsuc n) len s = String.◌++◌ "0." (String.◌++◌ (zeros (suc n)) s)
place_dot (pos n) len s =
    if n == 0
    then String.◌++◌ "0." s
    else if leb len n
    then String.◌++◌ s (zeros (n - len))
    else dot_after n s

-- `'%+d' % n`
signed : ℤ → String
unfolding str_ℕ
signed (pos n) = String.◌++◌ "+" (str_ℕ n)
signed (negsuc n) = String.◌++◌ "-" (str_ℕ (suc n))

-- Plain notation where the exponent is not positive and the number is not tiny, or scientific.
unfoldable pub str_decimal : Decimal → String
unfolding place_dot signed str_ℕ digits ◌+ℤ◌ ◌-ℤ◌
str_decimal d =
    let s = str_ℕ d.coefficient in
    let len : ℕ = if d.coefficient == 0 then 1 else digits d.coefficient in
    let leftdigits = d.exponent +ℤ pos len in
    let plain = leb_ℤ d.exponent (pos 0) && ltb_ℤ (negsuc 5) leftdigits in
    let dotplace : ℤ = if plain then leftdigits else pos 1 in
    let shift = leftdigits -ℤ dotplace in
    let tail : String = if plain then "" else String.◌++◌ "E" (signed shift) in
    let body =
      String.◌++◌ (place_dot dotplace len s)
        (if leb_ℤ shift (pos 0) && leb_ℤ (pos 0) shift then "" else tail) in
    if d.negative then String.◌++◌ "-" body else body
