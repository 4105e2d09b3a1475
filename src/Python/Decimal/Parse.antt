-- ===== src/Python/Decimal/Parse.antt =====
-- `Decimal(s)` of a text. The digits beyond ASCII that the constructor takes are a parameter;
-- exponents beyond `decimal.MAX_EMAX` are left out.
use Prim.Native.Char.{Char, code}
use cryptopulse.Prelude.{
  ℕ, suc, ◌+◌, ◌*◌, String, Bool, true, false, ◌&&◌, ◌||◌, leb, ◌==◌, if◌then◌else◌, List, [], ◌∷◌,
  Option, none, some,
}
use cryptopulse.Prelude.Int.{ℤ, pos, ◌-ℤ◌}
use cryptopulse.Python.Text.{strip, is_empty}
use cryptopulse.Python.Decimal.{Number, finite, infinity, nan}

unfoldable pub without_underscores : String → String
without_underscores String.[] = String.[]
without_underscores (String.◌∷◌ c s) =
    let rest = without_underscores s in if code c == 95 then rest else String.◌∷◌ c rest

-- An ASCII letter in lower case.
abbrev lower : ℕ → ℕ
lower n = if leb 65 n && leb n 90 then n + 32 else n

-- The text is this word, in either case; what follows the word.
unfoldable pub after_word : List ℕ → String → Option String
after_word [] s = some s
after_word (n ∷ ns) String.[] = none
after_word (n ∷ ns) (String.◌∷◌ c s) =
    let rest = after_word ns s in if lower (code c) == n then rest else none

abbrev inf : List ℕ
inf = 105 ∷ 110 ∷ 102 ∷ []

abbrev infinity_word : List ℕ
infinity_word = 105 ∷ 110 ∷ 102 ∷ 105 ∷ 110 ∷ 105 ∷ 116 ∷ 121 ∷ []

abbrev nan_word : List ℕ
nan_word = 110 ∷ 97 ∷ 110 ∷ []

abbrev is_whole : Option String → Bool
is_whole none = false
is_whole (some s) = is_empty s

-- A sign, if there is one; is it a minus?
unfoldable pub sign_of : String → Bool × String
sign_of String.[] = (false, String.[])
sign_of (String.◌∷◌ c s) =
    if code c == 45 then (true, s) else if code c == 43 then (false, s) else (false, String.◌∷◌ c s)

module _ (digit : Char → Option ℕ) where
  -- The digits that come first: the number after `acc`, how many they are after `n`, and the rest.
  unfoldable pub read_digits : String → ℕ → ℕ → ℕ × ℕ × String
  read_digits String.[] acc n = (acc, n, String.[])
  read_digits (String.◌∷◌ c s) acc n = elim (digit c) [
    | none ↦ (acc, n, String.◌∷◌ c s)
    | some d ↦ read_digits s (acc * 10 + d) (suc n)
  ]

  abbrev is_digits : Option String → Bool
  is_digits none = false
  is_digits (some s) = is_empty (read_digits s 0 0).2

  -- `[-+]?\d+`, to the end
  abbrev whole_exponent : Bool → ℕ × ℕ × String → Option ℤ
  whole_exponent negative (e, n, rest) =
      if n == 0
      then none
      else if is_empty rest
      then some (if negative then pos 0 -ℤ pos e else pos e)
      else none

  -- `(E[-+]?\d+)?`
  abbrev exponent_of : String → Option ℤ
  exponent_of String.[] = some (pos 0)
  exponent_of (String.◌∷◌ c s) =
      if lower (code c) == 101
      then (let (negative, rest) = sign_of s in whole_exponent negative (read_digits rest 0 0))
      else none

  abbrev scaled : Bool → ℕ → ℕ → Option ℤ → Option Number
  scaled negative c decimals none = none
  scaled negative c decimals (some e) =
      some (finite (record { negative = negative; coefficient = c; exponent = e -ℤ pos decimals }))

  -- The fraction and what follows.
  abbrev fraction : Bool → ℕ → ℕ → String → Option Number
  fraction negative acc n String.[] = if n == 0 then none else scaled negative acc 0 (some (pos 0))
  fraction negative acc n (String.◌∷◌ c s) =
      if code c == 46
      then (let (acc', m, rest) = read_digits s acc 0 in
          if n + m == 0 then none else scaled negative acc' m (exponent_of rest))
      else if n == 0
      then none
      else scaled negative acc 0 (exponent_of (String.◌∷◌ c s))

  abbrev numeral : Bool → String → Option Number
  numeral negative s = let (acc, n, rest) = read_digits s 0 0 in fraction negative acc n rest

  abbrev unsigned : Bool × String → Option Number
  unsigned (negative, s) =
      if is_whole (after_word inf s) || is_whole (after_word infinity_word s)
      then some (infinity negative)
      else if is_digits (after_word nan_word s) || is_digits (after_word (115 ∷ nan_word) s)
      then some nan
      else numeral negative s

  -- `none` is InvalidOperation.
  unfoldable pub parse_decimal : String → Option Number
  unfolding without_underscores after_word sign_of read_digits ◌-ℤ◌ strip
  parse_decimal s = unsigned (sign_of (without_underscores (strip s)))
