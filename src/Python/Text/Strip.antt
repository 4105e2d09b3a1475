-- ===== src/Python/Text/Strip.antt =====
-- What `strip` removes, described by the characters of the text.
use Prim.Native.Char.{Char}
use cryptopulse.Prelude.{
  ℕ, suc, ◌≤◌, ◌<◌, ◌≡◌, ◌≢◌, ◌∙◌, refl, ap, inl, inr, String, Bool, true, false, not, ◌&&◌, ◌||◌,
  arith, Bool-cases,
}
use cryptopulse.Python.Text.{is_space, lstrip, rstrip, strip, is_empty, is_blank, keep_unless_blank}

-- Some character is not whitespace.
unfoldable pub visible : String → Bool
visible String.[] = false
visible (String.◌∷◌ c s) = not (is_space c) || visible s

-- The first character, if there is one, is not whitespace.
unfoldable pub starts_clean : String → Bool
starts_clean String.[] = true
starts_clean (String.◌∷◌ c s) = not (is_space c)

-- The last character, if there is one, is not whitespace.
unfoldable pub ends_clean : String → Bool
ends_clean String.[] = true
ends_clean (String.◌∷◌ c String.[]) = not (is_space c)
ends_clean (String.◌∷◌ c (String.◌∷◌ d s)) = ends_clean (String.◌∷◌ d s)

abbrev chars : String → ℕ
chars String.[] = 0
chars (String.◌∷◌ c s) = suc (chars s)

visible-lstrip : (s : String) → visible (lstrip s) ≡ visible s
unfolding visible lstrip
visible-lstrip String.[] = refl
visible-lstrip (String.◌∷◌ c s) = ground (arith, visible-lstrip s)

is_empty-keep :
    (c : Char) (t : String) → is_empty (keep_unless_blank c t) ≡ (is_space c && is_empty t)
is_empty-keep c String.[] = elim (Bool-cases (is_space c)) [ inl h ↦ rw h | inr h ↦ rw h ]
is_empty-keep c (String.◌∷◌ d t) = elim (Bool-cases (is_space c)) [ inl h ↦ rw h | inr h ↦ rw h ]

chars-keep : (c : Char) (t : String) → chars (keep_unless_blank c t) ≤ suc (chars t)
chars-keep c String.[] = elim (Bool-cases (is_space c)) [
  | inl h ↦ rw h (omega arith)
  | inr h ↦ rw h (omega arith)
]
chars-keep c (String.◌∷◌ d t) = omega arith

is_empty-rstrip : (s : String) → is_empty (rstrip s) ≡ not (visible s)
unfolding visible rstrip
is_empty-rstrip String.[] = refl
is_empty-rstrip (String.◌∷◌ c s) =
    rw (is_empty-keep c (rstrip s)) (ground (arith, is_empty-rstrip s))

pub is_blank-eq : (s : String) → is_blank s ≡ not (visible s)
unfolding is_blank
is_blank-eq s = is_empty-rstrip (lstrip s) ∙ ap not (visible-lstrip s)

chars-lstrip : (s : String) → chars (lstrip s) ≤ chars s
unfolding lstrip
chars-lstrip String.[] = omega arith
chars-lstrip (String.◌∷◌ c s) = ground (arith, chars-lstrip s)

chars-rstrip : (s : String) → chars (rstrip s) ≤ chars s
unfolding rstrip
chars-rstrip String.[] = omega arith
chars-rstrip (String.◌∷◌ c s) = omega (arith, chars-rstrip s, chars-keep c (rstrip s))

lstrip_clean : (s : String) → starts_clean s ≡ true → lstrip s ≡ s
unfolding starts_clean lstrip
lstrip_clean String.[] h = refl
lstrip_clean (String.◌∷◌ c s) h = ground arith

lstrip_shortens : (s : String) → starts_clean s ≡ false → chars (lstrip s) < chars s
unfolding starts_clean lstrip
lstrip_shortens String.[] h = ground arith
lstrip_shortens (String.◌∷◌ c s) h = ground (arith, chars-lstrip s)

rstrip_clean : (s : String) → ends_clean s ≡ true → rstrip s ≡ s
unfolding ends_clean rstrip
rstrip_clean String.[] h = refl
rstrip_clean (String.◌∷◌ c String.[]) h = ground arith
rstrip_clean (String.◌∷◌ c (String.◌∷◌ d s)) h = ground (arith, rstrip_clean (String.◌∷◌ d s) h)

rstrip_shortens : (s : String) → ends_clean s ≡ false → chars (rstrip s) < chars s
unfolding ends_clean rstrip
rstrip_shortens String.[] h = ground arith
rstrip_shortens (String.◌∷◌ c String.[]) h = elim (Bool-cases (is_space c)) [
  | inl e ↦ rw e (omega arith)
  | inr e ↦ ground arith
]
rstrip_shortens (String.◌∷◌ c (String.◌∷◌ d s)) h =
    omega (arith, rstrip_shortens (String.◌∷◌ d s) h, chars-keep c (rstrip (String.◌∷◌ d s)))

-- A text with no surrounding whitespace is its own strip.
pub strip_clean : (s : String) → starts_clean s ≡ true → ends_clean s ≡ true → strip s ≡ s
unfolding strip
strip_clean s h k = rw (lstrip_clean s h) (rstrip_clean s k)

strip_shortens_left : (s : String) → starts_clean s ≡ false → chars (strip s) < chars s
unfolding strip
strip_shortens_left s h = omega (arith, chars-rstrip (lstrip s), lstrip_shortens s h)

strip_shortens_right :
    (s : String) → starts_clean s ≡ true → ends_clean s ≡ false → chars (strip s) < chars s
unfolding strip
strip_shortens_right s h k = rw (lstrip_clean s h) (rstrip_shortens s k)

shorter_ne : (s t : String) → chars s < chars t → s ≢ t
shorter_ne s t h e = absurd (omega (arith, ap chars e))

-- And only such a text is.
pub strip_eq_clean : (s : String) → strip s ≡ s → (starts_clean s ≡ true) × (ends_clean s ≡ true)
strip_eq_clean s e = elim (Bool-cases (starts_clean s)) [
  | inr dirty ↦ absurd (shorter_ne (strip s) s (strip_shortens_left s dirty) e)
  | inl clean ↦ elim (Bool-cases (ends_clean s)) [
    | inl h ↦ (clean, h)
    | inr dirty ↦ absurd (shorter_ne (strip s) s (strip_shortens_right s clean dirty) e)
  ]
]
