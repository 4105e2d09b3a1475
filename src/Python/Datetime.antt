-- ===== src/Python/Datetime.antt =====
-- Python's `datetime` and `timedelta`, in microseconds, and the arithmetic of integers on them.
use cryptopulse.Prelude.{ℕ, suc, ◌-◌, ◌/◌, ◌%◌, ◌*◌, Bool, true, false, ◌==◌, if◌then◌else◌}
use cryptopulse.Prelude.Int.{ℤ, pos, negsuc, ◌-ℤ◌}

-- `tzinfo`: None, one whose `utcoffset()` is None, or one with an offset in microseconds.
pub data Tzinfo : Type 0 where
  absent : Tzinfo
  vague : Tzinfo
  offset : ℤ → Tzinfo

-- `wall` is the reading of the datetime's own clock, in microseconds since 1970-01-01T00:00:00.
pub record Datetime : Type 0 where
  pub wall : ℤ
  pub tzinfo : Tzinfo

-- `d.tzinfo is None or d.tzinfo.utcoffset(d) is None`
abbrev pub is_naive : Datetime → Bool
is_naive d = elim d.tzinfo [ absent ↦ true | vague ↦ true | offset z ↦ false ]

-- Microseconds since the epoch; a naive value is read on its own clock.
abbrev pub instant : Datetime → ℤ
instant d = elim d.tzinfo [ absent ↦ d.wall | vague ↦ d.wall | offset z ↦ d.wall -ℤ z ]

-- `datetime.fromtimestamp(_, tz=UTC)` and `astimezone(UTC)`, from an instant in microseconds.
abbrev pub from_instant : ℤ → Datetime
from_instant t = record { wall = t; tzinfo = offset (pos 0) }

abbrev pub second : ℕ
second = 1000000

-- `int(x / d)`: rounds toward zero.
unfoldable pub trunc_div : ℤ → ℕ → ℤ
trunc_div (pos n) d = pos (n / d)
trunc_div (negsuc n) d = let q = suc n / d in if q == 0 then pos 0 else negsuc (q - 1)

-- `x % d`: the remainder of the division that rounds down.
unfoldable pub floor_mod : ℤ → ℕ → ℕ
floor_mod (pos n) d = n % d
floor_mod (negsuc n) d = d - 1 - n % d

-- `n` seconds in microseconds.
unfoldable pub of_seconds : ℤ → ℤ
of_seconds (pos n) = pos (n * second)
of_seconds (negsuc n) = negsuc (suc n * second - 1)
