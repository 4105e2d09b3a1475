-- ===== src/Validation/Trustworthy.antt =====
-- What makes an event trustworthy, said of its attributes and not by the rules.
use cryptopulse.Prelude.{◌<◌, ◌≡◌, String, true, false, Option, none, some}
use cryptopulse.Prelude.Int.{ℤ}
use cryptopulse.Python.Text.Strip.{visible, starts_clean, ends_clean}
use cryptopulse.Python.Decimal.{finite}
use cryptopulse.Python.Datetime.{offset}
use cryptopulse.Python.Value.{Value, decimal, datetime, object, as_text}
use cryptopulse.Contracts.Events.{Attributes}

-- Present, a text, and not all whitespace.
abbrev pub IsUsable : Option Value → Type 0
IsUsable none = ⊥
IsUsable (some v) = (s : String) × (as_text v ≡ some s) × (visible s ≡ true)

-- Such a text that has no whitespace at either end.
abbrev pub IsCanonical : Option Value → Type 0
IsCanonical none = ⊥
IsCanonical (some v) =
    (s : String) × (as_text v ≡ some s)
    × (visible s ≡ true)
    × (starts_clean s ≡ true)
    × (ends_clean s ≡ true)

-- A finite decimal number above zero.
abbrev pub IsPositive : Option Value → Type 0
IsPositive (some (decimal (finite d))) = (d.negative ≡ false) × (0 < d.coefficient)
IsPositive _ = ⊥

abbrev pub IsTradeSide : Option Value → Type 0
IsTradeSide (some (Value.side s)) = Unit {0}
IsTradeSide _ = ⊥

abbrev pub IsObject : Option Value → Type 0
IsObject (some (object fs)) = Unit {0}
IsObject _ = ⊥

-- A datetime whose time zone has an offset.
abbrev pub IsAware : Option Value → Type 0
IsAware (some (datetime d)) = (z : ℤ) × (d.tzinfo ≡ offset z)
IsAware _ = ⊥

pub record IsTrustworthy (a : Attributes) : Type 0 where
  pub event_id : IsUsable a.event_id
  pub source : IsUsable a.source
  pub trade_id : IsUsable a.trade_id
  pub symbol : IsCanonical a.symbol
  pub payload : IsObject a.payload
  pub side : IsTradeSide a.side
  pub price : IsPositive a.price
  pub quantity : IsPositive a.quantity
  pub trade_timestamp : IsAware a.trade_timestamp
  pub received_at : IsAware a.received_at
