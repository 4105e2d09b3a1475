-- ===== src/Producer/Preparation.antt =====
-- producer/preparation: a raw payload as an InternalEvent; what both preparers share. Of a
-- PreparationError the text is kept; its copy of the raw event and its detail are left out, and so
-- is logging. `repr` and the texts of containers, the parser of ISO 8601 texts, and the digits
-- beyond ASCII are parameters.
pub mod Match
pub mod Dev
pub mod Parts
use Prim.Native.Char.{Char, code}
use Prim.Native.String
use cryptopulse.Prelude.{
  ℕ, String, Bool, true, false, not, ◌||◌, ◌&&◌, ◌==◌, suc, str_eq, Option, none, some,
  if◌then◌else◌,
}
use cryptopulse.Prelude.Int.{ℤ, pos, negsuc, ltb_ℤ, leb_ℤ}
use cryptopulse.Python.Text.{str_ℕ, is_empty}
use cryptopulse.Python.Decimal.{Decimal, Number, finite}
use cryptopulse.Python.Decimal.Parse.{parse_decimal}
use cryptopulse.Python.Datetime.{Datetime, instant, from_instant, is_naive}
use cryptopulse.Python.Value.{
  Value, Fields, TradeSide, EventType, null, boolean, integer, real, text, buy, sell, trade, ticker,
  orderbook, unknown,
}
use cryptopulse.Warehouse.World.{
  Error, Result, ok, err, preparation_error, validation_error, overflow_error,
}
use cryptopulse.Producer.Settings.{get}
use cryptopulse.Producer.Raising.{◌>>=◌, ◌>>◌, raise_if}

-- What the preparers take from Python, and the clock.
pub record Runtime : Type 0 where
  pub digit : Char → Option ℕ
  -- `str` of a list or a dict
  pub shown : Value → String
  -- `datetime.fromisoformat`; `none` is a ValueError
  pub fromisoformat : String → Option Datetime
  -- `datetime.fromtimestamp(n / 1000, tz=UTC)`
  pub from_milliseconds : ℤ → Result Datetime
  pub now : Datetime

abbrev pub problem : String → String → String → Error
problem before key after = preparation_error (String.◌++◌ before (String.◌++◌ key after))

abbrev pub present : String → Value → Result Value
present key null = err (problem "raw event is missing required field '" key "'")
present key v = ok v

-- `_require`
unfoldable pub require : Fields → String → Result Value
require raw key = present key (get key raw)

unfoldable pub str_ℤ : ℤ → String
unfolding str_ℕ
str_ℤ (pos n) = str_ℕ n
str_ℤ (negsuc n) = String.◌++◌ "-" (str_ℕ (suc n))

-- The instants of the years 1 to 9999, in microseconds.
unfoldable pub is_representable : ℤ → Bool
is_representable t = leb_ℤ (negsuc 62135596799999999) t && ltb_ℤ t (pos 253402300800000000)

-- `f"{value[:-1]}+00:00" if value.endswith("Z") else value`
unfoldable pub with_offset : String → String
with_offset String.[] = String.[]
with_offset (String.◌∷◌ c s) =
    let rest = with_offset s in if is_empty s && code c == 90 then "+00:00" else String.◌∷◌ c rest

-- `TradeSide(s)`, whose ValueError becomes a PreparationError.
unfoldable pub to_side : String → Result TradeSide
to_side s =
    if str_eq s "buy"
    then ok buy
    else if str_eq s "sell"
    then ok sell
    else err (preparation_error "field 'side' is not a known TradeSide")

-- `EventType(s)`
unfoldable pub to_event_type : String → Result EventType
to_event_type s =
    if str_eq s "trade"
    then ok trade
    else if str_eq s "ticker"
    then ok ticker
    else if str_eq s "orderbook"
    then ok orderbook
    else if str_eq s "unknown"
    then ok unknown
    else err (preparation_error "field 'type' is not a known EventType")

-- `not isinstance(v, str) or not v`
unfoldable pub non_empty : String → Value → Result String
non_empty key (text s) =
    if is_empty s then err (problem "field '" key "' must be a non-empty string") else ok s
non_empty key v = err (problem "field '" key "' must be a non-empty string")

module _ (runtime : Runtime) where
  -- `str(v)`
  unfoldable pub str : Value → String
  unfolding str_ℤ
  str null = "None"
  str (boolean b) = if b then "True" else "False"
  str (integer n) = str_ℤ n
  str (real r) = r
  str (text s) = s
  str v = runtime.shown v

  abbrev converted : String → Option Number → Result Number
  converted key none = err (problem "field '" key "' is not convertible to Decimal")
  converted key (some n) = ok n

  -- `_to_decimal`
  unfoldable pub to_decimal : Fields → String → Result Number
  to_decimal raw key = do
    value ← require raw key
    converted key (parse_decimal runtime.digit (str value))

  abbrev in_utc : Datetime → Result Datetime
  in_utc d =
      if is_representable (instant d) then ok (from_instant (instant d)) else err overflow_error

  abbrev aware : String → Option Datetime → Result Datetime
  aware key none = err (problem "field '" key "' is not a valid ISO-8601 timestamp")
  aware key (some d) =
      raise_if (is_naive d) (problem "field '" key "' must be timezone-aware") >> in_utc d

  abbrev parsed_datetime : String → Value → Result Datetime
  parsed_datetime key (text s) = aware key (runtime.fromisoformat (with_offset s))
  parsed_datetime key v = err (problem "field '" key "' is not an ISO-8601 string")

  -- `_to_utc_datetime`
  unfoldable pub to_utc_datetime : Fields → String → Result Datetime
  to_utc_datetime raw key = do value ← require raw key; parsed_datetime key value

  abbrev from_integer : String → Value → Result Datetime
  from_integer key (integer n) = runtime.from_milliseconds n
  from_integer key v = err (problem "field '" key "' is not an epoch-milliseconds integer")

  -- `_to_datetime_from_epoch_ms`
  unfoldable pub to_datetime_from_epoch_ms : Fields → String → Result Datetime
  to_datetime_from_epoch_ms raw key = do value ← require raw key; from_integer key value

-- The constructor of the contract rejects a number that is not finite.
unfoldable pub field_decimal : Number → Result Decimal
field_decimal (finite d) = ok d
field_decimal _ = err (validation_error "InternalEvent")
