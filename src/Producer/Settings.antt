-- ===== src/Producer/Settings.antt =====
-- producer/config/settings.py, as far as the connector reads it, and the lookups in a raw payload
-- that the connectors and the preparers share. Delays are whole numbers of a unit of time that both
-- settings share.
use cryptopulse.Prelude.{ℕ, String, Bool, true, false, not, ◌==◌, ◌||◌, str_eq, if◌then◌else◌}
use cryptopulse.Prelude.Int.{pos}
use cryptopulse.Python.Value.{
  Value, Fields, null, boolean, integer, real, text, nil, end, field, array, object,
}
use cryptopulse.Python.Text.{is_empty}

-- `ExchangeSettings`
pub record ExchangeSettings : Type 0 where
  pub max_reconnect_attempts : ℕ
  pub reconnect_delay : ℕ
  pub max_reconnect_delay : ℕ

-- `raw.get(key, default)`
unfoldable pub get_or : String → Value → Fields → Value
get_or key default end = default
get_or key default (field name value rest) =
    let later = get_or key default rest in if str_eq name key then value else later

-- `raw.get(key)`: a missing key reads as None.
abbrev pub get : String → Fields → Value
get key fields = get_or key null fields

-- `key in raw`
unfoldable pub has_key : String → Fields → Bool
has_key key end = false
has_key key (field name value rest) = str_eq name key || has_key key rest

-- `bool(v)`, for what JSON can hold.
unfoldable pub is_true : Value → Bool
is_true null = false
is_true (boolean b) = b
is_true (integer (pos n)) = not (n == 0)
is_true (real r) = not (str_eq r "0.0" || str_eq r "-0.0")
is_true (text s) = not (is_empty s)
is_true (array nil) = false
is_true (object end) = false
is_true _ = true

-- A list or a dict cannot be hashed.
unfoldable pub is_hashable : Value → Bool
is_hashable (array xs) = false
is_hashable (object fs) = false
is_hashable _ = true

-- `_MATCH_TYPES`
abbrev pub is_match_name : String → Bool
is_match_name s = str_eq s "match" || str_eq s "last_match"

-- `v in _MATCH_TYPES`, where `v` can be hashed.
unfoldable pub is_match_type : Value → Bool
is_match_type (text s) = is_match_name s
is_match_type _ = false
