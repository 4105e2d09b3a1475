-- ===== src/Validation/Checks.antt =====
-- When each rule finds nothing, in the terms of Trustworthy.
use mathlib.Core.List.{append-eq-nil_iff}
use cryptopulse.Prelude.{
  ◌≡◌, ◌↔◌, sym, refl, ap, inl, inr, String, Bool, true, false, not, Option, none, some, List, [],
  ◌∷◌, ◌++◌, arith, Option-cases, str_eq_iff, if◌then◌else◌,
}
use cryptopulse.Python.Text.{strip}
use cryptopulse.Python.Text.Strip.{is_blank-eq, strip_clean, strip_eq_clean}
use cryptopulse.Python.Decimal.{finite, is_non_positive}
use cryptopulse.Python.Datetime.{Datetime, Tzinfo, absent, vague, offset, is_naive}
use cryptopulse.Python.Value.{Value, decimal, datetime, object, as_text}
use cryptopulse.Python.Call.{Call, returned, raised, ◌>>=◌, returned-injective, >>=-eq-returned}
use cryptopulse.Contracts.Events.{Attributes}
use cryptopulse.Contracts.Validation.{ValidationFailure}
use cryptopulse.Validation.Rules.{
  Failures, read, missing_event_id, missing_trade_id, unsupported_side, is_side, bad_symbol,
  is_unusable, is_invalid_symbol, check_amount, check_aware, required, payload_not_object,
  is_object, check_required, validate_required, validate_price, validate_quantity, validate_side,
  validate_timestamps, validate_symbol, validate_event_id, validate_trade_id,
}
use cryptopulse.Validation.Trustworthy.{
  IsUsable, IsCanonical, IsPositive, IsTradeSide, IsObject, IsAware,
}

pub is_unusable-eq : (v : Value) → (is_unusable v ≡ false) ↔ IsUsable (some v)
unfolding is_unusable
is_unusable-eq v = elim (Option-cases (as_text v)) [
  | inl e ↦ (λ h. absurd (ground arith), λ p. absurd (ground (arith, p.1)))
  | inr (s, e) ↦ (
    λ h. (s, e, ground (arith, is_blank-eq s)),
    λ p. rw (e, is_unusable) (ground (arith, is_blank-eq s, e, p.1, p.2)),
  )
]

-- A rule of one test on one attribute.
check_test :
    (name : String) (o : Option Value) (test : Value → Bool) (f : ValidationFailure)
    (P : Option Value → Type 0)
    → ¬ P none
    → ((v : Value) → (test v ≡ false) ↔ P (some v))
    → ((do v ← read name o; returned (if test v then f ∷ [] else [])) ≡ returned []) ↔ P o
check_test name none test f P no_none step = (λ h. absurd (ground arith), λ p. absurd (no_none p))
check_test name (some v) test f P no_none step =
    (λ h. (step v).0 (ground arith), λ p. rw ((step v).1 p))

pub validate_event_id_iff :
    (a : Attributes) → (validate_event_id a ≡ returned []) ↔ IsUsable a.event_id
unfolding validate_event_id
validate_event_id_iff a =
    check_test "event_id" a.event_id is_unusable missing_event_id IsUsable (λ h. h) is_unusable-eq

pub validate_trade_id_iff :
    (a : Attributes) → (validate_trade_id a ≡ returned []) ↔ IsUsable a.trade_id
unfolding validate_trade_id
validate_trade_id_iff a =
    check_test "trade_id" a.trade_id is_unusable missing_trade_id IsUsable (λ h. h) is_unusable-eq

is_invalid_symbol-eq : (v : Value) → (is_invalid_symbol v ≡ false) ↔ IsCanonical (some v)
unfolding is_invalid_symbol
is_invalid_symbol-eq v = elim (Option-cases (as_text v)) [
  | inl e ↦ (λ h. absurd (ground arith), λ p. absurd (ground (arith, p.1)))
  | inr (s, e) ↦ (
    λ h.
        (let clean = strip_eq_clean s (sym (ground (arith, str_eq_iff s (strip s)))) in
          (s, e, ground (arith, is_blank-eq s), clean.0, clean.1)),
    λ p.
        (let p0 : p.0 ≡ s = ground (arith, p.1) in
          rw (e, is_invalid_symbol)
            (ground
              (arith, is_blank-eq s, str_eq_iff s (strip s), p0, p.2, strip_clean p.0 p.3 p.4))),
  )
]

pub validate_symbol_iff :
    (a : Attributes) → (validate_symbol a ≡ returned []) ↔ IsCanonical a.symbol
unfolding validate_symbol
validate_symbol_iff a =
    check_test "symbol" a.symbol is_invalid_symbol bad_symbol IsCanonical (λ h. h)
      is_invalid_symbol-eq

is_side-eq : (v : Value) → (not (is_side v) ≡ false) ↔ IsTradeSide (some v)
is_side-eq (Value.side s) = (λ h. tt, λ h. refl)
is_side-eq _ = (λ h. ground arith, λ p. absurd p)

pub validate_side_iff : (a : Attributes) → (validate_side a ≡ returned []) ↔ IsTradeSide a.side
unfolding validate_side
validate_side_iff a =
    check_test "side" a.side (λ v. not (is_side v)) unsupported_side IsTradeSide (λ h. h) is_side-eq

check_amount_iff :
    (rule name : String) (v : Value) → (check_amount rule name v ≡ []) ↔ IsPositive (some v)
unfolding check_amount is_non_positive
check_amount_iff rule name (decimal (finite d)) = (λ h. ground arith, λ p. ground arith)
check_amount_iff rule name _ = (λ h. ground arith, λ p. absurd p)

amount_iff :
    (rule name : String) (o : Option Value)
    → ((do v ← read name o; returned (check_amount rule name v)) ≡ returned []) ↔ IsPositive o
amount_iff rule name none = (λ h. absurd (ground arith), λ p. absurd p)
amount_iff rule name (some v) = (
  λ h. (check_amount_iff rule name v).0 (ground arith),
  λ p. rw ((check_amount_iff rule name v).1 p),
)

pub validate_price_iff : (a : Attributes) → (validate_price a ≡ returned []) ↔ IsPositive a.price
unfolding validate_price
validate_price_iff a = amount_iff "price_validity" "price" a.price

pub validate_quantity_iff :
    (a : Attributes) → (validate_quantity a ≡ returned []) ↔ IsPositive a.quantity
unfolding validate_quantity
validate_quantity_iff a = amount_iff "quantity_validity" "quantity" a.quantity

is_naive-eq : (d : Datetime) → (is_naive d ≡ false) ↔ IsAware (some (datetime d))
is_naive-eq d = go d.tzinfo refl
  where
    go : (t : Tzinfo) → d.tzinfo ≡ t → (is_naive d ≡ false) ↔ IsAware (some (datetime d))
    go absent e = (λ h. absurd (ground arith), λ p. absurd (ground (arith, p.1)))
    go vague e = (λ h. absurd (ground arith), λ p. absurd (ground (arith, p.1)))
    go (offset z) e = (λ h. (z, e), λ p. rw e)

check_aware_iff :
    (code message : String) (v : Value)
    → (check_aware code message v ≡ returned []) ↔ IsAware (some v)
unfolding check_aware
check_aware_iff code message (datetime d) =
    (λ h. (is_naive-eq d).0 (ground arith), λ p. rw ((is_naive-eq d).1 p))
check_aware_iff code message _ = (λ h. ground arith, λ p. absurd p)

-- A timestamp is read and checked.
abbrev timestamp : String → String → String → Option Value → Call Failures
timestamp name code message o = do v ← read name o; check_aware code message v

timestamp_iff :
    (name code message : String) (o : Option Value)
    → (timestamp name code message o ≡ returned []) ↔ IsAware o
timestamp_iff name code message none = (λ h. absurd (ground arith), λ p. absurd p)
timestamp_iff name code message (some v) = check_aware_iff code message v

both_iff :
    (m n : Call Failures)
    → ((do first ← m; second ← n; returned (first ++ second)) ≡ returned [])
      ↔ ((m ≡ returned []) × (n ≡ returned []))
both_iff (returned xs) (returned ys) = (
  λ h.
      (let both = append-eq-nil_iff.0 (returned-injective h) in
        (ap returned both.0, ap returned both.1)),
  λ p. ap returned (append-eq-nil_iff.1 (returned-injective p.0, returned-injective p.1)),
)
both_iff (returned xs) (raised x) = (λ h. absurd (cc), λ p. absurd (cc p.1))
both_iff (raised x) n = (λ h. absurd (cc), λ p. absurd (cc p.0))

timestamps_eq :
    (a : Attributes)
    → validate_timestamps a ≡ (do
      first ←
          timestamp "trade_timestamp" "naive_trade_timestamp"
            "trade_timestamp must be timezone-aware" a.trade_timestamp
      second ←
          timestamp "received_at" "naive_received_at" "received_at must be timezone-aware"
            a.received_at
      returned (first ++ second))
unfolding validate_timestamps
timestamps_eq a = ground arith

pub validate_timestamps_iff :
    (a : Attributes)
    → (validate_timestamps a ≡ returned []) ↔ (IsAware a.trade_timestamp × IsAware a.received_at)
validate_timestamps_iff a = rw timestamps_eq (
    let both = both_iff _ _ in
    let first =
      timestamp_iff "trade_timestamp" "naive_trade_timestamp"
        "trade_timestamp must be timezone-aware" a.trade_timestamp in
    let second =
      timestamp_iff "received_at" "naive_received_at" "received_at must be timezone-aware"
        a.received_at in
    (λ h. (first.0 (both.0 h).0, second.0 (both.0 h).1), λ p. both.1 (first.1 p.0, second.1 p.1)))

-- Every attribute of the list is usable.
abbrev AllUsable : List (String × Option Value) → Type 0
AllUsable [] = Unit {0}
AllUsable ((name, o) ∷ rest) = IsUsable o × AllUsable rest

check_required_iff :
    (fields : List (String × Option Value))
    → (check_required fields ≡ returned []) ↔ AllUsable fields
unfolding check_required
check_required_iff [] = (λ h. tt, λ h. refl)
check_required_iff ((name, none) ∷ rest) = (λ h. absurd (ground arith), λ p. absurd p.0)
check_required_iff ((name, some v) ∷ rest) =
    let ih = check_required_iff rest in
    let usable = is_unusable-eq v in
    (
      λ h.
          (let (fs, e, g) =
              >>=-eq-returned (check_required rest)
                (λ (fs : Failures). returned (if is_unusable v then required name ∷ fs else fs))
                h in
            (usable.0 (ground arith), ih.0 (ground arith))),
      λ p. rw (usable.1 p.0, ih.1 p.1),
    )

abbrev named : Attributes → List (String × Option Value)
named a =
    ("event_id", a.event_id)
    ∷ ("source", a.source)
    ∷ ("symbol", a.symbol)
    ∷ ("trade_id", a.trade_id)
    ∷ []

abbrev append_unless : Bool → Failures → ValidationFailure → Failures
append_unless b fs f = if b then fs else fs ++ f ∷ []

append_unless_nil :
    (b : Bool) (fs : Failures) (f : ValidationFailure)
    → (append_unless b fs f ≡ []) ↔ ((fs ≡ []) × (b ≡ true))
append_unless_nil true fs f = (λ h. (h, refl), λ p. p.0)
append_unless_nil false [] f = (λ h. ground arith, λ p. ground arith)
append_unless_nil false (x ∷ fs) f = (λ h. ground arith, λ p. ground arith)

is_object-eq : (v : Value) → (is_object v ≡ true) ↔ IsObject (some v)
is_object-eq (object fs) = (λ h. tt, λ h. refl)
is_object-eq _ = (λ h. ground arith, λ p. absurd p)

required_iff :
    (m : Call Failures) (o : Option Value)
    → ((do
      failures ← m
      payload ← read "payload" o
      returned (append_unless (is_object payload) failures payload_not_object))
        ≡ returned [])
      ↔ ((m ≡ returned []) × IsObject o)
required_iff (raised x) o = (λ h. absurd (cc), λ p. absurd (cc p.0))
required_iff (returned fs) none = (λ h. absurd (cc), λ p. absurd p.1)
required_iff (returned fs) (some v) =
    let parts = append_unless_nil (is_object v) fs payload_not_object in
    let kind = is_object-eq v in
    (
      λ h. (let both = parts.0 (returned-injective h) in (ap returned both.0, kind.0 both.1)),
      λ p. ap returned (parts.1 (returned-injective p.0, kind.1 p.1)),
    )

-- The four texts are usable, and the payload is an object.
abbrev HasRequired : Attributes → Type 0
HasRequired a =
    IsUsable a.event_id
    × IsUsable a.source
    × IsUsable a.symbol
    × IsUsable a.trade_id
    × IsObject a.payload

pub validate_required_iff : (a : Attributes) → (validate_required a ≡ returned []) ↔ HasRequired a
unfolding validate_required
validate_required_iff a =
    let texts = check_required_iff (named a) in
    let whole = required_iff (check_required (named a)) a.payload in
    (
      λ h. (let p = whole.0 h in let t = texts.0 p.0 in (t.0, t.1.0, t.1.1.0, t.1.1.1.0, p.1)),
      λ p. whole.1 (texts.1 (p.0, (p.1, (p.2, (p.3, tt)))), p.4),
    )
