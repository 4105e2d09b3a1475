-- ===== src/Producer/Preparation/Match/Trusted.antt =====
-- Which prepared events the validation engine accepts.
use Prim.Native.String
use mathlib.Core.Path.{subst}
use package.text.Mathlib.TextLemmas.{cons-append}
use cryptopulse.Prelude.{◌≡◌, ◌<◌, ◌↔◌, refl, ap, ◌∙◌, String, true, false, some}
use cryptopulse.Prelude.Int.{ℤ, pos}
use cryptopulse.Python.Text.{is_space}
use cryptopulse.Python.Text.Strip.{visible, starts_clean, ends_clean}
use cryptopulse.Python.Datetime.{Datetime, offset}
use cryptopulse.Python.Value.{object, text, as_text, Fields}
use cryptopulse.Contracts.Events.{InternalEvent, attributes}
use cryptopulse.Warehouse.World.{ok}
use cryptopulse.Validation.Rules.{default_rules}
use cryptopulse.Validation.Outcomes.{Trusts}
use cryptopulse.Validation.Trustworthy.{IsTrustworthy, IsCanonical, IsUsable}
use cryptopulse.Validation.Decision.{validate-IsTrustworthy}
use cryptopulse.Producer.Preparation.{Runtime}
use cryptopulse.Producer.Preparation.Match.{prepare}
use cryptopulse.Producer.Preparation.Match.Correspondence.{Corresponds, prepare-Corresponds}

-- What preparing a payload leaves for the rules to decide.
pub record IsAcceptable (e : InternalEvent) : Type 0 where
  pub trade_id : visible e.trade_id ≡ true
  pub symbol : visible e.symbol ≡ true
  pub starts : starts_clean e.symbol ≡ true
  pub ends : ends_clean e.symbol ≡ true
  pub price : (e.price.negative ≡ false) × (0 < e.price.coefficient)
  pub quantity : (e.quantity.negative ≡ false) × (0 < e.quantity.coefficient)

same_text : (s t : String) → as_text (text s) ≡ some t → t ≡ s
unfolding as_text
same_text s t h = cc

IsUsable-visible : (s : String) → IsUsable (some (text s)) → visible s ≡ true
IsUsable-visible s (t, e, v) = subst (λ (u : String). visible u ≡ true) (same_text s t e) v

IsCanonical-clean :
    (s : String)
    → IsCanonical (some (text s))
    → (visible s ≡ true) × (starts_clean s ≡ true) × (ends_clean s ≡ true)
IsCanonical-clean s (t, e, seen, starts, ends) =
    subst (λ (u : String). (visible u ≡ true) × (starts_clean u ≡ true) × (ends_clean u ≡ true))
      (same_text s t e) (seen, starts, ends)

acceptable : (e : InternalEvent) → IsTrustworthy (attributes e) → IsAcceptable e
unfolding attributes
acceptable e t =
    let clean = IsCanonical-clean e.symbol t.symbol in
    record {
      trade_id = IsUsable-visible e.trade_id t.trade_id;
      symbol = clean.0;
      starts = clean.1;
      ends = clean.2;
      price = t.price;
      quantity = t.quantity;
    }

named_source : (s : String) → visible (String.◌++◌ "coinbase:" s) ≡ true
unfolding visible is_space
named_source s = ap visible (cons-append "c" "oinbase:" s)

trustworthy :
    (runtime : Runtime) (raw : Fields) (e : InternalEvent) (z : ℤ)
    → Corresponds runtime raw e
    → runtime.now.tzinfo ≡ offset z
    → IsAcceptable e
    → IsTrustworthy (attributes e)
unfolding attributes as_text visible is_space
trustworthy runtime raw e z c now a =
    let (_, parsed, _, _, _, utc) = c.trade_timestamp in
    record {
      event_id = (e.event_id, refl, ap visible c.event_id ∙ named_source e.trade_id);
      source = (e.source, refl, ap visible c.source);
      trade_id = (e.trade_id, refl, a.trade_id);
      symbol = (e.symbol, refl, a.symbol, a.starts, a.ends);
      payload = tt;
      side = tt;
      price = a.price;
      quantity = a.quantity;
      trade_timestamp = (pos 0, ap (λ (d : Datetime). d.tzinfo) utc);
      received_at = (z, ap (λ (d : Datetime). d.tzinfo) c.received_at ∙ now);
    }

-- If a match message was prepared, and the clock shows a time with an offset, then the default
-- rules accept the event exactly if its trade's number is not all whitespace, its symbol neither is
-- nor has whitespace at an end, and its price and its quantity are above zero: preparation ensures
-- all else that the rules ask for.
pub prepare-validate :
    (runtime : Runtime) (raw : Fields) (e : InternalEvent) (z : ℤ)
    → prepare runtime (object raw) ≡ ok e
    → runtime.now.tzinfo ≡ offset z
    → Trusts default_rules (attributes e) ↔ IsAcceptable e
prepare-validate runtime raw e z h now =
    let accepted = validate-IsTrustworthy (attributes e) in
    (
      λ v. acceptable e (accepted.0 v),
      λ a. accepted.1 (trustworthy runtime raw e z (prepare-Corresponds runtime raw e h) now a),
    )
