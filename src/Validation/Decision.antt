-- ===== src/Validation/Decision.antt =====
-- The decision of the engine: which rules it has run, and that it trusts exactly the trustworthy.
use mathlib.Core.Path.{subst}
use mathlib.Core.List.{append-eq-nil_iff}
use cryptopulse.Prelude.{
  ◌≡◌, ◌↔◌, ◌∙◌, sym, ap, refl, inl, inr, Option-cases, true, List, [], ◌∷◌, arith, All, Option,
  none, some,
}
use cryptopulse.Python.Value.{Value}
use cryptopulse.Python.Call.{Call, returned, raised}
use cryptopulse.Contracts.Events.{Attributes}
use cryptopulse.Validation.Rules.{Rule, Failures, default_rules}
use cryptopulse.Validation.Engine.{execution_failed, is_nil}
use cryptopulse.Contracts.Validation.{ValidationOutcome}
use cryptopulse.Validation.Outcomes.{
  HasIdentity, finding, findings, outcome, Trusts, validate-outcome, validate-eq-returned,
}
use cryptopulse.Validation.Trustworthy.{IsUsable, IsCanonical, IsTrustworthy}
use cryptopulse.Validation.Checks.{
  validate_required_iff, validate_event_id_iff, validate_trade_id_iff, validate_symbol_iff,
  validate_side_iff, validate_price_iff, validate_quantity_iff, validate_timestamps_iff,
}

is_nil_iff : (fs : Failures) → (is_nil fs ≡ true) ↔ (fs ≡ [])
is_nil_iff [] = (λ h. refl, λ h. refl)
is_nil_iff (f ∷ fs) = (λ h. ground arith, λ h. ground arith)

abbrev pub Passes : Attributes → Rule → Type 0
Passes a rule = rule.validate a ≡ returned []

finding_iff : (a : Attributes) (rule : Rule) → (finding a rule ≡ []) ↔ Passes a rule
unfolding finding execution_failed
finding_iff a rule = go (rule.validate a) refl
  where
    go : (r : Call Failures) → rule.validate a ≡ r → (finding a rule ≡ []) ↔ Passes a rule
    go (returned fs) e = (λ h. ground (arith, e), λ p. ground (arith, e))
    go (raised x) e = (λ h. ground (arith, e), λ p. ground (arith, e))

findings_iff : (a : Attributes) (rules : List Rule) → (findings a rules ≡ []) ↔ All (Passes a) rules
findings_iff a [] = (λ h. tt, λ h. refl)
findings_iff a (rule ∷ rules) = (
  λ h.
      (let both = append-eq-nil_iff.0 h in
        ((finding_iff a rule).0 both.0, (findings_iff a rules).0 both.1)),
  λ p. append-eq-nil_iff.1 ((finding_iff a rule).1 p.0, (findings_iff a rules).1 p.1),
)

-- The engine returns an outcome that trusts the object exactly if the object has an event_id, and
-- every rule of its set returns, and returns no failure: one rule that fails or raises is enough to
-- reject, whatever the others say.
pub validate-All :
    (rules : List Rule) (a : Attributes) → Trusts rules a ↔ (HasIdentity a × All (Passes a) rules)
validate-All rules a = (
  λ (o, ran, valid).
      (let (has, is) = validate-eq-returned a rules o ran in
        let none_found : is_nil (findings a rules) ≡ true =
          ap (λ (x : ValidationOutcome). x.valid) (sym is) ∙ valid in
        (has, (findings_iff a rules).0 ((is_nil_iff _).0 none_found))),
  λ (has, p). (
    outcome rules a,
    validate-outcome a rules has,
    (is_nil_iff _).1 ((findings_iff a rules).1 p),
  ),
)

IsUsable-HasIdentity : (a : Attributes) → IsUsable a.event_id → HasIdentity a
IsUsable-HasIdentity a p = elim (Option-cases a.event_id) [
  | inl e ↦ absurd (subst IsUsable e p)
  | inr has ↦ has
]

IsCanonical-IsUsable : (o : Option Value) → IsCanonical o → IsUsable o
IsCanonical-IsUsable none p = p
IsCanonical-IsUsable (some v) p = (p.0, p.1, p.2)

-- The engine trusts an event under the platform's rules exactly if the event is trustworthy.
pub validate-IsTrustworthy : (a : Attributes) → Trusts default_rules a ↔ IsTrustworthy a
unfolding default_rules
validate-IsTrustworthy a =
    let engine = validate-All default_rules a in
    let required = validate_required_iff a in
    let event_id = validate_event_id_iff a in
    let trade_id = validate_trade_id_iff a in
    let symbol = validate_symbol_iff a in
    let side = validate_side_iff a in
    let price = validate_price_iff a in
    let quantity = validate_quantity_iff a in
    let times = validate_timestamps_iff a in
    (
      λ h.
          (let (_, p) = engine.0 h in
            let r = required.0 p.0 in
            let times_ok = times.0 p.1.1.1.1.1.1.1.0 in
            record {
              event_id = r.0;
              source = r.1;
              trade_id = r.3;
              symbol = symbol.0 p.1.1.1.0;
              payload = r.4;
              side = side.0 p.1.1.1.1.0;
              price = price.0 p.1.1.1.1.1.0;
              quantity = quantity.0 p.1.1.1.1.1.1.0;
              trade_timestamp = times_ok.0;
              received_at = times_ok.1;
            }),
      λ t. engine.1 (
        IsUsable-HasIdentity a t.event_id,
        (
          required.1
              (t.event_id, t.source, IsCanonical-IsUsable a.symbol t.symbol, t.trade_id, t.payload),
          (
            event_id.1 t.event_id,
            (
              trade_id.1 t.trade_id,
              (
                symbol.1 t.symbol,
                (
                  side.1 t.side,
                  (
                    price.1 t.price,
                    (quantity.1 t.quantity, (times.1 (t.trade_timestamp, t.received_at), tt)),
                  ),
                ),
              ),
            ),
          ),
        ),
      ),
    )
