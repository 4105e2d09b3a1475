-- ===== src/Trust/Rounds.antt =====
-- The validator returns for every event of Bronze, since these have an identity.
use cryptopulse.Prelude.{◌≡◌, refl, true, List}
use cryptopulse.Python.Value.{text}
use cryptopulse.Contracts.Events.{InternalEvent, attributes}
use cryptopulse.Contracts.Validation.{ValidationOutcome}
use cryptopulse.Validation.Rules.{Rule}
use cryptopulse.Validation.Outcomes.{HasIdentity, Trusts, outcome, validate-outcome}
use cryptopulse.Warehouse.World.{Environment, World, ok}
use cryptopulse.Trust.{TrustRoutingResult, validate_event, route, route_one}

attributes-HasIdentity : (e : InternalEvent) → HasIdentity (attributes e)
unfolding attributes
attributes-HasIdentity e = (text e.event_id, refl)

module _ (env : Environment) (rules : List Rule) where
  -- What the validator returns for the event.
  abbrev pub decide : InternalEvent → ValidationOutcome
  decide e = outcome rules (attributes e)

  pub validate_event-decide :
      (e : InternalEvent) (w : World) → validate_event env rules e w ≡ (ok (decide e), w)
  unfolding validate_event
  validate_event-decide e w =
      rw (validate-outcome (attributes e) rules (attributes-HasIdentity e)) refl

  pub decide-Trusts : (e : InternalEvent) → (decide e).valid ≡ true → Trusts rules (attributes e)
  decide-Trusts e h =
      (decide e, validate-outcome (attributes e) rules (attributes-HasIdentity e), h)

  -- One round routes by that outcome.
  pub route_one-route :
      (e : InternalEvent) (r : TrustRoutingResult) (w : World)
      → route_one env rules e r w ≡ route env rules e r (decide e) w
  unfolding route_one
  route_one-route e r w = rw (validate_event-decide e w) refl
