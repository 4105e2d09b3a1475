-- ===== src/Trust.antt =====
-- processing/validation/service.py: routing of Bronze events into Silver or Quarantine.
-- The validator is an engine with any list of rules. Logging is left out.
pub mod Rounds
pub mod Frame
pub mod Safety
pub mod Routing
pub mod Passes
pub mod Starvation
use cryptopulse.Prelude.{String, Bool, true, false, str_eq, List, [], ◌∷◌, ◌++◌, if◌then◌else◌}
use cryptopulse.Prelude.Int.{ℤ, pos, ltb_ℤ}
use cryptopulse.Python.Call.{Call, returned, raised}
use cryptopulse.Contracts.Events.{InternalEvent, attributes}
use cryptopulse.Contracts.Validation.{ValidationOutcome}
use cryptopulse.Validation.Rules.{Rule}
use cryptopulse.Validation.Engine.{validate, trusted_event_from}
use cryptopulse.Warehouse.World.{
  Environment, ok, err, value_error, raised_error, Action, pure, check, now, ◌>>=◌, ◌>>◌,
}
use cryptopulse.Warehouse.Bronze
use cryptopulse.Warehouse.Silver
use cryptopulse.Warehouse.Quarantine

-- `TrustRoutingResult`; `outcomes` is a dict, in insertion order.
pub record TrustRoutingResult : Type 0 where
  pub validated : List InternalEvent
  pub quarantined : List InternalEvent
  pub outcomes : List (String × ValidationOutcome)

abbrev pub nothing_routed : TrustRoutingResult
nothing_routed = record { validated = []; quarantined = []; outcomes = [] }

abbrev or_raise {ℓ} : {A : Type ℓ} → Call A → Action A
or_raise (returned a) w = (ok a, w)
or_raise (raised x) w = (err (raised_error x.kind x.message), w)

-- `d[k] = v`
unfoldable pub set_item :
    String
    → ValidationOutcome
    → List (String × ValidationOutcome)
    → List (String × ValidationOutcome)
set_item k v [] = (k, v) ∷ []
set_item k v ((j, x) ∷ d) = if str_eq j k then (k, v) ∷ d else (j, x) ∷ set_item k v d

module _ (env : Environment) (rules : List Rule) where
  -- `self._validator.validate(event)`
  unfoldable pub validate_event : InternalEvent → Action ValidationOutcome
  validate_event event = or_raise (validate rules (attributes event))

  -- `_route_to_silver`
  unfoldable pub route_to_silver : InternalEvent → Action (Unit {0})
  route_to_silver event = do
    validated_at ← now env
    Silver.append env (trusted_event_from validated_at event)

  -- `_route_to_quarantine`
  unfoldable pub route_to_quarantine : InternalEvent → ValidationOutcome → Action (Unit {0})
  route_to_quarantine event outcome = do
    quarantined_at ← now env
    Quarantine.append_record env event quarantined_at outcome.failures

  -- `process_event`
  unfoldable pub process_event : InternalEvent → Action ValidationOutcome
  unfolding route_to_silver route_to_quarantine validate_event
  process_event event = do
    outcome ← validate_event event
    if outcome.valid
        then (do route_to_silver event; pure outcome)
        else (do route_to_quarantine event outcome; pure outcome)

  -- What one round of the loop of `process_batch` does with the outcome, on the result so far.
  unfoldable pub route :
      InternalEvent → TrustRoutingResult → ValidationOutcome → Action TrustRoutingResult
  unfolding route_to_silver route_to_quarantine
  route event result outcome =
      if outcome.valid
      then (do
        route_to_silver event
        pure (record result { validated = result.validated ++ event ∷ [] }))
      else (do
        route_to_quarantine event outcome
        pure (record result {
          quarantined = result.quarantined ++ event ∷ [];
          outcomes = set_item event.event_id outcome result.outcomes;
        }))

  unfoldable pub route_one : InternalEvent → TrustRoutingResult → Action TrustRoutingResult
  unfolding route validate_event
  route_one event result = do outcome ← validate_event event; route event result outcome

  unfoldable pub route_all : List InternalEvent → TrustRoutingResult → Action TrustRoutingResult
  unfolding route_one
  route_all [] result = pure result
  route_all (event ∷ events) result = do result' ← route_one event result; route_all events result'

  -- `process_batch`
  unfoldable pub process_batch : ℤ → Action TrustRoutingResult
  unfolding route_all
  process_batch limit = do
    check (ltb_ℤ limit (pos 1)) (value_error "limit must be >= 1")
    events ← Bronze.replay env (pos 0) limit
    route_all events nothing_routed
