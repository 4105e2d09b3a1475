-- ===== src/Producer/Coinbase/Fatal.antt =====
-- What can end a session with an exception.
use mathlib.Core.Path.{subst}
use cryptopulse.Prelude.{ℕ, ◌≡◌, inl, inr, String, List, [], ◌∷◌, Option, none, some, Bool-cases}
use cryptopulse.Python.Value.{Fields}
use cryptopulse.Producer.Settings.{get, is_hashable, is_match_type}
use cryptopulse.Warehouse.World.{Error, Result, ok, err, exchange_error, type_error, os_error}
use cryptopulse.Producer.Coinbase.{
  Connector, Surroundings, Attempt, refused, unsubscribed, accepted, Read, raised, Action, fail,
  suspend, open_connection, reconnect, act, yield_payload, read, entered, now_connected,
  act_on_payload, is_error, decode,
}
use cryptopulse.Producer.Coinbase.Steps.{
  Action-cases, read-stopped, read_skip, read_emit, read_fail,
}

-- What can end a session with an exception: the exchange's error, a message whose type cannot be
-- hashed, or a connection that cannot be opened.
abbrev pub IsFatal : Error → Type 0
IsFatal (exchange_error s) = Unit
IsFatal (type_error s) = Unit
IsFatal os_error = Unit
IsFatal _ = ⊥

abbrev pub RaisesFatal : Result (Unit {0}) → Type 0
RaisesFatal (ok u) = Unit
RaisesFatal (err e) = IsFatal e

abbrev pub ReadsFatal : Read → Type 0
ReadsFatal (raised e) = IsFatal e
ReadsFatal _ = Unit

abbrev ActsFatal : Action → Type 0
ActsFatal (fail e) = IsFatal e
ActsFatal _ = Unit

module _ (world : Surroundings) where
  payload-ActsFatal : (payload : Option Fields) → ActsFatal (act_on_payload world payload)
  payload-ActsFatal none = tt
  payload-ActsFatal (some payload) = elim (Bool-cases (is_error world (get "type" payload))) [
    | inl e ↦ rw e tt
    | inr e ↦ elim (Bool-cases (is_hashable (get "type" payload))) [
      | inl h ↦ elim (Bool-cases (is_match_type (get "type" payload))) [
        | inl m ↦ rw e (rw h (rw m tt))
        | inr m ↦ rw e (rw h (rw m tt))
      ]
      | inr h ↦ rw e (rw h tt)
    ]
  ]

  act-ActsFatal : (message : String) (e : Error) → act world message ≡ fail e → IsFatal e
  unfolding act
  act-ActsFatal message e h = subst ActsFatal h (payload-ActsFatal (decode world message))

  pub read-ReadsFatal :
      (frames : List String) (failures : ℕ) (c : Connector)
      → ReadsFatal (read world frames failures c).0
  unfolding read yield_payload
  read-ReadsFatal [] failures c = tt
  read-ReadsFatal (message ∷ rest) failures c = elim (Bool-cases (suspend world c).stop_requested) [
    | inl stop ↦ rw (read-stopped world message rest failures c stop) tt
    | inr go ↦ elim (Action-cases world (act world message)) [
      | inl h ↦ rw (read_skip world message rest failures c go h) (read-ReadsFatal rest 0 _)
      | inr (inl (payload, h)) ↦
          rw (read_emit world message rest failures c go payload h) (read-ReadsFatal rest 0 _)
      | inr (inr (e, h)) ↦
          rw (read_fail world message rest failures c go e h) (act-ActsFatal message e h)
    ]
  ]

  entered-RaisesFatal :
      (a : Attempt) (c : Connector) → RaisesFatal (now_connected world (entered world a c)).0
  entered-RaisesFatal refused c = tt
  entered-RaisesFatal (unsubscribed frames) c = tt
  entered-RaisesFatal (accepted frames) c = tt

  pub reconnect-RaisesFatal : (c : Connector) → RaisesFatal (reconnect world c).0
  unfolding reconnect open_connection
  reconnect-RaisesFatal c = entered-RaisesFatal _ _
