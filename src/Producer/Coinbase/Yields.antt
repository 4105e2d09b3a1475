-- ===== src/Producer/Coinbase/Yields.antt =====
-- What the reading of a connection yields.
use mathlib.Core.List.{append_assoc, append-nil}
use cryptopulse.Prelude.{
  ℕ, ◌≡◌, refl, sym, ap, ◌∙◌, inl, inr, String, false, List, [], ◌∷◌, ◌++◌, Option, none, some,
  if◌then◌else◌, arith, All,
}
use cryptopulse.Python.Value.{Fields}
use cryptopulse.Warehouse.World.{Error}
use cryptopulse.Producer.Settings.{get, is_match_type}
use cryptopulse.Producer.Coinbase.{
  emitted, Connector, Surroundings, lost, skip, emit, fail, act, decode, suspend, yield_payload,
  read,
}
use cryptopulse.Producer.Coinbase.Steps.{Action-cases, read_skip, read_emit}

-- What was yielded at the message, and then.
yields_on :
    (before now at at' rest : List Fields)
    → now ≡ before ++ at
    → at' ≡ at
    → now ++ rest ≡ before ++ (at' ++ rest)
yields_on before now at at' rest p q = rw p (rw q (append_assoc before at rest))

module _ (world : Surroundings) where
  -- The payload of a trade message; nothing, for any other message.
  abbrev pub if_trade : Option Fields → List Fields
  if_trade none = []
  if_trade (some payload) = if is_match_type (get "type" payload) then payload ∷ [] else []

  abbrev pub trades : List String → List Fields
  trades [] = []
  trades (message ∷ rest) = if_trade (decode world message) ++ trades rest

  -- The code does not raise at the message.
  abbrev pub IsHandled : String → Type 0
  IsHandled message = (e : Error) → act world message ≡ fail e → ⊥

  skip-if_trade :
      (message : String) → act world message ≡ skip → if_trade (decode world message) ≡ []
  unfolding act
  skip-if_trade message h = ground arith

  emit-if_trade :
      (message : String) (payload : Fields)
      → act world message ≡ emit payload
      → if_trade (decode world message) ≡ payload ∷ []
  unfolding act
  emit-if_trade message payload h = ground arith

  module _ (calm : (i : ℕ) → world.stops i ≡ false) where
    calm_suspend :
        (c : Connector)
        → ((suspend world c).stop_requested ≡ c.stop_requested)
          × ((suspend world c).yielded ≡ c.yielded)
    unfolding suspend
    calm_suspend c = rw (calm c.suspensions) (refl, refl)

    -- Unless the connector is stopped, reading the frames of a connection, at each of which the
    -- code does not raise, comes to the connection's loss, and has then yielded the payloads of all
    -- trade messages among them, and of these only, in order.
    pub read-yielded :
        (frames : List String) (failures : ℕ) (c : Connector)
        → c.stop_requested ≡ false
        → All IsHandled frames
        → ((read world frames failures c).0 ≡ lost)
          × ((read world frames failures c).2.yielded ≡ c.yielded ++ trades frames)
    unfolding read yield_payload
    read-yielded [] failures c go handled = (refl, (calm_suspend c).1 ∙ sym (append-nil c.yielded))
    read-yielded (message ∷ rest) failures c go handled =
        let d = suspend world c in
        let now = calm_suspend c in
        let on : d.stop_requested ≡ false = now.0 ∙ go in
        elim (Action-cases world (act world message)) [
          | inl h ↦
              let (end, same) = read-yielded rest 0 d on handled.1 in
              rw (read_skip world message rest failures c on h) (
                end,
                same
                    ∙ yields_on c.yielded d.yielded [] _ (trades rest)
                        (now.1 ∙ sym (append-nil c.yielded)) (skip-if_trade message h),
              )
          | inr (inl (payload, h)) ↦
              let e = record d {
                yielded = d.yielded ++ payload ∷ [];
                log = emitted payload ∷ d.log;
              } in
              let after = calm_suspend e in
              let (end, same) = read-yielded rest 0 (suspend world e) (after.0 ∙ on) handled.1 in
              rw (read_emit world message rest failures c on payload h) (
                end,
                same
                    ∙ yields_on c.yielded (suspend world e).yielded (payload ∷ []) _ (trades rest)
                        (after.1 ∙ ap (λ (l : List Fields). l ++ payload ∷ []) now.1)
                        (emit-if_trade message payload h),
              )
          | inr (inr (x, h)) ↦ absurd (handled.0 x h)
        ]
