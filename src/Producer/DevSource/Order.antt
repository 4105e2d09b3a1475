-- ===== src/Producer/DevSource/Order.antt =====
-- What the development source yields.
use mathlib.Core.List.{append_assoc, append-nil}
use cryptopulse.Prelude.{
  ℕ, suc, ◌≡◌, refl, sym, ap, ◌∙◌, inl, inr, Bool, false, not, ◌||◌, ltb, List, [], ◌∷◌, ◌++◌, take,
  Bool-cases,
}
use cryptopulse.Python.Value.{Fields}
use cryptopulse.Warehouse.World.{ok}
use cryptopulse.Producer.Coinbase.{ConnectionState, connected, is_connected}
use cryptopulse.Producer.DevSource.{
  DevConnector, connect, disconnect, suspend, pause, yield_payload, stream_events, stream,
}

module _ (stops : ℕ → Bool) where
  suspend-yielded : (c : DevConnector) → (suspend stops c).yielded ≡ c.yielded
  unfolding suspend disconnect
  suspend-yielded c = elim (Bool-cases (stops c.suspensions)) [
    | inl s ↦ rw s refl
    | inr s ↦ rw s refl
  ]

  pause-yielded : (c : DevConnector) → (pause stops c).yielded ≡ c.yielded
  unfolding pause
  pause-yielded c = elim (Bool-cases (ltb 0 c.interval)) [
    | inl s ↦ rw s (suspend-yielded c)
    | inr s ↦ rw s refl
  ]

  yield_payload-yielded :
      (raw : Fields) (c : DevConnector)
      → (yield_payload stops raw (pause stops c)).yielded ≡ c.yielded ++ raw ∷ []
  unfolding yield_payload
  yield_payload-yielded raw c =
      suspend-yielded (record (pause stops c) { yielded = (pause stops c).yielded ++ raw ∷ [] })
      ∙ ap (λ (l : List Fields). l ++ raw ∷ []) (pause-yielded c)

  stream_events-take :
      (events : List Fields) (c : DevConnector)
      → (k : ℕ) × ((stream_events stops events c).yielded ≡ c.yielded ++ take k events)
  unfolding stream_events
  stream_events-take [] c = (0, sym (append-nil c.yielded))
  stream_events-take (raw ∷ rest) c =
      elim (Bool-cases (c.stop_requested || not (is_connected c.state))) [
        | inl over ↦ (0, rw (stream_events, over) (sym (append-nil c.yielded)))
        | inr go ↦
            let d = yield_payload stops raw (pause stops c) in
            let (k, e) = stream_events-take rest d in
            (
              suc k,
              rw (stream_events, go)
                  (e
                    ∙ (ap (λ (l : List Fields). l ++ take k rest) (yield_payload-yielded raw c)
                        ∙ append_assoc c.yielded (raw ∷ []) (take k rest))),
            )
      ]

  module _ (calm : (i : ℕ) → stops i ≡ false) where
    calm_suspend :
        (c : DevConnector) → suspend stops c ≡ record c { suspensions = suc c.suspensions }
    unfolding suspend
    calm_suspend c = rw (calm c.suspensions) refl

    calm_pause :
        (c : DevConnector)
        → ((pause stops c).stop_requested ≡ c.stop_requested) × ((pause stops c).state ≡ c.state)
    unfolding pause
    calm_pause c = elim (Bool-cases (ltb 0 c.interval)) [
      | inl s ↦ rw s (rw (calm_suspend c) (refl, refl))
      | inr s ↦ rw s (refl, refl)
    ]

    calm_yield :
        (raw : Fields) (c : DevConnector)
        → c.stop_requested || not (is_connected c.state) ≡ false
        → (yield_payload stops raw (pause stops c)).stop_requested
            || not (is_connected (yield_payload stops raw (pause stops c)).state)
          ≡ false
    unfolding yield_payload suspend
    calm_yield raw c go =
        let (same_stop, same_state) = calm_pause c in
        rw (calm (pause stops c).suspensions) (
          ap (λ (b : Bool). b || not (is_connected (pause stops c).state)) same_stop
          ∙ (ap (λ (x : ConnectionState). c.stop_requested || not (is_connected x)) same_state
              ∙ go))

    stream_events_all :
        (events : List Fields) (c : DevConnector)
        → c.stop_requested || not (is_connected c.state) ≡ false
        → (stream_events stops events c).yielded ≡ c.yielded ++ events
    unfolding stream_events
    stream_events_all [] c go = sym (append-nil c.yielded)
    stream_events_all (raw ∷ rest) c go =
        let d = yield_payload stops raw (pause stops c) in
        rw (stream_events, go)
          (stream_events_all rest d (calm_yield raw c go)
            ∙ (ap (λ (l : List Fields). l ++ rest) (yield_payload-yielded raw c)
                ∙ append_assoc c.yielded (raw ∷ []) rest))

    -- A source that was not connected, is connected, and is not stopped, yields its whole script.
    stream_all :
        (c : DevConnector)
        → is_connected c.state ≡ false
        → (stream stops (connect c)).1.yielded ≡ c.yielded ++ c.events
    unfolding stream connect is_connected
    stream_all c h =
        rw h
          (stream_events_all c.events (record c { state = connected; stop_requested = false }) refl)

  -- The stream of a source that has been connected raises nothing, and whatever stops it, it has
  -- yielded a number of the first events of the script, in the script's order.
  pub stream-take :
      (c : DevConnector)
      → ((stream stops (connect c)).0 ≡ ok tt)
        × ((k : ℕ) × ((stream stops (connect c)).1.yielded ≡ c.yielded ++ take k c.events))
  unfolding stream connect is_connected
  stream-take c = elim (Bool-cases (is_connected c.state)) [
    | inl on ↦ rw (on, on) (refl, stream_events-take c.events c)
    | inr off ↦
        rw off (
          refl,
          stream_events-take c.events (record c { state = connected; stop_requested = false }),
        )
  ]
