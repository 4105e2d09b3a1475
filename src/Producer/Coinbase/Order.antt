-- ===== src/Producer/Coinbase/Order.antt =====
-- The order in which a connector's session happens, told by its log, the newest first.
use cryptopulse.Prelude.{inl, inr, false, List, [], ◌∷◌, none, Bool-cases}
use cryptopulse.Producer.Coinbase.{
  Connector, Surroundings, Happening, attempted, slept_for, emitted, told_to_stop, suspend, close,
  disconnect,
}

-- No stop was requested.
abbrev pub IsUnstopped : List Happening → Type 0
IsUnstopped [] = Unit
IsUnstopped (told_to_stop ∷ l) = ⊥
IsUnstopped (_ ∷ l) = IsUnstopped l

-- Since the last sleep, or the beginning, nothing happened but requests to stop.
abbrev pub HasJustSlept : List Happening → Type 0
HasJustSlept [] = Unit
HasJustSlept (slept_for d ∷ l) = Unit
HasJustSlept (told_to_stop ∷ l) = HasJustSlept l
HasJustSlept (_ ∷ l) = ⊥

-- No payload was yielded after a request to stop, and no sleep was begun after one; and every
-- attempt to connect but the first came after a sleep of its own.
abbrev pub IsOrderly : List Happening → Type 0
IsOrderly [] = Unit
IsOrderly (attempted ∷ l) = HasJustSlept l × IsOrderly l
IsOrderly (slept_for d ∷ l) = IsUnstopped l × IsOrderly l
IsOrderly (emitted payload ∷ l) = IsUnstopped l × IsOrderly l
IsOrderly (told_to_stop ∷ l) = IsOrderly l

module _ (world : Surroundings) where
  pub suspend-HasJustSlept :
      (c : Connector) → HasJustSlept c.log → HasJustSlept (suspend world c).log
  unfolding suspend disconnect
  suspend-HasJustSlept c h = elim (Bool-cases (world.stops c.suspensions)) [
    | inl stop ↦ rw stop h
    | inr go ↦ rw go h
  ]

  pub close-HasJustSlept : (c : Connector) → HasJustSlept c.log → HasJustSlept (close world c).log
  unfolding close
  close-HasJustSlept c h = elim (Bool-cases c.context) [
    | inl held ↦ rw held (suspend-HasJustSlept (record c { context = false; ws = none }) h)
    | inr free ↦ rw free h
  ]
