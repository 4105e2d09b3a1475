-- ===== src/Aggregation/Prices.antt =====
-- The prices of a window: every trade's price lies between low and high.
use mathlib.Core.Path.{subst}
use native.Mathlib.Nat.{mul-le-mul_left, le_of_mul-le-mul_left, one-le-pow}
use cryptopulse.Prelude.{
  String, Option, none, some, length, ap, ℕ, ◌+◌, ◌*◌, ◌≤◌, ◌<◌, ◌≡◌, sym, refl, inl, inr, Bool,
  true, false, List, [], ◌∷◌, map, arith, leb→le, le→leb, Bool-cases, All,
}
use cryptopulse.Python.Decimal.{Decimal, positive, negated, divisor, le_decimal}
use cryptopulse.Prelude.Sort.{sort_by, length-sort_by, All-of_sort_by}
use cryptopulse.Python.Decimal.{is_non_positive, quantize, div}
use cryptopulse.Python.Datetime.{Datetime}
use cryptopulse.Contracts.Events.{TrustedEvent}
use cryptopulse.Contracts.Gold.{MarketWindow}
use cryptopulse.Warehouse.World.{ok}
use cryptopulse.Aggregation.{
  max_from, min_from, price_of, completed, no_totals, totals_from, window_of, aggregate_ordered,
  aggregate_window, event_le,
}

-- `x` is `p - n`: the difference of two numbers, over a divisor.
cross :
    (p n d p' n' d' p'' n'' d'' : ℕ)
    → 0 < d'
    → p * d' + n' * d ≤ p' * d + n * d'
    → p' * d'' + n'' * d' ≤ p'' * d' + n' * d''
    → p * d'' + n'' * d ≤ p'' * d + n * d''
cross p n d p' n' d' p'' n'' d'' h a b =
    let a' = mul-le-mul_left d'' a in
    let b' = mul-le-mul_left d b in
    let both : d' * (p * d'' + n'' * d) ≤ d' * (p'' * d + n * d'') = omega (arith, a', b') in
    le_of_mul-le-mul_left both h

divisor-positive : (a : Decimal) → 0 < divisor a
divisor-positive a = one-le-pow _ 10 (omega arith)

le_decimal_trans :
    (a b c : Decimal) → le_decimal a b ≡ true → le_decimal b c ≡ true → le_decimal a c ≡ true
unfolding le_decimal
le_decimal_trans a b c h k = le→leb _ _ (
    cross (positive a) (negated a) (divisor a) (positive b) (negated b) (divisor b) (positive c)
      (negated c) (divisor c) (divisor-positive b) (leb→le _ _ h) (leb→le _ _ k))

le_decimal-total : (a b : Decimal) → le_decimal a b ≡ false → le_decimal b a ≡ true
unfolding le_decimal
le_decimal-total a b h = ground arith

le_decimal_refl : (a : Decimal) → le_decimal a a ≡ true
unfolding le_decimal
le_decimal_refl a = le→leb _ _ (omega arith)

max_from-nil : (best : Decimal) → max_from best [] ≡ best
unfolding max_from
max_from-nil best = refl

min_from-nil : (best : Decimal) → min_from best [] ≡ best
unfolding min_from
min_from-nil best = refl

max_from-keep :
    (best p : Decimal) (ps : List Decimal)
    → le_decimal p best ≡ true
    → max_from best (p ∷ ps) ≡ max_from best ps
unfolding max_from
max_from-keep best p ps h = rw h refl

max_from-take :
    (best p : Decimal) (ps : List Decimal)
    → le_decimal p best ≡ false
    → max_from best (p ∷ ps) ≡ max_from p ps
unfolding max_from
max_from-take best p ps h = rw h refl

min_from-keep :
    (best p : Decimal) (ps : List Decimal)
    → le_decimal best p ≡ true
    → min_from best (p ∷ ps) ≡ min_from best ps
unfolding min_from
min_from-keep best p ps h = rw h refl

min_from-take :
    (best p : Decimal) (ps : List Decimal)
    → le_decimal best p ≡ false
    → min_from best (p ∷ ps) ≡ min_from p ps
unfolding min_from
min_from-take best p ps h = rw h refl

abbrev AtMost : Decimal → List Decimal → Type 0
AtMost high ps = All (λ p. le_decimal p high ≡ true) ps

abbrev AtLeast : Decimal → List Decimal → Type 0
AtLeast low ps = All (λ p. le_decimal low p ≡ true) ps

-- The maximum is at least its start and every price, the minimum at most.
max_from-AtMost : (best : Decimal) (ps : List Decimal) → AtMost (max_from best ps) (best ∷ ps)
max_from-AtMost best [] = rw (max_from-nil best) (le_decimal_refl best, tt)
max_from-AtMost best (p ∷ ps) = elim (Bool-cases (le_decimal p best)) [
  | inl h ↦
      (let rest = max_from-AtMost best ps in
        subst (λ (m : Decimal). AtMost m (best ∷ p ∷ ps)) (sym (max_from-keep best p ps h))
          (rest.0, (le_decimal_trans p best _ h rest.0, rest.1)))
  | inr h ↦
      (let rest = max_from-AtMost p ps in
        subst (λ (m : Decimal). AtMost m (best ∷ p ∷ ps)) (sym (max_from-take best p ps h))
          (le_decimal_trans best p _ (le_decimal-total p best h) rest.0, rest))
]

min_from-AtLeast : (best : Decimal) (ps : List Decimal) → AtLeast (min_from best ps) (best ∷ ps)
min_from-AtLeast best [] = rw (min_from-nil best) (le_decimal_refl best, tt)
min_from-AtLeast best (p ∷ ps) = elim (Bool-cases (le_decimal best p)) [
  | inl h ↦
      (let rest = min_from-AtLeast best ps in
        subst (λ (m : Decimal). AtLeast m (best ∷ p ∷ ps)) (sym (min_from-keep best p ps h))
          (rest.0, (le_decimal_trans _ best p rest.0 h, rest.1)))
  | inr h ↦
      (let rest = min_from-AtLeast p ps in
        subst (λ (m : Decimal). AtLeast m (best ∷ p ∷ ps)) (sym (min_from-take best p ps h))
          (le_decimal_trans _ p best rest.0 (le_decimal-total best p h), rest))
]

-- The price of every event is within the window's.
abbrev pub IsWithin : MarketWindow → TrustedEvent → Type 0
IsWithin w e = (le_decimal w.low e.price ≡ true) × (le_decimal e.price w.high ≡ true)

All-IsWithin :
    (low high : Decimal) (es : List TrustedEvent)
    → AtLeast low (map price_of es)
    → AtMost high (map price_of es)
    → All (λ e. (le_decimal low e.price ≡ true) × (le_decimal e.price high ≡ true)) es
All-IsWithin low high [] a b = tt
All-IsWithin low high (e ∷ es) a b = ((a.0, b.0), All-IsWithin low high es a.1 b.1)

completed-ok :
    (bad : Bool) (q : Option Decimal) (f : Decimal → MarketWindow) (w : MarketWindow)
    → completed bad q f ≡ ok w
    → (vwap : Decimal) × (bad ≡ false) × (q ≡ some vwap) × (w ≡ f vwap)
completed-ok true q f w h = cc
completed-ok false none f w h = cc
completed-ok false (some vwap) f w h = (vwap, refl, refl, cc)

module _ (symbol : String) (start finish computed_at : Datetime) (is_final : Bool) (scale : ℕ) where
  -- What an aggregate of `first` and `rest` holds.
  abbrev pub Aggregates : TrustedEvent → List TrustedEvent → MarketWindow → Type 0
  Aggregates first rest w =
      let t = totals_from no_totals (first ∷ rest) in
      (vwap : Decimal) × (is_non_positive t.total_quantity ≡ false)
      × (quantize (div t.notional t.total_quantity) scale ≡ some vwap)
      × (w ≡ window_of symbol start finish computed_at is_final scale first rest t vwap)

  aggregate_ordered-ok :
      (es : List TrustedEvent) (w : MarketWindow)
      → aggregate_ordered symbol start finish computed_at is_final scale es ≡ ok w
      → (first : TrustedEvent) × (rest : List TrustedEvent) × (es ≡ first ∷ rest)
        × Aggregates first rest w
  unfolding aggregate_ordered
  aggregate_ordered-ok [] w h = cc
  aggregate_ordered-ok (first ∷ rest) w h = (first, rest, refl, completed-ok _ _ _ w h)

  aggregate_window-ok :
      (events : List TrustedEvent) (w : MarketWindow)
      → aggregate_window symbol start finish computed_at is_final scale events ≡ ok w
      → aggregate_ordered symbol start finish computed_at is_final scale (sort_by event_le events)
        ≡ ok w
  unfolding aggregate_window
  aggregate_window-ok events w h = ground arith

-- If a window is aggregated, then it counts every event once, and the price of every event lies
-- between its low and its high.
pub aggregate_window-bounds :
    (symbol : String) (start finish computed_at : Datetime) (is_final : Bool) (scale : ℕ)
    (events : List TrustedEvent) (w : MarketWindow)
    → aggregate_window symbol start finish computed_at is_final scale events ≡ ok w
    → (w.trade_count ≡ length events) × All (IsWithin w) events
aggregate_window-bounds symbol start finish computed_at is_final scale events w h =
    let ordered = aggregate_window-ok symbol start finish computed_at is_final scale events w h in
    let (first, rest, same, a) =
      aggregate_ordered-ok symbol start finish computed_at is_final scale _ w ordered in
    let (vwap, positive, quotient, eq) = a in
    let out : MarketWindow =
      window_of symbol start finish computed_at is_final scale first rest
        (totals_from no_totals (first ∷ rest)) vwap in
    let counted = ap (λ (es : List TrustedEvent). length es) same in
    subst (λ (v : MarketWindow). (v.trade_count ≡ length events) × All (IsWithin v) events) (sym eq)
      (
        omega (arith, counted, length-sort_by event_le events),
        All-of_sort_by _ event_le events (
            subst (λ (es : List TrustedEvent). All (IsWithin out) es) (sym same)
              (All-IsWithin _ _ (first ∷ rest) (min_from-AtLeast first.price (map price_of rest))
                (max_from-AtMost first.price (map price_of rest)))),
      )
