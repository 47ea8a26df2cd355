-- ===== src/Projector/Figures.antt =====
-- Which orders `project` accepts, and what its figures satisfy.
use ibkr_auto_trader.Prelude.{
  ℕ, ◌≡◌, refl, ◌↔◌, inl, inr, true, false, Option, none, some, List, [], ◌∷◌, arith, any, All,
  nat_key, ◌==◌, Bool-cases, Option-cases,
}
use ibkr_auto_trader.Prelude.Dict.{Dict, lookup, values}
use ibkr_auto_trader.Prelude.Int.{ℤ, pos, ◌<ℤ◌}
use ibkr_auto_trader.Prelude.Result.{ok, Result-cases}
use ibkr_auto_trader.Decimal.{Decimal, decimal_of, dec_zero, is_positive, dec_le, dec_abs, dec_add}
use ibkr_auto_trader.Decimal.Signs.{
  dec_abs-negative, dec_mul-positive, dec_mul-negative, dec_div-negative, max_zero-negative,
}
use ibkr_auto_trader.Domain.{Side, buy, sell, HoldingValuation, available}
use ibkr_auto_trader.Domain.Context.{RiskContext}
use ibkr_auto_trader.Projector.{
  OrderTerms, VerifiedProjection, is_unavailable, stop_misplaced, existing_value, gross_from,
  figures, not_positive, stop_distance, project,
}

-- An available holding that carries a value.
abbrev pub IsPriced : HoldingValuation → Type 0
IsPriced h = (h.status ≡ available) × (mv : Decimal) × (h.broker_market_value ≡ some mv)

-- A stop is absent, or lies strictly on the losing side of the price.
abbrev pub IsStopLoss : Side → Option Decimal → Decimal → Type 0
IsStopLoss side none price = Unit
IsStopLoss buy (some stop) price = (is_positive stop ≡ true) × (dec_le price stop ≡ false)
IsStopLoss sell (some stop) price = (is_positive stop ≡ true) × (dec_le stop price ≡ false)

pub record IsProjectable (t : OrderTerms) (c : RiskContext) : Type 0 where
  pub priced : All IsPriced (values c.holdings)
  pub quantity : pos 0 <ℤ t.quantity
  pub price : is_positive t.price ≡ true
  pub multiplier : is_positive t.multiplier ≡ true
  pub stop : IsStopLoss t.side t.stop_price t.price
  pub net_liquidation : is_positive c.net_liquidation ≡ true

lookup-All :
    (P : HoldingValuation → Type 0) (k : ℕ) (d : Dict ℕ HoldingValuation) {h : HoldingValuation}
    → All P (values d)
    → lookup k d ≡ some h
    → P h
lookup-All P k [] a e = absurd (ground arith)
lookup-All P k ((j, w) ∷ d) {h} a e = elim (Bool-cases (k == j)) [
  | inl here ↦ let same : w ≡ h = ground arith in rw (← same) a.0
  | inr there ↦ lookup-All P k d a.1 (ground arith)
]

gross_from-ok :
    (acc : Decimal) (hs : List HoldingValuation)
    → All IsPriced hs
    → (g : Decimal) × (gross_from acc hs ≡ ok g)
unfolding gross_from
gross_from-ok acc [] a = (acc, refl)
gross_from-ok acc (h ∷ hs) a =
    let (g, e) = gross_from-ok (dec_add acc (dec_abs a.0.1)) hs a.1 in (g, rw a.0.2 e)

gross_from-IsPriced :
    (acc : Decimal) (hs : List HoldingValuation) {g : Decimal}
    → any is_unavailable hs ≡ false
    → gross_from acc hs ≡ ok g
    → All IsPriced hs
unfolding gross_from
gross_from-IsPriced acc [] n e = tt
gross_from-IsPriced acc (h ∷ hs) {g} n e = elim (Option-cases h.broker_market_value) [
  | inl missing ↦ absurd (ground arith)
  | inr (mv, found) ↦ (
    (ground arith, mv, found),
    gross_from-IsPriced (dec_add acc (dec_abs mv)) hs {g = g} (ground arith) (ground arith),
  )
]

any-IsPriced : (hs : List HoldingValuation) → All IsPriced hs → any is_unavailable hs ≡ false
any-IsPriced [] a = refl
any-IsPriced (h ∷ hs) a = ground (arith, any-IsPriced hs a.1)

stop_misplaced_iff :
    (side : Side) (stop : Option Decimal) (price : Decimal)
    → (stop_misplaced side stop price ≡ false) ↔ IsStopLoss side stop price
stop_misplaced_iff buy none price = (λ h. tt, λ h. refl)
stop_misplaced_iff sell none price = (λ h. tt, λ h. refl)
stop_misplaced_iff buy (some stop) price = (λ h. ground arith, λ h. ground arith)
stop_misplaced_iff sell (some stop) price = (λ h. ground arith, λ h. ground arith)

existing_value-ok :
    (k : ℕ) (d : Dict ℕ HoldingValuation)
    → All IsPriced (values d)
    → (mv : Decimal) × (existing_value (lookup k d) ≡ ok mv)
existing_value-ok k d a = elim (Option-cases (lookup k d)) [
  | inl missing ↦ (dec_zero, rw missing)
  | inr (h, found) ↦ (let (_, mv, e) = lookup-All IsPriced k d a found in (mv, rw (found, e)))
]

-- Every order that meets the conditions is projected, so the checks are the only way to fail.
pub IsProjectable-project :
    (t : OrderTerms) (c : RiskContext)
    → IsProjectable t c
    → (p : VerifiedProjection) × (project t c ≡ ok p)
unfolding project
IsProjectable-project t c v =
    let (mv, e) = existing_value-ok t.instrument_id c.holdings v.priced in
    let (g, s) = gross_from-ok dec_zero (values c.holdings) v.priced in
    (
      figures t c mv g,
      ground (
        arith,
        any-IsPriced (values c.holdings) v.priced,
        (stop_misplaced_iff t.side t.stop_price t.price).1 v.stop,
      ),
    )

project-parts :
    (t : OrderTerms) (c : RiskContext) (p : VerifiedProjection)
    → project t c ≡ ok p
    → (mv : Decimal) × (g : Decimal) × (any is_unavailable (values c.holdings) ≡ false)
      × (not_positive t ≡ false)
      × (stop_misplaced t.side t.stop_price t.price ≡ false)
      × (gross_from dec_zero (values c.holdings) ≡ ok g)
      × (is_positive c.net_liquidation ≡ true)
      × (p ≡ figures t c mv g)
unfolding project
project-parts t c p h = elim (Result-cases (existing_value (lookup t.instrument_id c.holdings))) [
  | inr (e, no_value) ↦ absurd (ground arith)
  | inl (mv, value) ↦ elim (Result-cases (gross_from dec_zero (values c.holdings))) [
    | inr (e, no_gross) ↦ absurd (ground arith)
    | inl (g, gross) ↦
        (mv, g, ground arith, ground arith, ground arith, gross, ground arith, ground arith)
  ]
]

-- What `project` returns a projection for, and nothing else.
pub project-IsProjectable :
    (t : OrderTerms) (c : RiskContext) (p : VerifiedProjection)
    → project t c ≡ ok p
    → IsProjectable t c
project-IsProjectable t c p h =
    let (mv, g, held, signs, stop, gross, nlv, e) = project-parts t c p h in
    record {
      priced = gross_from-IsPriced dec_zero (values c.holdings) held gross;
      quantity = ground arith;
      price = ground arith;
      multiplier = ground arith;
      stop = (stop_misplaced_iff t.side t.stop_price t.price).0 stop;
      net_liquidation = nlv;
    }

-- The signs of the figures that rules read: a projected order has a positive notional, and its
-- buying-power debit, its concentration and its loss at the stop are not negative.
pub record HasSoundSigns (p : VerifiedProjection) : Type 0 where
  pub notional : is_positive p.notional ≡ true
  pub debit : p.incremental_buying_power_debit.negative ≡ false
  pub concentration : p.resulting_concentration.negative ≡ false
  pub max_loss : p.max_loss_if_stopped.negative ≡ false

stop_distance-negative :
    (stop : Option Decimal) (price : Decimal) → (stop_distance stop price).negative ≡ false
stop_distance-negative none price = refl
stop_distance-negative (some stop) price = dec_abs-negative _

decimal_of-positive : (q : ℤ) → pos 0 <ℤ q → is_positive (decimal_of q) ≡ true
decimal_of-positive q h = ground arith

figures-HasSoundSigns :
    (t : OrderTerms) (c : RiskContext) (mv g : Decimal)
    → IsProjectable t c
    → HasSoundSigns (figures t c mv g)
unfolding figures
figures-HasSoundSigns t c mv g v =
    let q = decimal_of-positive t.quantity v.quantity in
    record {
      notional = dec_mul-positive _ _ (dec_mul-positive _ _ q v.price) v.multiplier;
      debit = max_zero-negative _;
      concentration = dec_div-negative _ _ (dec_abs-negative _) (ground arith);
      max_loss =
          dec_mul-negative _ _
            (dec_mul-negative _ _ (ground arith) (stop_distance-negative t.stop_price t.price))
            (ground arith);
    }

-- A projection is returned only for a positive order with a stop that is absent or strictly on the
-- losing side, over holdings that are all available and valued, and its notional is positive, its
-- debit, concentration and loss at the stop are not negative.
pub project_lem :
    (t : OrderTerms) (c : RiskContext) (p : VerifiedProjection)
    → project t c ≡ ok p
    → IsProjectable t c × HasSoundSigns p
project_lem t c p h =
    let v = project-IsProjectable t c p h in
    let (mv, g, _, _, _, _, _, e) = project-parts t c p h in
    (v, rw e (figures-HasSoundSigns t c mv g v))
