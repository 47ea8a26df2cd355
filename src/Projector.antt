-- ===== src/Projector.antt =====
-- src/ibkr_trader/risk/projector.py, with `OrderTerms` of risk/order_terms.py. `project` is handed
-- a control state that it does not read, so the model does without it. Every `Decimal` in these
-- frozen models is finite (pydantic refuses the others), so the finiteness guards have no case.
pub mod Figures
use ibkr_auto_trader.Prelude.{
  ℕ, Bool, true, false, ◌&&◌, ◌||◌, not, Option, none, some, String, List, [], ◌∷◌, any,
  if◌then◌else◌, Key, nat_key,
}
use ibkr_auto_trader.Prelude.Dict.{Dict, lookup, values}
use ibkr_auto_trader.Prelude.Int.{ℤ, pos, ltb_ℤ}
use ibkr_auto_trader.Prelude.Result.{Result, ok, err, ◌>>=◌, ◌>>◌, raise_if}
use ibkr_auto_trader.Decimal.{
  Decimal, decimal_of, dec_zero, is_positive, dec_le, dec_abs, dec_neg, dec_add, dec_sub, dec_mul,
  dec_div, max_zero,
}
use ibkr_auto_trader.Domain.{
  Side, buy, sell, HoldingValuation, is_available, Error, value_error, unpriced_holding,
}
use ibkr_auto_trader.Domain.Context.{RiskContext}

pub record OrderTerms : Type 0 where
  pub instrument_id : ℕ
  pub quantity : ℤ
  pub side : Side
  pub price : Decimal
  pub stop_price : Option Decimal
  pub multiplier : Decimal

pub record VerifiedProjection : Type 0 where
  pub notional : Decimal
  pub incremental_buying_power_debit : Decimal
  pub resulting_gross_leverage : Decimal
  pub maintenance_headroom : Decimal
  pub resulting_concentration : Decimal
  pub max_loss_if_stopped : Decimal

abbrev pub is_unavailable : HoldingValuation → Bool
is_unavailable h = not (is_available h.status)

-- A stop on the safe side of the price, or one that is not positive.
abbrev pub wrong_side : Side → Decimal → Decimal → Bool
wrong_side buy stop price = not (is_positive stop) || dec_le price stop
wrong_side sell stop price = not (is_positive stop) || dec_le stop price

abbrev pub stop_misplaced : Side → Option Decimal → Decimal → Bool
stop_misplaced side none price = false
stop_misplaced side (some stop) price = wrong_side side stop price

abbrev pub value_of : HoldingValuation → Result Error Decimal
value_of h = elim h.broker_market_value [
  | none ↦ err (unpriced_holding "holding has no finite broker market value")
  | some mv ↦ ok mv
]

-- `existing_mv`: zero where the instrument is not held
abbrev pub existing_value : Option HoldingValuation → Result Error Decimal
existing_value none = ok dec_zero
existing_value (some h) = value_of h

-- The loop that sums the absolute values.
unfoldable pub gross_from : Decimal → List HoldingValuation → Result Error Decimal
gross_from acc [] = ok acc
gross_from acc (h ∷ hs) = elim (value_of h) [
  | ok mv ↦ gross_from (dec_add acc (dec_abs mv)) hs
  | err e ↦ err e
]

abbrev pub signed_order : Side → Decimal → Decimal
signed_order buy notional = notional
signed_order sell notional = dec_neg notional

abbrev pub stop_distance : Option Decimal → Decimal → Decimal
stop_distance none price = dec_zero
stop_distance (some stop) price = dec_abs (dec_sub price stop)

abbrev pub notional_of : OrderTerms → Decimal
notional_of t = dec_mul (dec_mul (decimal_of t.quantity) t.price) t.multiplier

-- The figures, once every check has passed.
unfoldable pub figures : OrderTerms → RiskContext → Decimal → Decimal → VerifiedProjection
figures t context existing_mv gross =
    let notional = notional_of t in
    let resulting_mv = dec_add existing_mv (signed_order t.side notional) in
    let resulting_gross = dec_add (dec_sub gross (dec_abs existing_mv)) (dec_abs resulting_mv) in
    record {
      notional = notional;
      incremental_buying_power_debit =
          max_zero (dec_sub (dec_abs resulting_mv) (dec_abs existing_mv));
      resulting_gross_leverage = dec_div resulting_gross context.net_liquidation;
      maintenance_headroom = dec_sub context.maintenance_margin notional;
      resulting_concentration = dec_div (dec_abs resulting_mv) context.net_liquidation;
      max_loss_if_stopped =
          dec_mul (dec_mul (decimal_of t.quantity) (stop_distance t.stop_price t.price))
            t.multiplier;
    }

abbrev pub not_positive : OrderTerms → Bool
not_positive t =
    not (ltb_ℤ (pos 0) t.quantity) || not (is_positive t.price) || not (is_positive t.multiplier)

-- `PortfolioProjector.project`
unfoldable pub project : OrderTerms → RiskContext → Result Error VerifiedProjection
unfolding figures gross_from
project t context = do
  raise_if (any is_unavailable (values context.holdings))
      (unpriced_holding "cannot project a portfolio containing an UNAVAILABLE holding")
  raise_if (not_positive t)
      (value_error "quantity, price, and multiplier must be positive finite values")
  raise_if (stop_misplaced t.side t.stop_price t.price)
      (value_error "stop_price is on the wrong side of the order")
  existing_mv ← existing_value (lookup t.instrument_id context.holdings)
  gross ← gross_from dec_zero (values context.holdings)
  raise_if (not (is_positive context.net_liquidation))
      (value_error "net_liquidation must be positive")
  ok (figures t context existing_mv gross)
