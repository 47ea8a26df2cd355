-- ===== src/Planner/Sizing.antt =====
-- The sizing ladder of `plan`.
use ibkr_auto_trader.Prelude.{
  ℕ, ◌&&◌, ◌||◌, Option, none, some, String, not, ltb, min, ◌==◌, if◌then◌else◌,
}
use ibkr_auto_trader.Prelude.Result.{Result, ok, ◌>>=◌}
use ibkr_auto_trader.Decimal.{Decimal, is_positive, dec_abs, dec_sub, dec_mul, dec_div}
use ibkr_auto_trader.Domain.{Error, is_none}
use ibkr_auto_trader.Config.{RiskPolicy}
use ibkr_auto_trader.Planner.Intents.{Field, Raw, LotSize, Inputs, decimal_field, whole, round_lot}

pub record Sized : Type 0 where
  pub quantity : ℕ
  pub reason : Option String

-- The loss of one unit if the stop is hit, and the most that one trade may lose.
abbrev pub unit_loss : Decimal → Decimal → Decimal → Decimal
unit_loss price stop m = dec_mul (dec_abs (dec_sub price stop)) m

abbrev pub maximum_loss : RiskPolicy → Decimal → Decimal
maximum_loss policy nlv = dec_mul policy.max_risk_per_trade nlv

-- The quantity that the allowed loss leaves, in whole lots.
unfoldable pub reduce : ℕ → ℕ → Field LotSize → Result Error Sized
reduce requested allowed lot_size = do
  q ← round_lot (min requested allowed) lot_size
  ok (record {
    quantity = q;
    reason = if ltb q requested then some "reduced-to-max-risk" else none;
  })

-- The branch for an order with a stop.
unfoldable pub size_by_risk :
    RiskPolicy → ℕ → Decimal → Decimal → Field LotSize → Field Raw → Decimal → Result Error Sized
size_by_risk policy requested price stop lot_size multiplier nlv = do
  m ← decimal_field multiplier "multiplier"
  if not (is_positive (unit_loss price stop m)) || not (is_positive price)
      then ok (record { quantity = 0; reason = some "invalid-stop" })
      else reduce requested (whole (dec_div (maximum_loss policy nlv) (unit_loss price stop m)))
          lot_size

unfoldable pub size_order :
    RiskPolicy → Inputs → Field LotSize → Field Raw → Decimal → Result Error Sized
size_order policy i lot_size multiplier nlv =
    if policy.stop_loss_required && is_none i.stop
    then ok (record { quantity = 0; reason = some "stop-loss-required" })
    else if i.requested == 0
    then ok (record { quantity = 0; reason = some "zero-size" })
    else elim i.stop [
      | none ↦ ok (record { quantity = i.requested; reason = none })
      | some stop ↦ size_by_risk policy i.requested i.price stop lot_size multiplier nlv
    ]
