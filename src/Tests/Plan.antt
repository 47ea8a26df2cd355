-- ===== src/Tests/Plan.antt =====
-- The planner and the projector at a book of one long holding.
use ibkr_auto_trader.Prelude.{◌≡◌, refl, true, false, none, some, arith, All}
use ibkr_auto_trader.Prelude.Dict.{values}
use ibkr_auto_trader.Prelude.Int.{pos, negsuc, ◌+ℤ◌, ◌-ℤ◌}
use ibkr_auto_trader.Prelude.Result.{ok}
use ibkr_auto_trader.Decimal.{
  finite, dec_zero, dec_le, dec_abs, dec_neg, dec_add, dec_sub, dec_mul, dec_div, signed, low_exp,
  max_zero, whole_part,
}
use ibkr_auto_trader.Domain.{buy}
use ibkr_auto_trader.Fixtures.{cents, noon, context, policy}
use ibkr_auto_trader.Projector.{OrderTerms, VerifiedProjection, project}
use ibkr_auto_trader.Projector.Figures.{
  IsProjectable, HasSoundSigns, IsPriced, IsStopLoss, project-IsProjectable, project_lem,
}
use ibkr_auto_trader.Planner.{
  named, Inputs, round_lot, wanted, key_of, decimal, size_by_risk, decimal_field, Intent, absent,
  value, int, RiskControlState, RiskPlan, Pydantic, plan, read_intent, size_order, outcome,
  try_project, whole, reduce,
}
use ibkr_auto_trader.Planner.Plans.{plan-IsStopLoss}

abbrev state : RiskControlState
state = record {
  policy = policy;
  session_date = 20000;
  realized_daily_pnl = dec_zero;
  observed_at = noon;
  session_generation = 3;
}

-- Buy a hundred at 100.00 with a stop at 97.00: a loss of 100.00 is allowed, so 33 are left.
abbrev intent : Intent
intent = record {
  instrument_id = value 7;
  con_id = absent;
  symbol = value "ABC";
  side = value (some buy);
  stop_price = value (some (finite (cents 9700)));
  price = absent;
  quantity = value (int (pos 100));
  target_weight = absent;
  lot_size = absent;
  multiplier = absent;
}

abbrev pydantic : Pydantic
pydantic = record { parse_id = λ s. none; message = "validation error" }

abbrev terms : OrderTerms
terms = record {
  instrument_id = 7;
  quantity = pos 33;
  side = buy;
  price = cents 10000;
  stop_price = some (cents 9700);
  multiplier = record { negative = false; coef = 1; exp = pos 0 };
}

abbrev figures_of_33 : VerifiedProjection
figures_of_33 = record {
  notional = cents 330000;
  incremental_buying_power_debit = cents 330000;
  resulting_gross_leverage = cents 43;
  maintenance_headroom = record { negative = true; coef = 280000; exp = negsuc 1 };
  resulting_concentration = cents 43;
  max_loss_if_stopped = cents 9900;
}

project_33 : project terms context ≡ ok figures_of_33
unfolding project dec_le dec_abs dec_neg dec_add dec_sub dec_mul dec_div signed low_exp max_zero
    ◌-ℤ◌ ◌+ℤ◌
project_33 = refl

terms-IsProjectable : IsProjectable terms context
terms-IsProjectable = project-IsProjectable terms context figures_of_33 project_33

project_lem_example : IsProjectable terms context × HasSoundSigns figures_of_33
project_lem_example = project_lem terms context figures_of_33 project_33

abbrev planned : RiskPlan
planned = record {
  symbol = named "ABC";
  side = buy;
  quantity = 33;
  stop_price = cents 9700;
  est_risk_amount = cents 9900;
  planner_projection = some figures_of_33;
  projection_is_authoritative = false;
  context_digest = "context:1";
  decision_generation = 3;
  session_generation = 3;
  policy_version = "v1";
  declined = false;
  decline_reason = some "reduced-to-max-risk";
}

plan_33 : plan pydantic intent context state ≡ ok planned
unfolding plan read_intent round_lot wanted key_of decimal size_order size_by_risk reduce outcome
    try_project decimal_field whole whole_part project dec_le dec_abs dec_neg dec_add dec_sub
    dec_mul dec_div signed low_exp max_zero ◌-ℤ◌ ◌+ℤ◌
plan_33 = refl

plan-IsStopLoss_example :
    (i : Inputs) × (read_intent intent context ≡ ok i)
    × IsStopLoss buy (some (cents 9700)) i.price
    × All IsPriced (values context.holdings)
plan-IsStopLoss_example =
    plan-IsStopLoss pydantic intent context state planned plan_33 refl (omega arith)
