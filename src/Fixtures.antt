-- ===== src/Fixtures.antt =====
-- Values that the tests of several modules share: a book of one long holding and a policy.
use ibkr_auto_trader.Prelude.{ℕ, true, false, some, [], ◌∷◌}
use ibkr_auto_trader.Prelude.Int.{pos, negsuc}
use ibkr_auto_trader.Decimal.{Decimal}
use ibkr_auto_trader.Domain.{Datetime, HoldingValuation, available}
use ibkr_auto_trader.Domain.Context.{RiskContext}
use ibkr_auto_trader.Config.{RiskPolicy}

-- n · 10^-2
abbrev pub cents : ℕ → Decimal
cents n = record { negative = false; coef = n; exp = negsuc 1 }

abbrev pub noon : Datetime
noon = record { wall = pos 1000; offset = some (pos 0) }

abbrev pub held : HoldingValuation
held = record {
  quantity = pos 10;
  status = available;
  broker_market_value = some (cents 100000);
  mark_available_at = some (record { wall = pos 990; offset = some (pos 0) });
}

abbrev pub context : RiskContext
context = record {
  holdings = (7, held) ∷ [];
  net_liquidation = cents 1000000;
  buying_power = cents 2000000;
  maintenance_margin = cents 50000;
  prices = (7, cents 10000) ∷ [];
  price_basis = (7, "LAST") ∷ [];
  data_as_of = (7, noon) ∷ [];
  account_observed_at = noon;
  as_of = noon;
  context_digest = "context:1";
  generation = 3;
}

abbrev pub policy : RiskPolicy
policy = record {
  version = "v1";
  max_risk_per_trade = cents 1;
  daily_realized_lockout_pct = cents 3;
  session_drawdown_pct = cents 10;
  leverage_cap = cents 150;
  stop_loss_required = true;
}
