-- ===== src/Tests/Assembler.antt =====
-- A capture of one holding whose broker mark outranks the feed's price.
use ibkr_auto_trader.Prelude.{ℕ, ◌≡◌, refl, none, some, List, [], ◌∷◌}
use ibkr_auto_trader.Prelude.Int.{pos, ◌-ℤ◌}
use ibkr_auto_trader.Prelude.Result.{Result, ok}
use ibkr_auto_trader.Decimal.{finite}
use ibkr_auto_trader.Domain.{
  as_utc, available, validate_status, construct, is_utc, is_later, not_later,
}
use ibkr_auto_trader.Domain.Context.{
  RiskContext, mint_context, validate_context, validate_holding_marks, has_duplicate,
}
use ibkr_auto_trader.Gateway.{HeldPosition, AccountSnapshot, GatewayError}
use ibkr_auto_trader.MarketData.{
  QuoteField, QuoteBatch, select_causal, order_by_precedence, is_causal, scan, visit,
}
use ibkr_auto_trader.Session.{union}
use ibkr_auto_trader.Assembler.{
  Digest, capture, assemble, universe, holdings_of, valuation_of, held_by_id, price_all, price_by,
  candidates, finite_prices, seal,
}
use ibkr_auto_trader.Assembler.Capture.{IsCapture, capture-IsCapture}
use ibkr_auto_trader.Fixtures.{cents, noon}

abbrev holding : HeldPosition
holding = record {
  instrument_id = 7;
  symbol = "ABC";
  quantity = pos 10;
  broker_mark = some (finite (cents 10000));
  broker_market_value = some (finite (cents 100000));
  mark_available_at = some noon;
  valuation_status = available;
}

abbrev account : AccountSnapshot
account = record {
  net_liquidation = finite (cents 1000000);
  buying_power = finite (cents 2000000);
  maintenance_margin = finite (cents 50000);
  held = holding ∷ [];
  observed_at = noon;
  generation = 4;
}

abbrev last_price : QuoteField
last_price = record {
  value = some (finite (cents 9900));
  available_at = noon;
  basis = "LAST";
  event_at = none;
}

abbrev feed : List ℕ → QuoteBatch
feed ids = record { quotes = (7, last_price ∷ []) ∷ []; generation = 4; collected_at = noon }

abbrev digest : Digest
digest a holdings priced at = "context:1"

abbrev sealed_context : RiskContext
sealed_context = record {
  holdings =
      (
        7,
        record {
          quantity = pos 10;
          status = available;
          broker_market_value = some (cents 100000);
          mark_available_at = some noon;
        },
      )
      ∷ [];
  net_liquidation = cents 1000000;
  buying_power = cents 2000000;
  maintenance_margin = cents 50000;
  prices = (7, cents 10000) ∷ [];
  price_basis = (7, "BROKER_MARK") ∷ [];
  data_as_of = (7, noon) ∷ [];
  account_observed_at = noon;
  as_of = noon;
  context_digest = "context:1";
  generation = 4;
}

captured : capture digest (7 ∷ []) (ok account) feed noon 4 ≡ ok sealed_context
unfolding capture assemble holdings_of valuation_of held_by_id price_all price_by candidates
    finite_prices seal mint_context validate_context validate_holding_marks has_duplicate construct
    validate_status select_causal order_by_precedence is_causal scan visit is_utc is_later not_later
    as_utc ◌-ℤ◌ union
captured = refl

capture-IsCapture_example :
    (a : AccountSnapshot) × (◌≡◌ {A = Result GatewayError AccountSnapshot} (ok account) (ok a))
    × IsCapture (7 ∷ []) a (feed (universe a.held (7 ∷ []))) (as_utc noon) 4 sealed_context
capture-IsCapture_example =
    capture-IsCapture digest (7 ∷ []) (ok account) feed noon 4 sealed_context captured
