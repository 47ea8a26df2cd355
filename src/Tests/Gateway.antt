-- ===== src/Tests/Gateway.antt =====
-- A paper gateway whose first attempt fails, its snapshot, and the reconciled store.
use text.Mathlib.Text.{starts_with}
use ibkr_auto_trader.Prelude.{
  ◌≡◌, ◌≤◌, ◌↔◌, true, false, none, some, String, List, [], ◌∷◌, ◌+◌, All, text_key, nat_key,
}
use ibkr_auto_trader.Prelude.Dict.{Dict, lookup}
use ibkr_auto_trader.Prelude.Int.{pos, negsuc}
use ibkr_auto_trader.Prelude.Result.{ok, err}
use ibkr_auto_trader.Config.{paper}
use ibkr_auto_trader.Decimal.{finite}
use ibkr_auto_trader.Domain.{available}
use ibkr_auto_trader.Store.{StateStore, all_positions, positions_of, position}
use ibkr_auto_trader.Store.Positions.{HasUniqueIds}
use ibkr_auto_trader.Session.{get_or_zero}
use ibkr_auto_trader.Session.Inventory.{difference}
use ibkr_auto_trader.Gateway.{
  GatewayError, Gateway, Env, transient, opened, backoff_delays, connect_with_backoff,
  resolve_account, is_fatal, is_paper, named, configured_name, SummaryValue, raw, HeldPosition,
}
use ibkr_auto_trader.Gateway.Accounts.{IsChosen, resolve_account_iff}
use ibkr_auto_trader.Gateway.Backoff.{verdict, tries, pauses, connect_with_backoff_lem}
use ibkr_auto_trader.Gateway.Lifecycle.{
  Call, connect_call, drop_call, disconnect_call, run_calls, IsHealthy, run_calls-IsHealthy,
  count_reopens, run_calls-generation,
}
use ibkr_auto_trader.Gateway.Reconcile.{reconcile, broker_quantities, reconcile_lem}
use ibkr_auto_trader.Gateway.Snapshots.{Reading, snapshot, IsTaken, snapshot_lem}
use ibkr_auto_trader.Fixtures.{cents, noon}

abbrev gateway : Gateway
gateway = record {
  configured = none;
  mode = paper;
  reconnect_attempts = 3;
  backoff_base = 500;
  backoff_max = 800;
  connected = false;
  account = none;
  generation = 4;
  emitted = [];
}

abbrev flaky : Env
flaky = record { attempts = transient ∷ opened ∷ []; accounts = "" ∷ "DU1" ∷ [] }

abbrev calls : List Call
calls = connect_call flaky ∷ drop_call flaky ∷ disconnect_call ∷ []

connect_with_backoff_lem_example :
    let r = connect_with_backoff gateway (transient ∷ opened ∷ []) in
    (r.result ≡ verdict 3 (transient ∷ opened ∷ []))
    × (r.tried ≡ tries 3 (transient ∷ opened ∷ []))
    × (r.tried ≤ 3)
    × (r.slept ≡ pauses r.tried (backoff_delays 3 500 800))
    × All (λ d. d ≤ 800) r.slept
connect_with_backoff_lem_example = connect_with_backoff_lem gateway (transient ∷ opened ∷ [])

abbrev offered : List String
offered = "" ∷ "DU1" ∷ []

resolve_account_iff_example :
    ((resolve_account none offered paper ≡ ok "DU1") ↔ (
      IsChosen (configured_name none) (named offered) "DU1"
      × (is_paper paper ≡ true → starts_with "DU1" "DU" ≡ true)))
    × ((e : GatewayError) → resolve_account none offered paper ≡ err e → is_fatal e ≡ true)
resolve_account_iff_example = resolve_account_iff none offered paper "DU1"

gateway-IsHealthy : IsHealthy gateway
gateway-IsHealthy h = absurd (cc)

run_calls-IsHealthy_example : IsHealthy (run_calls gateway calls)
run_calls-IsHealthy_example = run_calls-IsHealthy gateway calls gateway-IsHealthy

run_calls-generation_example :
    (run_calls gateway calls).generation ≡ 4 + count_reopens gateway calls
run_calls-generation_example = run_calls-generation gateway calls

abbrev holding : HeldPosition
holding = record {
  instrument_id = 7;
  symbol = "ABC";
  quantity = pos 10;
  broker_mark = some (finite (cents 10000));
  broker_market_value = some (finite (cents 100000));
  mark_available_at = some noon;
  valuation_status = available;
}

abbrev account_summary : Dict String SummaryValue
account_summary =
    ("NetLiquidation", raw (some (finite (cents 1000000))))
    ∷ ("BuyingPower", raw (some (finite (cents 2000000))))
    ∷ ("MaintMarginReq", raw (some (finite (cents 50000))))
    ∷ []

abbrev stale_store : StateStore
stale_store = record {
  rows = record { row_id = 1; con_id = some 8; symbol = "XYZ"; quantity = negsuc 4 } ∷ [];
  daily_pnl = [];
  session_equity = [];
  order_keys = [];
}

stale_store-HasUniqueIds : HasUniqueIds stale_store
unfolding all_positions positions_of
stale_store-HasUniqueIds = (tt, tt)

reconcile_lem_example :
    let (st', d) = reconcile stale_store (holding ∷ []) in
    let broker = broker_quantities [] (holding ∷ []) in
    (position st' 8 ≡ get_or_zero broker 8)
    × (lookup 8 d.diffs ≡ difference (all_positions stale_store) broker 8)
reconcile_lem_example = reconcile_lem stale_store (holding ∷ []) 8 stale_store-HasUniqueIds

abbrev online : Gateway
online = record gateway { connected = true; account = some "DU1" }

abbrev reading : Reading
reading = record {
  summary = account_summary;
  held = holding ∷ [];
  observed_at = noon;
  broker_time = some noon;
  skew_threshold = 5000000;
}

snapshot_lem_example : IsTaken online stale_store reading (snapshot online stale_store reading)
snapshot_lem_example = snapshot_lem online stale_store reading stale_store-HasUniqueIds
