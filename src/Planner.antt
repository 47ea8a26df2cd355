-- ===== src/Planner.antt =====
-- src/ibkr_trader/risk/planner.py and risk/control_state.py: one fixed candidate per intent. An
-- intent is duck-typed (`_get`), so each attribute is absent, `None`, or a value, and a number
-- may turn out to be unreadable. `str(...)` of an instrument stays unprinted in `PlanSymbol`.
mod Intents
mod Sizing
pub mod Bounds
pub mod Asked
pub mod Plans
unfoldable pub use Intents.*
unfoldable pub use Sizing.*
use ibkr_auto_trader.Prelude.{
  ℕ, Bool, true, false, ◌&&◌, Option, none, some, String, not, ltb, ◌==◌, if◌then◌else◌,
}
use ibkr_auto_trader.Prelude.Int.{ℤ, pos}
use ibkr_auto_trader.Prelude.Result.{Result, ok, err, ◌>>=◌}
use ibkr_auto_trader.Decimal.{Decimal, dec_zero}
use ibkr_auto_trader.Domain.{Datetime, Side, Error, value_error, unpriced_holding}
use ibkr_auto_trader.Domain.Context.{RiskContext}
use ibkr_auto_trader.Config.{RiskPolicy}
use ibkr_auto_trader.Projector.{OrderTerms, VerifiedProjection, project}

pub record RiskControlState : Type 0 where
  pub policy : RiskPolicy
  pub session_date : ℕ
  pub realized_daily_pnl : Decimal
  pub observed_at : Datetime
  pub session_generation : ℕ

pub record RiskPlan : Type 0 where
  pub symbol : PlanSymbol
  pub side : Side
  pub quantity : ℕ
  pub stop_price : Decimal
  pub est_risk_amount : Decimal
  pub planner_projection : Option VerifiedProjection
  pub projection_is_authoritative : Bool
  pub context_digest : String
  pub decision_generation : ℕ
  pub session_generation : ℕ
  pub policy_version : String
  pub declined : Bool
  pub decline_reason : Option String

-- What pydantic does with an instrument that is no `int`: the id that it reads from a text, if
-- any, and the text of its ValidationError.
pub record Pydantic : Type 0 where
  pub parse_id : String → Option ℕ
  pub message : String

-- The quantity, the reason and the projection that a plan ends with.
pub record Outcome : Type 0 where
  pub quantity : ℕ
  pub reason : Option String
  pub projection : Option VerifiedProjection

module _ (pydantic : Pydantic) where
  open pydantic use {parse_id, message}

  unfoldable pub resolve_id : InstrumentKey → Result Error ℕ
  resolve_id (by_id n) = ok n
  resolve_id (by_symbol s) = elim (parse_id s) [ none ↦ err (value_error message) | some n ↦ ok n ]
  resolve_id no_key = err (value_error message)

  -- The `try` body: the order terms, then their projection.
  unfoldable pub try_project :
      Inputs → Field Raw → ℕ → RiskContext → Result Error VerifiedProjection
  unfolding resolve_id
  try_project i multiplier quantity context = do
    m ← decimal_field multiplier "multiplier"
    instrument_id ← resolve_id i.key
    project
        (record {
          instrument_id = instrument_id;
          quantity = pos quantity;
          side = i.side;
          price = i.price;
          stop_price = i.stop;
          multiplier = m;
        })
        context

  -- `except (ValueError, UnpricedHoldingError)`
  abbrev pub or_decline : ℕ → Option String → Result Error VerifiedProjection → Result Error Outcome
  or_decline quantity reason (ok p) =
      ok (record { quantity = quantity; reason = reason; projection = some p })
  or_decline quantity reason (err (value_error m)) =
      ok (record { quantity = 0; reason = some m; projection = none })
  or_decline quantity reason (err (unpriced_holding m)) =
      ok (record { quantity = 0; reason = some m; projection = none })
  or_decline quantity reason (err e) = err e

  unfoldable pub outcome : Inputs → Field Raw → Sized → RiskContext → Result Error Outcome
  outcome i multiplier s context =
      if s.quantity == 0
      then ok (record { quantity = 0; reason = s.reason; projection = none })
      else or_decline s.quantity s.reason (try_project i multiplier s.quantity context)

  abbrev pub make_plan : Inputs → RiskContext → RiskControlState → Outcome → RiskPlan
  make_plan i context state o = record {
    symbol = i.symbol;
    side = i.side;
    quantity = o.quantity;
    stop_price = elim i.stop [ none ↦ dec_zero | some s ↦ s ];
    est_risk_amount = elim o.projection [ none ↦ dec_zero | some p ↦ p.max_loss_if_stopped ];
    planner_projection = o.projection;
    projection_is_authoritative = false;
    context_digest = context.context_digest;
    decision_generation = context.generation;
    session_generation = state.session_generation;
    policy_version = state.policy.version;
    declined = o.quantity == 0;
    decline_reason = o.reason;
  }

  -- `RiskPlanner.plan`
  unfoldable pub plan : Intent → RiskContext → RiskControlState → Result Error RiskPlan
  plan intent context state = do
    i ← read_intent intent context
    s ← size_order state.policy i intent.lot_size intent.multiplier context.net_liquidation
    o ← outcome i intent.multiplier s context
    ok (make_plan i context state o)
