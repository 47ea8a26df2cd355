-- ===== src/Config.antt =====
-- src/ibkr_trader/config.py: modes, what they allow, the risk policy and the settings of a run.
use ibkr_auto_trader.Prelude.{
  ◌≡◌, ◌⊎◌, Bool, true, false, ◌&&◌, not, Option, none, some, String, arith, if◌then◌else◌,
}
use ibkr_auto_trader.Decimal.{Decimal}

pub data Mode : Type 0 where
  paper live_small_test live reduce_only paused kill_switched : Mode

-- `_LIVE_MODES` and `_HALTED_MODES`
abbrev pub is_live : Mode → Bool
is_live live_small_test = true
is_live live = true
is_live _ = false

abbrev pub is_halted : Mode → Bool
is_halted paused = true
is_halted kill_switched = true
is_halted _ = false

unfoldable pub resolve_mode : Option Mode → Bool → Mode
resolve_mode none live_enabled = paper
resolve_mode (some requested) live_enabled =
    if is_live requested && not live_enabled then paper else requested

unfoldable pub submission_allowed : Mode → Bool
submission_allowed mode = not (is_halted mode)

pub record RiskPolicy : Type 0 where
  pub version : String
  pub max_risk_per_trade : Decimal
  pub daily_realized_lockout_pct : Decimal
  pub session_drawdown_pct : Decimal
  pub leverage_cap : Decimal
  pub stop_loss_required : Bool

pub record Settings : Type 0 where
  pub mode : Mode
  pub paper_only : Bool
  pub live_enabled : Bool
  pub risk : RiskPolicy

unfoldable pub effective_mode : Settings → Mode
unfolding resolve_mode
effective_mode s = resolve_mode (some s.mode) (s.live_enabled && not s.paper_only)

-- The effective mode is the requested one or PAPER; it is live only if that live mode was
-- requested, live trading is enabled and the run is not paper-only; a request that is not live is
-- kept; and the run may submit orders exactly if the requested mode may.
pub effective_mode_lem :
    (s : Settings)
    → ((effective_mode s ≡ s.mode) ⊎ (effective_mode s ≡ paper))
      × (is_live (effective_mode s) ≡ true
          → (s.live_enabled ≡ true) × (s.paper_only ≡ false) × (effective_mode s ≡ s.mode))
      × (is_live s.mode ≡ false → effective_mode s ≡ s.mode)
      × (submission_allowed (effective_mode s) ≡ submission_allowed s.mode)
unfolding effective_mode submission_allowed
effective_mode_lem s = (ground arith, ground arith, ground arith, ground arith)
