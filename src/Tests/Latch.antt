-- ===== src/Tests/Latch.antt =====
-- The reduce-only latch, its approvals, and the settings.
use ibkr_auto_trader.Prelude.{◌≡◌, refl, ◌⊎◌, true, false, some, [], ◌∷◌, ◌≤◌, length, nat_key}
use ibkr_auto_trader.Prelude.Int.{pos, ◌-ℤ◌, abs}
use ibkr_auto_trader.Prelude.Result.{ok}
use ibkr_auto_trader.Domain.{sell, risk_authority}
use ibkr_auto_trader.Config.{
  Settings, effective_mode, effective_mode_lem, live, paper, is_live, submission_allowed,
}
use ibkr_auto_trader.ReduceOnly.{
  ReduceOnlyLatch, is_reducing, is_latched, require_permitted, set_latch, clear_latch,
}
use ibkr_auto_trader.ReduceOnly.Reducing.{Trades, stop, trade, latch_lem, Trades-bounded}
use ibkr_auto_trader.ReduceOnly.Intent.{
  ApprovedOrderIntent, ReduceOnlyArgs, mint_intent, IsWithinLatch, mint_intent-IsWithinLatch,
}
use ibkr_auto_trader.Fixtures.{cents, noon, policy}

abbrev latched : ReduceOnlyLatch
latched = record { sessions = 20000 ∷ [] }

latch_lem_example :
    (is_latched (set_latch latched 20001) 20000 ≡ is_latched latched 20000)
    × (is_latched (clear_latch latched 20001) 20000 ≡ is_latched latched 20000)
latch_lem_example = latch_lem latched 20001 20000

two_sales : Trades latched 20000 (pos 5) (pos 2 ∷ pos 0 ∷ [])
unfolding require_permitted is_latched is_reducing
two_sales = trade refl (trade refl (stop (pos 0)))

Trades-bounded_example : length (pos 2 ∷ pos 0 ∷ []) ≤ abs (pos 5)
unfolding is_latched
Trades-bounded_example = Trades-bounded latched 20000 refl two_sales

abbrev sale : ApprovedOrderIntent
sale = record {
  symbol = "ABC";
  side = sell;
  quantity = pos 3;
  stop_price = cents 9700;
  approved_at = noon;
  ledger_ref = "r1";
}

abbrev long_five : ReduceOnlyArgs
long_five = record {
  reduce_only_latch = some latched;
  session_date = some 20000;
  current_qty = some (pos 5);
}

sale_minted : mint_intent (some risk_authority) long_five sale ≡ ok sale
unfolding mint_intent require_permitted is_latched is_reducing ◌-ℤ◌
sale_minted = refl

mint_intent-IsWithinLatch_example :
    (some risk_authority ≡ some risk_authority) × (sale ≡ sale) × IsWithinLatch long_five sale
mint_intent-IsWithinLatch_example =
    mint_intent-IsWithinLatch (some risk_authority) long_five sale sale sale_minted

abbrev settings : Settings
settings = record { mode = live; paper_only = true; live_enabled = true; risk = policy }

effective_mode_lem_example :
    ((effective_mode settings ≡ live) ⊎ (effective_mode settings ≡ paper))
    × (is_live (effective_mode settings) ≡ true
        → (settings.live_enabled ≡ true)
          × (settings.paper_only ≡ false)
          × (effective_mode settings ≡ live))
    × (is_live settings.mode ≡ false → effective_mode settings ≡ live)
    × (submission_allowed (effective_mode settings) ≡ submission_allowed live)
effective_mode_lem_example = effective_mode_lem settings
