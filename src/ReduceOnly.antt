-- ===== src/ReduceOnly.antt =====
-- src/ibkr_trader/risk/reduce_only.py: the session-latched REDUCE_ONLY primitive, and the intent
-- mint of domain/models.py that asks it. The lock only serialises the methods, so each method is
-- one step on the set of latched dates.
pub mod Reducing
pub mod Intent
use ibkr_auto_trader.Prelude.{
  ℕ, Bool, true, false, ◌&&◌, ◌||◌, List, not, ltb, if◌then◌else◌, Key, nat_key,
}
use ibkr_auto_trader.Prelude.Dict.{contains, add, discard}
use ibkr_auto_trader.Prelude.Int.{ℤ, pos, ltb_ℤ, abs}
use ibkr_auto_trader.Prelude.Result.{Result, ok, err}
use ibkr_auto_trader.Domain.{Error, reduce_only_violation}

unfoldable pub is_reducing : ℤ → ℤ → Bool
is_reducing current resulting =
    if ltb_ℤ (pos 0) current && ltb_ℤ resulting (pos 0)
    then false
    else if ltb_ℤ current (pos 0) && ltb_ℤ (pos 0) resulting
    then false
    else ltb (abs resulting) (abs current)

pub record ReduceOnlyLatch : Type 0 where
  pub sessions : List ℕ

-- `ReduceOnlyLatch.set`, also named `latch`
unfoldable pub set_latch : ReduceOnlyLatch → ℕ → ReduceOnlyLatch
set_latch latch day = record latch { sessions = add day latch.sessions }

-- `ReduceOnlyLatch.clear`
unfoldable pub clear_latch : ReduceOnlyLatch → ℕ → ReduceOnlyLatch
clear_latch latch day = record latch { sessions = discard day latch.sessions }

unfoldable pub is_latched : ReduceOnlyLatch → ℕ → Bool
is_latched latch day = contains day latch.sessions

unfoldable pub permits : ReduceOnlyLatch → ℕ → ℤ → ℤ → Bool
permits latch day current resulting = not (is_latched latch day) || is_reducing current resulting

unfoldable pub require_permitted : ReduceOnlyLatch → ℕ → ℤ → ℤ → Result Error (Unit {0})
unfolding permits
require_permitted latch day current resulting =
    if not (permits latch day current resulting) then err reduce_only_violation else ok tt
