-- ===== src/ReduceOnly/Reducing.antt =====
-- What a reduction is, how the latch's methods change what is latched, and how long a latched
-- session can go on trading one position.
use ibkr_auto_trader.Prelude.{
  ℕ, ◌≤◌, ◌<◌, ◌≡◌, ◌⊎◌, ◌↔◌, inl, inr, true, false, arith, nat_key, List, [], ◌∷◌, if◌then◌else◌,
  ◌==◌, Bool-cases, length,
}
use ibkr_auto_trader.Prelude.Dict.{contains-add, contains-discard}
use ibkr_auto_trader.Prelude.Int.{ℤ, pos, negsuc, ◌≤ℤ◌, ◌<ℤ◌, abs}
use ibkr_auto_trader.Prelude.Result.{ok}
use ibkr_auto_trader.ReduceOnly.{
  ReduceOnlyLatch, is_reducing, set_latch, clear_latch, is_latched, require_permitted,
}

-- Strictly nearer to zero, on the same side or at zero.
abbrev pub IsReduction : ℤ → ℤ → Type 0
IsReduction current resulting =
    ((pos 0 ≤ℤ resulting) × (resulting <ℤ current))
    ⊎ ((current <ℤ resulting) × (resulting ≤ℤ pos 0))

-- The test accepts exactly the moves strictly towards zero that do not pass it, from a long and
-- from a short position alike.
pub is_reducing_iff :
    (current resulting : ℤ) → (is_reducing current resulting ≡ true) ↔ IsReduction current resulting
unfolding is_reducing
is_reducing_iff (pos c) (pos r) = (λ h. ground arith, λ h. ground arith)
is_reducing_iff (pos c) (negsuc r) = (λ h. ground arith, λ h. ground arith)
is_reducing_iff (negsuc c) (pos r) = (λ h. ground arith, λ h. ground arith)
is_reducing_iff (negsuc c) (negsuc r) = (λ h. ground arith, λ h. ground arith)

pub is_latched-set_latch :
    (latch : ReduceOnlyLatch) (day other : ℕ)
    → is_latched (set_latch latch day) other
      ≡ (if day == other then true else is_latched latch other)
unfolding set_latch is_latched
is_latched-set_latch latch day other = contains-add day other latch.sessions

pub is_latched-clear_latch :
    (latch : ReduceOnlyLatch) (day other : ℕ)
    → is_latched (clear_latch latch day) other
      ≡ (if day == other then false else is_latched latch other)
unfolding clear_latch is_latched
is_latched-clear_latch latch day other = contains-discard day other latch.sessions

-- The two methods touch their own day only: setting latches it, clearing releases it, whatever was
-- latched before, and every other day keeps its state.
pub latch_lem :
    (latch : ReduceOnlyLatch) (day other : ℕ)
    → (is_latched (set_latch latch day) other
        ≡ (if day == other then true else is_latched latch other))
      × (is_latched (clear_latch latch day) other
          ≡ (if day == other then false else is_latched latch other))
latch_lem latch day other =
    (is_latched-set_latch latch day other, is_latched-clear_latch latch day other)

-- In a latched session a transition goes through exactly if it is a reduction, and is refused by
-- the violation otherwise; in a session that is not latched every transition goes through.
pub require_permitted_iff :
    (latch : ReduceOnlyLatch) (day : ℕ) (current resulting : ℤ)
    → (require_permitted latch day current resulting ≡ ok tt)
      ↔ ((is_latched latch day ≡ false) ⊎ IsReduction current resulting)
unfolding require_permitted
require_permitted_iff latch day current resulting =
    let r = is_reducing_iff current resulting in
    elim (Bool-cases (is_latched latch day)) [
      | inl latched ↦ (
        λ h. inr (r.0 (ground arith)),
        λ h. ground (arith, r.1 (elim h [ inl free ↦ absurd (ground arith) | inr down ↦ down ])),
      )
      | inr free ↦ (λ h. inl free, λ h. ground arith)
    ]

-- A run of transitions of one position, each permitted in the session.
pub data Trades (latch : ReduceOnlyLatch) (day : ℕ) : ℤ → List ℤ → Type 0 where
  stop : (q : ℤ) → Trades latch day q []
  trade :
      {q r : ℤ} {rest : List ℤ}
      → require_permitted latch day q r ≡ ok tt
      → Trades latch day r rest
      → Trades latch day q (r ∷ rest)

reduction_shrinks : (c r : ℤ) → IsReduction c r → abs r < abs c
reduction_shrinks c r h = ground arith

-- In a latched session a position of size n can be traded at most n times.
pub Trades-bounded :
    (latch : ReduceOnlyLatch) (day : ℕ) {q : ℤ} {moves : List ℤ}
    → is_latched latch day ≡ true
    → Trades latch day q moves
    → length moves ≤ abs q
Trades-bounded latch day l (stop q) = omega arith
Trades-bounded latch day l (trade {q} {r} {rest} p t) =
    elim ((require_permitted_iff latch day q r).0 p) [
      | inl free ↦ absurd (ground arith)
      | inr down ↦ omega (arith, reduction_shrinks q r down, Trades-bounded latch day l t)
    ]
