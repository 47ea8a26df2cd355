-- ===== src/RunBudget.antt =====
-- collab/tools/lib/run_budget.py: the accounting of one handoff's bounded autonomy. The record is
-- the state, and a charge is one step of it; a denied charge leaves it as it was. Times are in
-- milliseconds of the injected clock. The record's file, its lock and its time stamps are not
-- modelled.
pub mod Bounds
pub mod Reports
use ibkr_auto_trader.Prelude.{
  ℕ, ◌+◌, ◌-◌, ◌≤◌, Bool, true, false, Option, none, some, String, List, [], ◌∷◌, ◌++◌, min, leb,
  if◌then◌else◌, text_key,
}
use ibkr_auto_trader.Prelude.Dict.{Dict, lookup, insert}
use ibkr_auto_trader.Prelude.Int.{ℤ, pos, ltb_ℤ, abs}
use ibkr_auto_trader.Prelude.Result.{Result, ok, err, ◌>>=◌, ◌>>◌, raise_if}

-- The charge kinds; a kind that is none of the four is rejected.
pub data Charge : Type 0 where
  work_attempt verification_pass verification_call : Charge
  review_decision : Option String → Charge
  unknown_kind : String → Charge

pub record Limits : Type 0 where
  pub max_work_attempts : ℕ
  pub max_verification_passes : ℕ
  pub max_total_model_calls : ℕ
  pub max_wall_clock : ℕ
  pub max_findings_per_lane : ℕ
  pub max_review_decisions_per_candidate : ℕ

-- What a budget names when it is exhausted.
pub data Budget : Type 0 where
  work_attempts verification_passes total_model_calls review_decisions wall_clock : Budget

pub data BudgetError : Type 0 where
  budget_exceeded : Budget → ℕ → ℕ → BudgetError
  value_error : BudgetError

-- `Limits.__post_init__`
unfoldable pub validate_limits : Limits → Result BudgetError Limits
validate_limits l =
    if leb 1 l.max_review_decisions_per_candidate
    then (if leb l.max_review_decisions_per_candidate 1 then ok l else err value_error)
    else err value_error

pub record Epoch : Type 0 where
  pub work_attempts : ℕ
  pub actor_turns : ℕ
  pub verification_passes : ℕ
  pub verification_calls : ℕ
  pub total_model_calls : ℕ
  pub review_decisions : Dict String ℕ

-- `_fresh_epoch`
abbrev pub fresh_epoch : Epoch
fresh_epoch = record {
  work_attempts = 0;
  actor_turns = 0;
  verification_passes = 0;
  verification_calls = 0;
  total_model_calls = 0;
  review_decisions = [];
}

pub record RunBudget : Type 0 where
  pub limits : Limits
  pub epoch : ℕ
  pub closed : List (ℕ × Epoch)
  pub current : Epoch
  pub wall_origin : ℕ

-- `_guard`
abbrev pub guard : Budget → ℕ → ℕ → Result BudgetError (Unit {0})
guard which used limit = raise_if (leb limit used) (budget_exceeded which used limit)

abbrev pub guard_total : Limits → Epoch → Result BudgetError (Unit {0})
guard_total l cur = guard total_model_calls cur.total_model_calls l.max_total_model_calls

-- `review_decisions.get(candidate, 0)`
abbrev pub seen : Dict String ℕ → String → ℕ
seen d c = elim (lookup c d) [ none ↦ 0 | some n ↦ n ]

-- The counters that a charge leaves, or its denial.
unfoldable pub charge_epoch : Limits → Epoch → Charge → Result BudgetError Epoch
charge_epoch l cur work_attempt = do
  guard work_attempts cur.work_attempts l.max_work_attempts
  guard_total l cur
  ok (record cur {
    work_attempts = cur.work_attempts + 1;
    actor_turns = cur.actor_turns + 1;
    total_model_calls = cur.total_model_calls + 1;
  })
charge_epoch l cur (review_decision none) = err value_error
charge_epoch l cur (review_decision (some candidate)) = do
  guard review_decisions (seen cur.review_decisions candidate) l.max_review_decisions_per_candidate
  guard_total l cur
  ok (record cur {
    review_decisions =
        insert candidate (seen cur.review_decisions candidate + 1) cur.review_decisions;
    actor_turns = cur.actor_turns + 1;
    total_model_calls = cur.total_model_calls + 1;
  })
charge_epoch l cur verification_pass = do
  guard verification_passes cur.verification_passes l.max_verification_passes
  ok (record cur { verification_passes = cur.verification_passes + 1 })
charge_epoch l cur verification_call = do
  guard_total l cur
  ok (record cur {
    verification_calls = cur.verification_calls + 1;
    total_model_calls = cur.total_model_calls + 1;
  })
charge_epoch l cur (unknown_kind k) = err value_error

abbrev pub with_epoch : RunBudget → Result BudgetError Epoch → Result BudgetError RunBudget
with_epoch b (ok cur) = ok (record b { current = cur })
with_epoch b (err e) = err e

-- `RunBudget.charge`
unfoldable pub charge_budget : RunBudget → Charge → Result BudgetError RunBudget
unfolding charge_epoch
charge_budget b c = with_epoch b (charge_epoch b.limits b.current c)

-- `_elapsed_seconds`, at an instant of the wall clock
abbrev pub elapsed : RunBudget → ℕ → ℕ
elapsed b now = now - b.wall_origin

unfoldable pub check_wall_clock : RunBudget → ℕ → Result BudgetError (Unit {0})
check_wall_clock b now =
    raise_if (leb b.limits.max_wall_clock (elapsed b now))
      (budget_exceeded wall_clock (elapsed b now) b.limits.max_wall_clock)

-- `max(0, int(surfaced))`
abbrev pub at_least_zero : ℤ → ℕ
at_least_zero n = if ltb_ℤ n (pos 0) then 0 else abs n

pub record LaneCap : Type 0 where
  pub verify : ℕ
  pub overflow : ℕ
  pub cap : ℕ

unfoldable pub cap_lane_findings : RunBudget → ℤ → LaneCap
cap_lane_findings b surfaced =
    let n = at_least_zero surfaced in
    let cap = b.limits.max_findings_per_lane in
    record { verify = min n cap; overflow = n - min n cap; cap = cap }

-- The first global budget at its limit, in the order of the checks.
unfoldable pub exhausted : RunBudget → ℕ → Option Budget
exhausted b now =
    if leb b.limits.max_work_attempts b.current.work_attempts
    then some work_attempts
    else if leb b.limits.max_verification_passes b.current.verification_passes
    then some verification_passes
    else if leb b.limits.max_total_model_calls b.current.total_model_calls
    then some total_model_calls
    else if leb b.limits.max_wall_clock (elapsed b now)
    then some wall_clock
    else none

-- `new_epoch`, at an instant of the wall clock; it returns the epoch's number.
unfoldable pub new_epoch : RunBudget → ℕ → RunBudget × ℕ
new_epoch b now = (
  record b {
    closed = b.closed ++ (b.epoch, b.current) ∷ [];
    epoch = b.epoch + 1;
    current = fresh_epoch;
    wall_origin = now;
  },
  b.epoch + 1,
)
