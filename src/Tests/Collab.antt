-- ===== src/Tests/Collab.antt =====
-- A budget that is charged and reopened, and a round decision.
use ibkr_auto_trader.Prelude.{
  map, ◌≡◌, ◌↔◌, refl, Bool, true, false, none, some, List, [], ◌∷◌, All, arith,
}
use ibkr_auto_trader.Prelude.Int.{pos}
use ibkr_auto_trader.RunBudget.{
  work_attempt, review_decision, Limits, fresh_epoch, RunBudget, charge_epoch, charge_budget,
  new_epoch,
}
use ibkr_auto_trader.RunBudget.Bounds.{
  IsBounded, Step, charge_step, reopen_step, step, steps, steps-IsBounded,
}
use ibkr_auto_trader.RoundDecision.{
  DecisionContext, StopReason, timeout_reached, rule_result, stop_reasons, evaluate, Identify,
  continue,
}
use ibkr_auto_trader.RoundDecision.Priority.{IsDecided, evaluate_lem}

-- `Limits.balanced()`
abbrev balanced : Limits
balanced = record {
  max_work_attempts = 3;
  max_verification_passes = 9;
  max_total_model_calls = 24;
  max_wall_clock = 1800000;
  max_findings_per_lane = 3;
  max_review_decisions_per_candidate = 1;
}

abbrev budget : RunBudget
budget = record {
  limits = balanced;
  epoch = 0;
  closed = [];
  current = fresh_epoch;
  wall_origin = 500;
}

abbrev taken : List Step
taken =
    charge_step work_attempt
    ∷ charge_step (review_decision (some "cand:1"))
    ∷ charge_step (review_decision (some "cand:1"))
    ∷ reopen_step 900
    ∷ charge_step work_attempt
    ∷ []

second_review_denied :
    (steps budget taken).closed
    ≡ (
      0,
      record fresh_epoch {
        work_attempts = 1;
        actor_turns = 2;
        total_model_calls = 2;
        review_decisions = ("cand:1", 1) ∷ [];
      },
    )
      ∷ []
unfolding steps step charge_budget charge_epoch new_epoch
second_review_denied = refl

budget-IsBounded : IsBounded budget
budget-IsBounded = record {
  open_within = record {
    work = ground arith;
    passes = ground arith;
    calls = ground arith;
    decisions = λ c. ground arith;
    balance = refl;
  };
  closed_within = tt;
}

steps-IsBounded_example : IsBounded (steps budget taken)
steps-IsBounded_example = steps-IsBounded budget taken budget-IsBounded

abbrev open_round : DecisionContext
open_round = record {
  run_uid = "run-1";
  completed_round = pos 1;
  maximum_rounds = pos 4;
  candidate_id = none;
  unresolved_requirements = "R1" ∷ [];
  supporting_evidence = [];
  viable_candidates = pos 1;
  accepted = true;
  completion_criteria_met = true;
  further_rounds_unnecessary = false;
  all_rejected = false;
  duplicate_or_non_improving = false;
  converged = false;
  budget_spent = false;
  timed_out = false;
  user_cancelled = false;
  dependency_unavailable = false;
  model_failures_reached = false;
  policy_or_safety_rejected = false;
  orchestration_failed = false;
}

-- The run timed out at its last round.
abbrev timed_out_round : DecisionContext
timed_out_round = record open_round { completed_round = pos 4; timed_out = true }

abbrev identify : Identify
identify c d r = "decision-1"

timeout_wins : (evaluate identify timed_out_round).reason ≡ some timeout_reached
unfolding evaluate rule_result
timeout_wins = refl

open_round_continues : (evaluate identify open_round).decision ≡ continue
unfolding evaluate rule_result
open_round_continues = refl

evaluate_lem_example :
    let d = evaluate identify timed_out_round in
    IsDecided timed_out_round d
    × ((d.decision ≡ continue) ↔ ((s : StopReason) → rule_result timed_out_round s ≡ false))
    × (map (λ (e : StopReason × Bool). e.0) d.rules_evaluated ≡ stop_reasons)
    × All (λ (e : StopReason × Bool). e.1 ≡ rule_result timed_out_round e.0) d.rules_evaluated
evaluate_lem_example = evaluate_lem identify timed_out_round
