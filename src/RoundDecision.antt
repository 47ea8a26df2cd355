-- ===== src/RoundDecision.antt =====
-- collab/tools/lib/round_decision.py: whether another round runs. The identifier that names a
-- decision is a hash of its fields, and a parameter here; reading and appending the evidence file is
-- not modelled.
pub mod Priority
use ibkr_auto_trader.Prelude.{
  ℕ, Bool, true, false, ◌&&◌, ◌||◌, Option, none, some, String, List, [], ◌∷◌, not, find_first, map,
  if◌then◌else◌, Key, text_key,
}
use ibkr_auto_trader.Prelude.Int.{ℤ, pos, ltb_ℤ, leb_ℤ, ◌==ℤ◌}
use ibkr_auto_trader.Prelude.Result.{Result, ok, err, ◌>>=◌, ◌>>◌, raise_if}

pub data StopReason : Type 0 where
  user_cancellation policy_or_safety_rejection orchestration_error : StopReason
  required_dependency_unavailable timeout_reached model_failure_threshold_reached : StopReason
  accepted_result_met_completion_criteria evaluator_judged_further_rounds_unnecessary : StopReason
  no_viable_candidates_remained all_remaining_candidates_rejected : StopReason
  duplicate_or_non_improving_output convergence_threshold_reached budget_exhausted : StopReason
  round_cap_reached : StopReason

-- `STOP_REASONS`
abbrev pub stop_reasons : List StopReason
stop_reasons =
    user_cancellation ∷ policy_or_safety_rejection ∷ orchestration_error
    ∷ required_dependency_unavailable ∷ timeout_reached ∷ model_failure_threshold_reached
    ∷ accepted_result_met_completion_criteria ∷ evaluator_judged_further_rounds_unnecessary
    ∷ no_viable_candidates_remained ∷ all_remaining_candidates_rejected
    ∷ duplicate_or_non_improving_output ∷ convergence_threshold_reached ∷ budget_exhausted
    ∷ round_cap_reached ∷ []

pub record DecisionContext : Type 0 where
  pub run_uid : String
  pub completed_round : ℤ
  pub maximum_rounds : ℤ
  pub candidate_id : Option String
  pub unresolved_requirements : List String
  pub supporting_evidence : List String
  pub viable_candidates : ℤ
  pub accepted : Bool
  pub completion_criteria_met : Bool
  pub further_rounds_unnecessary : Bool
  pub all_rejected : Bool
  pub duplicate_or_non_improving : Bool
  pub converged : Bool
  pub budget_spent : Bool
  pub timed_out : Bool
  pub user_cancelled : Bool
  pub dependency_unavailable : Bool
  pub model_failures_reached : Bool
  pub policy_or_safety_rejected : Bool
  pub orchestration_failed : Bool

pub data RoundDecisionError : Type 0 where
  counts_required rounds_exceeded : RoundDecisionError

-- `__post_init__`
unfoldable pub validate_decision : DecisionContext → Result RoundDecisionError DecisionContext
validate_decision c = do
  raise_if
      (text_key.same c.run_uid ""
        || ltb_ℤ c.completed_round (pos 0)
        || ltb_ℤ c.maximum_rounds (pos 0))
      counts_required
  raise_if (ltb_ℤ c.maximum_rounds c.completed_round && not (c.maximum_rounds ==ℤ pos 0))
      rounds_exceeded
  ok c

abbrev pub is_empty : List String → Bool
is_empty [] = true
is_empty (x ∷ xs) = false

-- `_rule_results`
unfoldable pub rule_result : DecisionContext → StopReason → Bool
rule_result c user_cancellation = c.user_cancelled
rule_result c policy_or_safety_rejection = c.policy_or_safety_rejected
rule_result c orchestration_error = c.orchestration_failed
rule_result c required_dependency_unavailable = c.dependency_unavailable
rule_result c timeout_reached = c.timed_out
rule_result c model_failure_threshold_reached = c.model_failures_reached
rule_result c accepted_result_met_completion_criteria =
    c.accepted && c.completion_criteria_met && is_empty c.unresolved_requirements
rule_result c evaluator_judged_further_rounds_unnecessary = c.further_rounds_unnecessary
rule_result c no_viable_candidates_remained = not (ltb_ℤ (pos 0) c.viable_candidates)
rule_result c all_remaining_candidates_rejected = c.all_rejected
rule_result c duplicate_or_non_improving_output = c.duplicate_or_non_improving
rule_result c convergence_threshold_reached = c.converged
rule_result c budget_exhausted = c.budget_spent
rule_result c round_cap_reached =
    not (c.maximum_rounds ==ℤ pos 0) && leb_ℤ c.maximum_rounds c.completed_round

pub data Decision : Type 0 where
  stop continue : Decision

-- What `evaluate` decides of a context: no reason means that an unresolved requirement and a viable
-- path remain.
pub record RoundDecision : Type 0 where
  pub decision_id : String
  pub run_uid : String
  pub completed_round : ℤ
  pub maximum_rounds : ℤ
  pub decision : Decision
  pub reason : Option StopReason
  pub rules_evaluated : List (StopReason × Bool)
  pub candidate_id : Option String
  pub unresolved_requirements : List String
  pub supporting_evidence : List String

abbrev pub decision_of : Option StopReason → Decision
decision_of none = continue
decision_of (some r) = stop

-- The fields that name a decision: round, candidate, decision, reason and evidence.
abbrev pub Identify : Type 0
Identify = DecisionContext → Decision → Option StopReason → String

unfoldable pub evaluate : Identify → DecisionContext → RoundDecision
evaluate identify c =
    let reason = find_first (rule_result c) stop_reasons in
    record {
      decision_id = identify c (decision_of reason) reason;
      run_uid = c.run_uid;
      completed_round = c.completed_round;
      maximum_rounds = c.maximum_rounds;
      decision = decision_of reason;
      reason = reason;
      rules_evaluated = map (λ r. (r, rule_result c r)) stop_reasons;
      candidate_id = c.candidate_id;
      unresolved_requirements = c.unresolved_requirements;
      supporting_evidence = c.supporting_evidence;
    }
