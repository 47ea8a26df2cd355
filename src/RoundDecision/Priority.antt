-- ===== src/RoundDecision/Priority.antt =====
-- The stop rules in their order of priority.
use ibkr_auto_trader.Prelude.{
  ◌≡◌, refl, ◌↔◌, Bool, true, false, Option, none, some, List, [], ◌∷◌, ◌++◌, arith, All,
  find_first, map, ◌||◌, ◌≢◌, Bool-cases, inl, inr, sym, ap, ◌∙◌, ◌⊎◌, Option-cases,
}
use ibkr_auto_trader.Prelude.Int.{ℤ, pos, ◌==ℤ◌, ◌<ℤ◌, eq_of_parts}
use ibkr_auto_trader.RoundDecision.{
  StopReason, user_cancellation, policy_or_safety_rejection, orchestration_error,
  required_dependency_unavailable, timeout_reached, model_failure_threshold_reached,
  accepted_result_met_completion_criteria, evaluator_judged_further_rounds_unnecessary,
  no_viable_candidates_remained, all_remaining_candidates_rejected,
  duplicate_or_non_improving_output, convergence_threshold_reached, budget_exhausted,
  round_cap_reached, stop_reasons, DecisionContext, rule_result, stop, continue, decision_of,
  RoundDecision, Identify, evaluate, is_empty,
}

-- A reason is the first whose rule holds: every reason of higher priority has a rule that does not.
pub record IsFirst (c : DecisionContext) (r : StopReason) (reasons : List StopReason) : Type 0 where
  pub higher : List StopReason
  pub lower : List StopReason
  pub in_order : reasons ≡ higher ++ r ∷ lower
  pub rule_holds : rule_result c r ≡ true
  pub none_higher : All (λ s. rule_result c s ≡ false) higher

find_first-IsFirst :
    (c : DecisionContext) (r : StopReason) (reasons : List StopReason)
    → find_first (rule_result c) reasons ≡ some r
    → IsFirst c r reasons
find_first-IsFirst c r [] h = absurd (ground arith)
find_first-IsFirst c r (s ∷ ss) h = elim (Bool-cases (rule_result c s)) [
  | inl fires ↦
      (let same : s ≡ r = ground arith in
        record {
          higher = [];
          lower = ss;
          in_order = ap (λ x. x ∷ ss) same;
          rule_holds = ap (rule_result c) (sym same) ∙ fires;
          none_higher = tt;
        })
  | inr silent ↦
      (let ih = find_first-IsFirst c r ss (ground arith) in
        record {
          higher = s ∷ ih.higher;
          lower = ih.lower;
          in_order = ap (λ x. s ∷ x) ih.in_order;
          rule_holds = ih.rule_holds;
          none_higher = (silent, ih.none_higher);
        })
]

find_first-silent :
    (c : DecisionContext) (reasons : List StopReason)
    → find_first (rule_result c) reasons ≡ none
    → All (λ s. rule_result c s ≡ false) reasons
find_first-silent c [] h = tt
find_first-silent c (s ∷ ss) h = (ground arith, find_first-silent c ss (ground arith))

-- Every reason is listed.
of_all : (P : StopReason → Type 0) → All P stop_reasons → (s : StopReason) → P s
of_all P a user_cancellation = a.0
of_all P a policy_or_safety_rejection = a.1.0
of_all P a orchestration_error = a.1.1.0
of_all P a required_dependency_unavailable = a.1.1.1.0
of_all P a timeout_reached = a.1.1.1.1.0
of_all P a model_failure_threshold_reached = a.1.1.1.1.1.0
of_all P a accepted_result_met_completion_criteria = a.1.1.1.1.1.1.0
of_all P a evaluator_judged_further_rounds_unnecessary = a.1.1.1.1.1.1.1.0
of_all P a no_viable_candidates_remained = a.1.1.1.1.1.1.1.1.0
of_all P a all_remaining_candidates_rejected = a.1.1.1.1.1.1.1.1.1.0
of_all P a duplicate_or_non_improving_output = a.1.1.1.1.1.1.1.1.1.1.0
of_all P a convergence_threshold_reached = a.1.1.1.1.1.1.1.1.1.1.1.0
of_all P a budget_exhausted = a.1.1.1.1.1.1.1.1.1.1.1.1.0
of_all P a round_cap_reached = a.1.1.1.1.1.1.1.1.1.1.1.1.1.0

-- What a record decides: to stop, for the first reason whose rule holds, or to continue, with no
-- reason and no rule that holds.
abbrev pub IsDecided : DecisionContext → RoundDecision → Type 0
IsDecided c d =
    ((d.decision ≡ stop) × (r : StopReason) × (d.reason ≡ some r) × IsFirst c r stop_reasons)
    ⊎ ((d.decision ≡ continue) × (d.reason ≡ none) × ((s : StopReason) → rule_result c s ≡ false))

-- A round either stops, and the record gives the first reason, in the order of `STOP_REASONS`,
-- whose rule holds, or it continues without a reason, and no rule of any reason holds; it continues
-- exactly if none does. The record lists the rules of all reasons in that order, each with its
-- result.
pub evaluate_lem :
    (identify : Identify) (c : DecisionContext)
    → let d = evaluate identify c in
      IsDecided c d
      × ((d.decision ≡ continue) ↔ ((s : StopReason) → rule_result c s ≡ false))
      × (map (λ (e : StopReason × Bool). e.0) d.rules_evaluated ≡ stop_reasons)
      × All (λ (e : StopReason × Bool). e.1 ≡ rule_result c e.0) d.rules_evaluated
unfolding evaluate
evaluate_lem identify c = (
  elim (Option-cases (find_first (rule_result c) stop_reasons)) [
    | inl h ↦ inr (
      ap decision_of h,
      h,
      of_all (λ s. rule_result c s ≡ false) (find_first-silent c stop_reasons h),
    )
    | inr (r, h) ↦ inl (ap decision_of h, r, h, find_first-IsFirst c r stop_reasons h)
  ],
  (
    λ h.
        of_all (λ s. rule_result c s ≡ false)
          (find_first-silent c stop_reasons
            (continued (find_first (rule_result c) stop_reasons) h)),
    λ silent. ap decision_of (none_found stop_reasons silent),
  ),
  listed stop_reasons,
  recorded stop_reasons,
)
  where
    continued : (o : Option StopReason) → decision_of o ≡ continue → o ≡ none
    continued none h = refl
    continued (some r) h = absurd (ground arith)

    none_found :
        (reasons : List StopReason)
        → ((s : StopReason) → rule_result c s ≡ false)
        → find_first (rule_result c) reasons ≡ none
    none_found [] silent = refl
    none_found (s ∷ ss) silent = rw (silent s) (none_found ss silent)

    listed :
        (reasons : List StopReason)
        → map (λ (e : StopReason × Bool). e.0) (map (λ r. (r, rule_result c r)) reasons) ≡ reasons
    listed [] = refl
    listed (s ∷ ss) = ap (λ x. s ∷ x) (listed ss)

    recorded :
        (reasons : List StopReason)
        → All
            (λ (e : StopReason × Bool). e.1 ≡ rule_result c e.0)
            (map (λ r. (r, rule_result c r)) reasons)
    recorded [] = tt
    recorded (s ∷ ss) = (refl, recorded ss)

-- A user's cancellation, a rejection, and the failures of the run itself.
abbrev pub is_operational : StopReason → Bool
is_operational user_cancellation = true
is_operational policy_or_safety_rejection = true
is_operational orchestration_error = true
is_operational required_dependency_unavailable = true
is_operational timeout_reached = true
is_operational model_failure_threshold_reached = true
is_operational _ = false

-- A stop is put down to acceptance, convergence, the budget or the round cap only if nobody
-- cancelled, nothing was rejected and nothing failed.
pub is_operational_lem :
    (identify : Identify) (c : DecisionContext) (r : StopReason)
    → (evaluate identify c).reason ≡ some r
    → is_operational r ≡ (
        c.user_cancelled || c.policy_or_safety_rejected || c.orchestration_failed
        || c.dependency_unavailable || c.timed_out || c.model_failures_reached)
unfolding evaluate rule_result
is_operational_lem identify c r h = ground arith

-- Another round runs only below the round cap where there is one, with a viable candidate and budget
-- left, nobody having cancelled, and never over an accepted result that meets every criterion.
pub continue_lem :
    (identify : Identify) (c : DecisionContext)
    → (evaluate identify c).decision ≡ continue
    → (c.maximum_rounds ≢ pos 0 → c.completed_round <ℤ c.maximum_rounds)
      × (pos 0 <ℤ c.viable_candidates)
      × (c.budget_spent ≡ false)
      × (c.user_cancelled ≡ false)
      × (c.accepted ≡ true
          → c.completion_criteria_met ≡ true
          → is_empty c.unresolved_requirements ≡ false)
continue_lem identify c h =
    let silent = (evaluate_lem identify c).1.0 h in
    unfold rule_result in
    (
      λ ne. let k = silent round_cap_reached in let z = zero_of c.maximum_rounds in ground arith,
      let k = silent no_viable_candidates_remained in ground arith,
      silent budget_exhausted,
      silent user_cancellation,
      λ a m. let k = silent accepted_result_met_completion_criteria in ground arith,
    )
  where
    zero_of : (m : ℤ) → (m ==ℤ pos 0) ≡ true → m ≡ pos 0
    zero_of m e = eq_of_parts m (pos 0) (ground arith)
