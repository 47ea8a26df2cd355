-- ===== src/RunBudget/Reports.antt =====
-- What the budget reports: exhaustion, the cap on a lane's findings, and the audit trail.
use ibkr_auto_trader.Prelude.{
  ℕ, ◌+◌, ◌≡◌, ◌≢◌, ◌≤◌, ◌<◌, ◌↔◌, refl, Bool, true, false, none, List, [], ◌∷◌, ◌++◌, arith,
  text_key, sym, ap, ◌∙◌,
}
use mathlib.Core.List.{append-nil, append_assoc}
use ibkr_auto_trader.Prelude.Int.{ℤ}
use ibkr_auto_trader.Prelude.Result.{Result, ok, err}
use ibkr_auto_trader.RunBudget.{
  Charge, work_attempt, verification_pass, verification_call, BudgetError, Epoch, RunBudget,
  charge_epoch, charge_budget, with_epoch, exhausted, elapsed, check_wall_clock, cap_lane_findings,
  at_least_zero, new_epoch,
}
use ibkr_auto_trader.RunBudget.Bounds.{Step, charge_step, reopen_step, step, steps, or_before}

abbrev pub is_granted : Result BudgetError RunBudget → Bool
is_granted (ok b) = true
is_granted (err e) = false

abbrev pub CanCharge : RunBudget → Charge → Type 0
CanCharge b c = is_granted (charge_budget b c) ≡ true

-- Nothing is exhausted exactly if every global counter is below its limit and the time is not up;
-- then a work attempt, a verification pass, a verification call and the check of the clock all go
-- through.
pub exhausted_iff :
    (b : RunBudget) (now : ℕ)
    → ((exhausted b now ≡ none) ↔ (
        (b.current.work_attempts < b.limits.max_work_attempts)
        × (b.current.verification_passes < b.limits.max_verification_passes)
        × (b.current.total_model_calls < b.limits.max_total_model_calls)
        × (elapsed b now < b.limits.max_wall_clock)))
      × (exhausted b now ≡ none
          → CanCharge b work_attempt
            × CanCharge b verification_pass
            × CanCharge b verification_call
            × (check_wall_clock b now ≡ ok tt))
unfolding exhausted check_wall_clock charge_budget charge_epoch
exhausted_iff b now = (
  (λ h. (ground arith, ground arith, ground arith, ground arith), λ (w, p, c, t). ground arith),
  λ h. (ground arith, ground arith, ground arith, ground arith),
)

-- A lane's findings are split without loss: those to verify are within the cap, and there is an
-- overflow exactly if more than the cap surfaced. A negative count is none.
pub cap_lane_findings_lem :
    (b : RunBudget) (surfaced : ℤ)
    → let c = cap_lane_findings b surfaced in
      (c.verify + c.overflow ≡ at_least_zero surfaced)
      × (c.verify ≤ b.limits.max_findings_per_lane)
      × ((c.overflow ≡ 0) ↔ (at_least_zero surfaced ≤ b.limits.max_findings_per_lane))
      × (c.overflow ≢ 0 → c.verify ≡ b.limits.max_findings_per_lane)
unfolding cap_lane_findings
cap_lane_findings_lem b surfaced =
    (ground arith, ground arith, (λ h. ground arith, λ h. ground arith), λ h. ground arith)

abbrev pub reopenings : List Step → ℕ
reopenings [] = 0
reopenings (charge_step c ∷ ss) = reopenings ss
reopenings (reopen_step now ∷ ss) = reopenings ss + 1

charged-closed :
    (b : RunBudget) (r : Result BudgetError Epoch)
    → ((or_before b (with_epoch b r)).closed ≡ b.closed)
      × ((or_before b (with_epoch b r)).epoch ≡ b.epoch)
charged-closed b (ok e) = (refl, refl)
charged-closed b (err x) = (refl, refl)

charge_step-closed :
    (b : RunBudget) (c : Charge)
    → ((or_before b (charge_budget b c)).closed ≡ b.closed)
      × ((or_before b (charge_budget b c)).epoch ≡ b.epoch)
unfolding charge_budget
charge_step-closed b c = charged-closed b (charge_epoch b.limits b.current c)

new_epoch-closed :
    (b : RunBudget) (now : ℕ)
    → ((new_epoch b now).0.closed ≡ b.closed ++ (b.epoch, b.current) ∷ [])
      × ((new_epoch b now).0.epoch ≡ b.epoch + 1)
unfolding new_epoch
new_epoch-closed b now = (refl, refl)

-- The audit trail only grows: after any steps the closed epochs begin with those that were closed
-- before, unchanged, and the epoch's number counts the reopenings.
pub steps-closed :
    (b : RunBudget) (ss : List Step)
    → ((later : List (ℕ × Epoch)) × ((steps b ss).closed ≡ b.closed ++ later))
      × ((steps b ss).epoch ≡ b.epoch + reopenings ss)
unfolding steps step
steps-closed b [] = (([], sym (append-nil b.closed)), ground arith)
steps-closed b (charge_step c ∷ ss) =
    let b' = or_before b (charge_budget b c) in
    let same = charge_step-closed b c in
    let ((later, e), n) = steps-closed b' ss in
    ((later, e ∙ ap (λ x. x ++ later) same.0), n ∙ ap (λ x. x + reopenings ss) same.1)
steps-closed b (reopen_step now ∷ ss) =
    let b' = (new_epoch b now).0 in
    let ((later, e), n) = steps-closed b' ss in
    let (c, k) = new_epoch-closed b now in
    (
      (
        (b.epoch, b.current) ∷ later,
        e ∙ ap (λ x. x ++ later) c ∙ append_assoc b.closed ((b.epoch, b.current) ∷ []) later,
      ),
      omega arith,
    )
