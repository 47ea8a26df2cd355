-- ===== src/RunBudget/Bounds.antt =====
-- No sequence of charges and reopenings passes a limit, and the closed epochs stay as they were.
use mathlib.Core.Path.{subst}
use ibkr_auto_trader.Prelude.{
  ℕ, ◌+◌, ◌≡◌, ◌≤◌, ◌<◌, refl, none, some, String, List, [], ◌∷◌, ◌++◌, arith, All, if◌then◌else◌,
  text_key,
}
use ibkr_auto_trader.Prelude.Dict.{Dict, insert, lookup-insert}
use ibkr_auto_trader.Prelude.Result.{Result, ok, err, >>=-eq_ok}
use ibkr_auto_trader.RunBudget.{
  Charge, work_attempt, verification_pass, verification_call, review_decision, unknown_kind, Limits,
  Budget, BudgetError, Epoch, work_attempts, verification_passes, total_model_calls,
  review_decisions, fresh_epoch, RunBudget, guard, guard_total, seen, charge_epoch, with_epoch,
  charge_budget, new_epoch,
}

-- Every counter is within its limit, no candidate has been decided more often than its limit, and
-- the model calls are exactly the actor turns and the verification calls.
pub record IsWithin (l : Limits) (e : Epoch) : Type 0 where
  pub work : e.work_attempts ≤ l.max_work_attempts
  pub passes : e.verification_passes ≤ l.max_verification_passes
  pub calls : e.total_model_calls ≤ l.max_total_model_calls
  pub decisions : (c : String) → seen e.review_decisions c ≤ l.max_review_decisions_per_candidate
  pub balance : e.total_model_calls ≡ e.actor_turns + e.verification_calls

fresh_epoch-IsWithin : (l : Limits) → IsWithin l fresh_epoch
fresh_epoch-IsWithin l = record {
  work = ground arith;
  passes = ground arith;
  calls = ground arith;
  decisions = λ c. ground arith;
  balance = refl;
}

ok-inj : {A : Type 0} {a b : A} → ◌≡◌ {A = Result BudgetError A} (ok a) (ok b) → a ≡ b
ok-inj h = ground arith

guard-eq_ok :
    (which : Budget) (used limit : ℕ) {u : Unit {0}} → guard which used limit ≡ ok u → used < limit
guard-eq_ok which used limit h = ground arith

seen-insert :
    (c d : String) (n : ℕ) (ds : Dict String ℕ)
    → seen (insert c n ds) d ≡ (if text_key.same d c then n else seen ds d)
seen-insert c d n ds = ground (arith, lookup-insert c d n ds)

charge_epoch-IsWithin :
    (l : Limits) (e e' : Epoch) (c : Charge)
    → charge_epoch l e c ≡ ok e'
    → IsWithin l e
    → IsWithin l e'
unfolding charge_epoch
charge_epoch-IsWithin l e e' work_attempt h w =
    let (u, g1, h1) = >>=-eq_ok (guard work_attempts e.work_attempts l.max_work_attempts) _ h in
    let (v, g2, h2) = >>=-eq_ok (guard_total l e) _ h1 in
    let b1 = guard-eq_ok work_attempts e.work_attempts l.max_work_attempts g1 in
    let b2 = guard-eq_ok total_model_calls e.total_model_calls l.max_total_model_calls g2 in
    subst (IsWithin l) (ok-inj h2) (record {
      work = omega arith;
      passes = w.passes;
      calls = omega arith;
      decisions = w.decisions;
      balance = let b = w.balance in omega arith;
    })
charge_epoch-IsWithin l e e' (review_decision none) h w = absurd (ground arith)
charge_epoch-IsWithin l e e' (review_decision (some d)) h w =
    let m = l.max_review_decisions_per_candidate in
    let n = seen e.review_decisions d in
    let (u, g1, h1) = >>=-eq_ok (guard review_decisions n m) _ h in
    let (v, g2, h2) = >>=-eq_ok (guard_total l e) _ h1 in
    let b1 = guard-eq_ok review_decisions n m g1 in
    let b2 = guard-eq_ok total_model_calls e.total_model_calls l.max_total_model_calls g2 in
    subst (IsWithin l) (ok-inj h2) (record {
      work = w.work;
      passes = w.passes;
      calls = omega arith;
      decisions = λ c.
          rw (seen-insert d c (n + 1) e.review_decisions) (let b = w.decisions c in ground arith);
      balance = let b = w.balance in omega arith;
    })
charge_epoch-IsWithin l e e' verification_pass h w =
    let (u, g1, h1) =
      >>=-eq_ok (guard verification_passes e.verification_passes l.max_verification_passes) _ h in
    let b1 = guard-eq_ok verification_passes e.verification_passes l.max_verification_passes g1 in
    subst (IsWithin l) (ok-inj h1) (record {
      work = w.work;
      passes = omega arith;
      calls = w.calls;
      decisions = w.decisions;
      balance = w.balance;
    })
charge_epoch-IsWithin l e e' verification_call h w =
    let (u, g1, h1) = >>=-eq_ok (guard_total l e) _ h in
    let b1 = guard-eq_ok total_model_calls e.total_model_calls l.max_total_model_calls g1 in
    subst (IsWithin l) (ok-inj h1) (record {
      work = w.work;
      passes = w.passes;
      calls = omega arith;
      decisions = w.decisions;
      balance = let b = w.balance in omega arith;
    })
charge_epoch-IsWithin l e e' (unknown_kind k) h w = absurd (ground arith)

-- What the driver and a human do with a budget: charge it, and reopen it at an instant. A denied
-- charge leaves it as it was.
pub data Step : Type 0 where
  charge_step : Charge → Step
  reopen_step : ℕ → Step

abbrev pub or_before : RunBudget → Result BudgetError RunBudget → RunBudget
or_before b (ok b') = b'
or_before b (err e) = b

unfoldable pub step : RunBudget → Step → RunBudget
step b (charge_step c) = or_before b (charge_budget b c)
step b (reopen_step now) = (new_epoch b now).0

unfoldable pub steps : RunBudget → List Step → RunBudget
steps b [] = b
steps b (s ∷ ss) = steps (step b s) ss

-- Current and closed epochs are within the limits.
pub record IsBounded (b : RunBudget) : Type 0 where
  pub open_within : IsWithin b.limits b.current
  pub closed_within : All (λ (c : ℕ × Epoch). IsWithin b.limits c.1) b.closed

All-append :
    (P : ℕ × Epoch → Type 0) (xs : List (ℕ × Epoch)) (x : ℕ × Epoch)
    → All P xs
    → P x
    → All P (xs ++ x ∷ [])
All-append P [] x a p = (p, tt)
All-append P (y ∷ ys) x a p = (a.0, All-append P ys x a.1 p)

charged-IsBounded :
    (b : RunBudget) (r : Result BudgetError Epoch)
    → ((e : Epoch) → r ≡ ok e → IsWithin b.limits e)
    → IsBounded b
    → IsBounded (or_before b (with_epoch b r))
charged-IsBounded b (ok e) f h = record { open_within = f e refl; closed_within = h.closed_within }
charged-IsBounded b (err x) f h = h

step-IsBounded : (b : RunBudget) (s : Step) → IsBounded b → IsBounded (step b s)
unfolding step
step-IsBounded b (charge_step c) h =
    unfold charge_budget in
    charged-IsBounded b (charge_epoch b.limits b.current c)
      (λ e p. charge_epoch-IsWithin b.limits b.current e c p h.open_within) h
step-IsBounded b (reopen_step now) h =
    unfold new_epoch in
    record {
      open_within = fresh_epoch-IsWithin b.limits;
      closed_within =
          All-append (λ c. IsWithin b.limits c.1) b.closed (b.epoch, b.current) h.closed_within
            h.open_within;
    }

-- Over any sequence of charges, denied ones included, and reopenings, every counter of the open
-- epoch and of every closed one stays within its limit, no candidate is decided more often than
-- allowed, and the model calls are exactly the actor turns and the verification calls.
-- The budget that the steps start from is such a one.
pub steps-IsBounded : (b : RunBudget) (ss : List Step) → IsBounded b → IsBounded (steps b ss)
unfolding steps
steps-IsBounded b [] h = h
steps-IsBounded b (s ∷ ss) h = steps-IsBounded (step b s) ss (step-IsBounded b s h)
