-- ===== src/Handoff/Race/Winner.antt =====
-- Several processes that claim one handoff: collab/tools/lib/handoff_core.py, `_transition`.
use mathlib.Core.Path.{subst}
use ibkr_auto_trader.Prelude.{
  ℕ, zero, suc, ◌+◌, ◌≤◌, ◌≡◌, ◌⊎◌, inl, inr, refl, sym, ap, ◌∙◌, Bool, true, false, none, some,
  List, [], ◌∷◌, arith, All, length,
}
use ibkr_auto_trader.Handoff.{
  pending, claimed, done, archive, claim, Files, not_found, Progress, globs, finds, links, unlinks,
  won, lost, step_at, race, starts,
}
use ibkr_auto_trader.Handoff.Race.{board, IsClaiming, holds, open_step, taken_step}

abbrev pub holders : List Progress → ℕ
holders [] = 0
holders (p ∷ ps) = holds p + holders ps

IsClaiming-mono : (q : Progress) → IsClaiming false q → IsClaiming true q
IsClaiming-mono (globs again pending []) h = λ a. refl
IsClaiming-mono (globs again claimed (pending ∷ [])) h = λ a. refl
IsClaiming-mono (globs again done (pending ∷ [])) h = λ a. refl
IsClaiming-mono (globs again archive (pending ∷ [])) h = λ a. refl
IsClaiming-mono finds h = tt
IsClaiming-mono links h = tt
IsClaiming-mono q h = absurd (ground arith)

not_holding : (q : Progress) → IsClaiming false q → holds q ≡ 0
not_holding unlinks h = absurd (ground arith)
not_holding won h = absurd (ground arith)
not_holding q h = refl

All-mono : (ps : List Progress) → All (IsClaiming false) ps → All (IsClaiming true) ps
All-mono [] a = tt
All-mono (p ∷ ps) a = (IsClaiming-mono p a.0, All-mono ps a.1)

none_holding : (ps : List Progress) → All (IsClaiming false) ps → holders ps ≡ 0
none_holding [] a = refl
none_holding (p ∷ ps) a = let h = not_holding p a.0 in let t = none_holding ps a.1 in omega arith

-- The claim is not linked yet.
abbrev pub IsOpen : ℕ → ℕ → Files × List Progress → Type 0
IsOpen i n (f, ps) = (f ≡ board i true false) × All (IsClaiming false) ps × (length ps ≡ n)

-- The claim is linked, by one process.
abbrev pub IsTaken : ℕ → ℕ → Files × List Progress → Type 0
IsTaken i n (f, ps) =
    ((b : Bool) × (f ≡ board i b true))
    × All (IsClaiming true) ps
    × (holders ps ≡ 1)
    × (length ps ≡ n)

pub step_at-IsOpen :
    (i k : ℕ) (ps : List Progress)
    → All (IsClaiming false) ps
    → IsOpen i (length ps) (step_at claim k (board i true false) ps)
      ⊎ IsTaken i (length ps) (step_at claim k (board i true false) ps)
unfolding step_at
step_at-IsOpen i k [] a = inl (refl, a, refl)
step_at-IsOpen i zero (p ∷ ps) a = elim (open_step i p a.0) [
  | inl (q, e, c) ↦ rw e (inl (refl, (c, a.1), refl))
  | inr e ↦ rw e (
      inr
        ((true, refl), (refl, All-mono ps a.1), (let t = none_holding ps a.1 in omega arith), refl))
]
step_at-IsOpen i (suc k) (p ∷ ps) a = elim (step_at-IsOpen i k ps a.1) [
  | inl (f, c, l) ↦ inl (f, (a.0, c), ap suc l)
  | inr (f, c, h, l) ↦
      inr (f, (IsClaiming-mono p a.0, c), (let z = not_holding p a.0 in omega arith), ap suc l)
]

pub step_at-IsTaken :
    (i k : ℕ) (b : Bool) (ps : List Progress)
    → All (IsClaiming true) ps
    → let r = step_at claim k (board i b true) ps in
      ((b' : Bool) × (r.0 ≡ board i b' true))
      × All (IsClaiming true) r.1
      × (holders r.1 ≡ holders ps)
      × (length r.1 ≡ length ps)
unfolding step_at
step_at-IsTaken i k b [] a = ((b, refl), a, refl, refl)
step_at-IsTaken i zero b (p ∷ ps) a =
    let (b', q, e, c, h) = taken_step i b p a.0 in
    rw e ((b', refl), (c, a.1), ap (λ n. n + holders ps) h, refl)
step_at-IsTaken i (suc k) b (p ∷ ps) a =
    let (f, c, h, l) = step_at-IsTaken i k b ps a.1 in
    (f, (a.0, c), ap (λ n. holds p + n) h, ap suc l)

pub race-IsTaken :
    (i n : ℕ) (is : List ℕ) (f : Files) (ps : List Progress)
    → IsTaken i n (f, ps)
    → IsTaken i n (race claim is f ps)
unfolding race
race-IsTaken i n [] f ps t = t
race-IsTaken i n (k ∷ is) f ps ((b, e), a, h, l) =
    let (g, c, h', l') = step_at-IsTaken i k b ps a in
    let r = step_at claim k f ps in
    race-IsTaken i n is r.0 r.1
      (subst (λ g. IsTaken i n (step_at claim k g ps)) (sym e) (g, c, h' ∙ h, l' ∙ l))

pub race-IsOpen :
    (i n : ℕ) (is : List ℕ) (f : Files) (ps : List Progress)
    → IsOpen i n (f, ps)
    → IsOpen i n (race claim is f ps) ⊎ IsTaken i n (race claim is f ps)
unfolding race
race-IsOpen i n [] f ps t = inl t
race-IsOpen i n (k ∷ is) f ps (e, a, l) =
    let r = step_at claim k f ps in
    elim (subst
      (λ g.
        IsOpen i (length ps) (step_at claim k g ps) ⊎ IsTaken i (length ps) (step_at claim k g ps))
      (sym e) (step_at-IsOpen i k ps a)) [
        | inl (f', c, l') ↦ race-IsOpen i n is r.0 r.1 (f', c, l' ∙ l)
        | inr (f', c, h, l') ↦ inr (race-IsTaken i n is r.0 r.1 (f', c, h, l' ∙ l))
      ]

abbrev pub claimants : ℕ → List Progress
claimants zero = []
claimants (suc n) = starts ∷ claimants n

pub claimants_lem : (n : ℕ) → All (IsClaiming false) (claimants n) × (length (claimants n) ≡ n)
claimants_lem zero = (tt, refl)
claimants_lem (suc n) = let (a, l) = claimants_lem n in ((λ h. absurd (ground arith), a), ap suc l)

abbrev pub wins : Progress → ℕ
wins won = 1
wins _ = 0

abbrev pub winners : List Progress → ℕ
winners [] = 0
winners (p ∷ ps) = wins p + winners ps

abbrev pub IsFinished : Progress → Type 0
IsFinished won = Unit
IsFinished (lost e) = Unit
IsFinished _ = ⊥

wins_le : (p : Progress) → wins p ≤ holds p
wins_le won = omega arith
wins_le p = omega arith

winners_le : (ps : List Progress) → winners ps ≤ holders ps
winners_le [] = omega arith
winners_le (p ∷ ps) = let a = wins_le p in let b = winners_le ps in omega arith

finished_wins : (p : Progress) → IsFinished p → wins p ≡ holds p
finished_wins won f = refl
finished_wins (lost e) f = refl
finished_wins p f = absurd f

finished_winners : (ps : List Progress) → All IsFinished ps → winners ps ≡ holders ps
finished_winners [] a = refl
finished_winners (p ∷ ps) a =
    let x = finished_wins p a.0 in let y = finished_winners ps a.1 in omega arith

unfinished : (p : Progress) → IsClaiming false p → IsFinished p → ⊥
unfinished won c f = absurd (ground arith)
unfinished (lost not_found) c f = c
unfinished (lost e) c f = absurd (ground arith)
unfinished p c f = f

nobody :
    (ps : List Progress) (n : ℕ)
    → length ps ≡ n
    → 1 ≤ n
    → All (IsClaiming false) ps
    → All IsFinished ps
    → ⊥
nobody [] n l m a f = absurd (omega arith)
nobody (p ∷ ps) n l m a f = unfinished p a.0 f.0

abbrev pub raced : ℕ → ℕ → List ℕ → Files × List Progress
raced i n is = race claim is (board i true false) (claimants n)

pub raced_lem : (i n : ℕ) (is : List ℕ) → IsOpen i n (raced i n is) ⊎ IsTaken i n (raced i n is)
raced_lem i n is =
    let (a, l) = claimants_lem n in
    race-IsOpen i n is (board i true false) (claimants n) (refl, a, l)

-- Any number of processes claim one pending handoff, their calls on the file system interleaved in
-- any way: at most one of them ever learns that it has won, and at every moment the handoff's file
-- is linked under pending or claimed, and nowhere else.
pub claim_single_winner :
    (i n : ℕ) (is : List ℕ)
    → let r = race claim is (board i true false) (claimants n) in
      (winners r.1 ≤ 1)
      × ((r.0.in_pending ≡ some i) ⊎ (r.0.in_claimed ≡ some i))
      × (r.0.in_done ≡ none)
      × (r.0.in_archive ≡ none)
claim_single_winner i n is =
    let r = raced i n is in
    let w = winners_le r.1 in
    elim (raced_lem i n is) [
      | inl (e, a, l) ↦
          (let z = none_holding r.1 a in
            (
              omega arith,
              inl (ap (λ f. f.in_pending) e),
              ap (λ f. f.in_done) e,
              ap (λ f. f.in_archive) e,
            ))
      | inr ((b, e), a, h, l) ↦ (
        omega arith,
        inr (ap (λ f. f.in_claimed) e),
        ap (λ f. f.in_done) e,
        ap (λ f. f.in_archive) e,
      )
    ]

-- Once all of at least one process have come to their end, exactly one has won, and the handoff is
-- claimed: a race is never lost by everyone.
pub claim_has_winner :
    (i n : ℕ) (is : List ℕ)
    → 1 ≤ n
    → All IsFinished (race claim is (board i true false) (claimants n)).1
    → (winners (race claim is (board i true false) (claimants n)).1 ≡ 1)
      × ((race claim is (board i true false) (claimants n)).0.in_claimed ≡ some i)
claim_has_winner i n is m f =
    let r = raced i n is in
    elim (raced_lem i n is) [
      | inl (e, a, l) ↦ absurd (nobody r.1 n l m a f)
      | inr ((b, e), a, h, l) ↦ (finished_winners r.1 f ∙ h, ap (λ f. f.in_claimed) e)
    ]
