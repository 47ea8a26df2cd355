-- ===== src/Handoff/Race.antt =====
-- One step of a process that claims a handoff, before and after the claim is linked.
pub mod Winner
pub mod Turns
use mathlib.Core.Path.{subst}
use ibkr_auto_trader.Prelude.{
  ℕ, zero, suc, ◌+◌, ◌≤◌, ◌≡◌, ◌≢◌, ◌⊎◌, inl, inr, refl, sym, ap, ◌∙◌, Bool, true, false, Option,
  none, some, List, [], ◌∷◌, ◌++◌, if◌then◌else◌, ◌==◌, arith, All, length,
}
use ibkr_auto_trader.Handoff.{
  State, pending, claimed, done, archive, Action, claim, Files, HandoffError, not_found, corruption,
  conflict, Progress, globs, compares, drops, finds, links, compares_loser, wipes, unlinks, won,
  lost, concluded, step, step_at, race, starts,
}

-- The handoff's one file, linked in the directories that the two flags say.
abbrev pub board : ℕ → Bool → Bool → Files
board i p c = record {
  in_pending = if p then some i else none;
  in_claimed = if c then some i else none;
  in_done = none;
  in_archive = none;
}

-- What a process that claims may be about, the flag saying that the claim has been linked.
abbrev pub Again : Bool → Bool → Type 0
Again again c = again ≡ true → c ≡ true

abbrev pub IsClaiming : Bool → Progress → Type 0
IsClaiming c (globs again pending []) = Again again c
IsClaiming c (globs again claimed []) = c ≡ true
IsClaiming c (globs again claimed (pending ∷ [])) = Again again c
IsClaiming c (globs again done (pending ∷ [])) = Again again c
IsClaiming c (globs again done (claimed ∷ [])) = c ≡ true
IsClaiming c (globs again done (pending ∷ claimed ∷ [])) = c ≡ true
IsClaiming c (globs again archive (pending ∷ [])) = Again again c
IsClaiming c (globs again archive (claimed ∷ [])) = c ≡ true
IsClaiming c (globs again archive (pending ∷ claimed ∷ [])) = c ≡ true
IsClaiming c (globs again s seen) = ⊥
IsClaiming c (compares again [] claimed) = c ≡ true
IsClaiming c (compares again (pending ∷ []) claimed) = c ≡ true
IsClaiming c (compares again todo best) = ⊥
IsClaiming c (drops again pending [] claimed) = c ≡ true
IsClaiming c (drops again s todo best) = ⊥
IsClaiming c finds = Unit
IsClaiming c links = Unit
IsClaiming c compares_loser = c ≡ true
IsClaiming c wipes = c ≡ true
IsClaiming c unlinks = c ≡ true
IsClaiming c won = c ≡ true
IsClaiming c (lost not_found) = ⊥
IsClaiming c (lost e) = c ≡ true

-- Whether it was this process's link that made the claim.
abbrev pub holds : Progress → ℕ
holds unlinks = 1
holds won = 1
holds _ = 0

-- Before the claim is linked, a process's step leaves the files, or links the claim.
pub open_step :
    (i : ℕ) (q : Progress)
    → IsClaiming false q
    → ((p : Progress) × (step claim (board i true false) q ≡ (board i true false, p))
        × IsClaiming false p)
      ⊎ (step claim (board i true false) q ≡ (board i true true, unlinks))
unfolding step
open_step i (globs again pending []) h = inl (globs again claimed (pending ∷ []), refl, h)
open_step i (globs again claimed (pending ∷ [])) h = inl (globs again done (pending ∷ []), refl, h)
open_step i (globs again done (pending ∷ [])) h = inl (globs again archive (pending ∷ []), refl, h)
open_step i (globs true archive (pending ∷ [])) h = absurd (ground (arith, h refl))
open_step i (globs false archive (pending ∷ [])) h = inl (finds, refl, tt)
open_step i finds h = inl (links, refl, tt)
open_step i links h = inr refl
open_step i q h = absurd (ground arith)

-- After it is linked, no step unlinks it, and none makes another winner.
pub taken_step :
    (i : ℕ) (b : Bool) (q : Progress)
    → IsClaiming true q
    → (b' : Bool) × (p : Progress) × (step claim (board i b true) q ≡ (board i b' true, p))
      × IsClaiming true p
      × (holds p ≡ holds q)
unfolding step
taken_step i true (globs again pending []) h =
    (true, globs again claimed (pending ∷ []), refl, λ a. refl, refl)
taken_step i false (globs again pending []) h = (false, globs again claimed [], refl, refl, refl)
taken_step i b (globs again claimed []) h = (b, globs again done (claimed ∷ []), refl, refl, refl)
taken_step i b (globs again claimed (pending ∷ [])) h =
    (b, globs again done (pending ∷ claimed ∷ []), refl, refl, refl)
taken_step i b (globs again done (pending ∷ [])) h =
    (b, globs again archive (pending ∷ []), refl, h, refl)
taken_step i b (globs again done (claimed ∷ [])) h =
    (b, globs again archive (claimed ∷ []), refl, refl, refl)
taken_step i b (globs again done (pending ∷ claimed ∷ [])) h =
    (b, globs again archive (pending ∷ claimed ∷ []), refl, refl, refl)
taken_step i b (globs true archive (pending ∷ [])) h = (b, lost conflict, refl, refl, refl)
taken_step i b (globs false archive (pending ∷ [])) h = (b, finds, refl, tt, refl)
taken_step i b (globs true archive (claimed ∷ [])) h = (b, lost conflict, refl, refl, refl)
taken_step i b (globs false archive (claimed ∷ [])) h = (b, finds, refl, tt, refl)
taken_step i b (globs again archive (pending ∷ claimed ∷ [])) h =
    (b, compares again (pending ∷ []) claimed, refl, refl, refl)
taken_step i b (compares true [] claimed) h = (b, lost conflict, refl, refl, refl)
taken_step i b (compares false [] claimed) h = (b, finds, refl, tt, refl)
taken_step i true (compares again (pending ∷ []) claimed) h = (
  true,
  drops again pending [] claimed,
  (let e : (i == i) ≡ true = ground arith in rw e refl),
  refl,
  refl,
)
taken_step i false (compares again (pending ∷ []) claimed) h =
    (false, lost corruption, refl, refl, refl)
taken_step i b (drops again pending [] claimed) h =
    (false, compares again [] claimed, refl, refl, refl)
taken_step i true finds h = (true, links, refl, tt, refl)
taken_step i false finds h = (false, globs true pending [], refl, λ a. refl, refl)
taken_step i true links h = (true, compares_loser, refl, refl, refl)
taken_step i false links h = (false, lost conflict, refl, refl, refl)
taken_step i true compares_loser h =
    (true, wipes, (let e : (i == i) ≡ true = ground arith in rw e refl), refl, refl)
taken_step i false compares_loser h = (false, lost conflict, refl, refl, refl)
taken_step i b wipes h = (false, lost conflict, refl, refl, refl)
taken_step i b unlinks h = (false, won, refl, refl, refl)
taken_step i b won h = (b, won, refl, refl, refl)
taken_step i b (lost not_found) h = absurd h
taken_step i b (lost e) h = (b, lost e, refl, h, refl)
taken_step i b q h = absurd h
