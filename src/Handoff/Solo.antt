-- ===== src/Handoff/Solo.antt =====
-- A move that nobody disturbs, and one after a crash: collab/tools/lib/handoff_core.py, `_transition`
-- and `_reconcile`.
use ibkr_auto_trader.Prelude.{
  ℕ, ◌≡◌, refl, Bool, true, false, none, some, List, [], ◌∷◌, if◌then◌else◌, ◌==◌, arith,
}
use ibkr_auto_trader.Handoff.{
  State, pending, claimed, done, archive, Action, claim, finish, put_away, reclaim, Files,
  not_found, conflict, Progress, won, lost, step, step_at, race, starts, put_file, from_state,
  to_state,
}

abbrev pub no_files : Files
no_files = record { in_pending = none; in_claimed = none; in_done = none; in_archive = none }

-- The handoff's file, under one state.
abbrev pub only : State → ℕ → Files
only s i = put_file s (some i) no_files

-- What an interrupted move leaves: the link is made, the old one not yet removed.
abbrev pub half_made : Action → ℕ → Files
half_made a i = put_file (to_state a) (some i) (only (from_state a) i)

-- The more advanced of the two states that a move is between.
abbrev pub advanced : Action → State
advanced claim = claimed
advanced finish = done
advanced put_away = archive
advanced reclaim = claimed

abbrev twenty_turns : List ℕ
twenty_turns = 0 ∷ 0 ∷ 0 ∷ 0 ∷ 0 ∷ 0 ∷ 0 ∷ 0 ∷ 0 ∷ 0 ∷ 0 ∷ 0 ∷ 0 ∷ 0 ∷ 0 ∷ 0 ∷ 0 ∷ 0 ∷ 0 ∷ 0 ∷ []

-- `_transition`, with nobody else about.
unfoldable pub transition : Action → Files → Files × List Progress
unfolding race step_at step
transition a f = race a twenty_turns f (starts ∷ [])

abbrev pub same_state : State → State → Bool
same_state pending pending = true
same_state claimed claimed = true
same_state done done = true
same_state archive archive = true
same_state _ _ = false

transition-only :
    (a : Action) (i : ℕ) (s : State)
    → transition a (only s i) ≡ (
        if same_state s (from_state a)
        then (only (to_state a) i, won ∷ [])
        else (only s i, lost conflict ∷ []))
unfolding transition
transition-only claim i pending = refl
transition-only claim i claimed = refl
transition-only claim i done = refl
transition-only claim i archive = refl
transition-only finish i pending = refl
transition-only finish i claimed = refl
transition-only finish i done = refl
transition-only finish i archive = refl
transition-only put_away i pending = refl
transition-only put_away i claimed = refl
transition-only put_away i done = refl
transition-only put_away i archive = refl
transition-only reclaim i pending = refl
transition-only reclaim i claimed = refl
transition-only reclaim i done = refl
transition-only reclaim i archive = refl

transition-none : (a : Action) → transition a no_files ≡ (no_files, lost not_found ∷ [])
unfolding transition
transition-none claim = refl
transition-none finish = refl
transition-none put_away = refl
transition-none reclaim = refl

-- With nobody else about, each of the four moves is made exactly from the state that it starts
-- from, and takes the file from there to where the move leads; from any other state it is a
-- conflict that leaves the file where it is, and with no file the handoff is not found.
pub transition_lem :
    (a : Action) (i : ℕ)
    → ((s : State)
        → transition a (only s i) ≡ (
            if same_state s (from_state a)
            then (only (to_state a) i, won ∷ [])
            else (only s i, lost conflict ∷ [])))
      × (transition a no_files ≡ (no_files, lost not_found ∷ []))
transition_lem a i = (transition-only a i, transition-none a)

-- A move of which a crash has left both links is completed, or for the one that goes backwards
-- undone, by whichever move is tried next, which then goes as if the crash had not been.
pub transition-half_made :
    (crashed a : Action) (i : ℕ)
    → transition a (half_made crashed i) ≡ transition a (only (advanced crashed) i)
unfolding transition
transition-half_made claim claim i = let e : (i == i) ≡ true = ground arith in rw e refl
transition-half_made claim finish i = let e : (i == i) ≡ true = ground arith in rw e refl
transition-half_made claim put_away i = let e : (i == i) ≡ true = ground arith in rw e refl
transition-half_made claim reclaim i = let e : (i == i) ≡ true = ground arith in rw e refl
transition-half_made finish claim i = let e : (i == i) ≡ true = ground arith in rw e refl
transition-half_made finish finish i = let e : (i == i) ≡ true = ground arith in rw e refl
transition-half_made finish put_away i = let e : (i == i) ≡ true = ground arith in rw e refl
transition-half_made finish reclaim i = let e : (i == i) ≡ true = ground arith in rw e refl
transition-half_made put_away claim i = let e : (i == i) ≡ true = ground arith in rw e refl
transition-half_made put_away finish i = let e : (i == i) ≡ true = ground arith in rw e refl
transition-half_made put_away put_away i = let e : (i == i) ≡ true = ground arith in rw e refl
transition-half_made put_away reclaim i = let e : (i == i) ≡ true = ground arith in rw e refl
transition-half_made reclaim claim i = let e : (i == i) ≡ true = ground arith in rw e refl
transition-half_made reclaim finish i = let e : (i == i) ≡ true = ground arith in rw e refl
transition-half_made reclaim put_away i = let e : (i == i) ≡ true = ground arith in rw e refl
transition-half_made reclaim reclaim i = let e : (i == i) ≡ true = ground arith in rw e refl
