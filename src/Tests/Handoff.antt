-- ===== src/Tests/Handoff.antt =====
-- Two processes that claim one handoff, and single moves.
use ibkr_auto_trader.Prelude.{
  ℕ, suc, zero, ◌≡◌, ◌≤◌, ◌<◌, ◌⊎◌, true, false, none, some, List, [], ◌∷◌, if◌then◌else◌, All,
  arith,
}
use ibkr_auto_trader.Handoff.{
  State, claimed, done, claim, finish, reclaim, conflict, not_found, won, lost, race,
}
use ibkr_auto_trader.Handoff.Race.{board}
use ibkr_auto_trader.Handoff.Race.Winner.{claimants, winners, IsFinished, claim_single_winner}
use ibkr_auto_trader.Handoff.Race.Turns.{turns, claim_comes_to_one_winner}
use ibkr_auto_trader.Handoff.Solo.{
  only, no_files, half_made, transition, same_state, transition_lem, transition-half_made,
}

-- The turns of two processes, each after the other.
abbrev alternately : List ℕ
alternately =
    0 ∷ 1 ∷ 0 ∷ 1 ∷ 0 ∷ 1 ∷ 0 ∷ 1 ∷ 0 ∷ 1 ∷ 0 ∷ 1 ∷ 0 ∷ 1 ∷ 0 ∷ 1 ∷ 0 ∷ 1 ∷ 0 ∷ 1 ∷ 0 ∷ 1 ∷ 0 ∷ 1
    ∷ 0 ∷ 1 ∷ 0 ∷ 1 ∷ 0 ∷ 1 ∷ 0 ∷ 1 ∷ 0 ∷ 1 ∷ 0 ∷ 1 ∷ 0 ∷ 1 ∷ 0 ∷ 1 ∷ []

alternately_enough : (j : ℕ) → j < 2 → 20 ≤ turns j alternately
alternately_enough zero h = omega arith
alternately_enough (suc zero) h = omega arith
alternately_enough (suc (suc j)) h = absurd (omega arith)

claim_comes_to_one_winner_example :
    All IsFinished (race claim alternately (board 7 true false) (claimants 2)).1
    × (winners (race claim alternately (board 7 true false) (claimants 2)).1 ≡ 1)
    × ((race claim alternately (board 7 true false) (claimants 2)).0.in_claimed ≡ some 7)
claim_comes_to_one_winner_example =
    claim_comes_to_one_winner 7 2 alternately (omega arith) alternately_enough

claim_single_winner_example :
    let r = race claim (0 ∷ 0 ∷ 1 ∷ 0 ∷ 0 ∷ 0 ∷ []) (board 7 true false) (claimants 3) in
    (winners r.1 ≤ 1)
    × ((r.0.in_pending ≡ some 7) ⊎ (r.0.in_claimed ≡ some 7))
    × (r.0.in_done ≡ none)
    × (r.0.in_archive ≡ none)
claim_single_winner_example = claim_single_winner 7 3 (0 ∷ 0 ∷ 1 ∷ 0 ∷ 0 ∷ 0 ∷ [])

transition_lem_example :
    ((s : State)
      → transition finish (only s 7) ≡ (
          if same_state s claimed then (only done 7, won ∷ []) else (only s 7, lost conflict ∷ [])))
    × (transition finish no_files ≡ (no_files, lost not_found ∷ []))
transition_lem_example = transition_lem finish 7

transition-half_made_example :
    transition claim (half_made reclaim 7) ≡ transition claim (only claimed 7)
transition-half_made_example = transition-half_made reclaim claim 7
