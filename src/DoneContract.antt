-- ===== src/DoneContract.antt =====
-- collab/tools/lib/done_contract.py: whether a handoff may be closed autonomously. What the file system
-- and the plan's resolution (lanes.py, gate_runner.py) say of a ledger is handed in with the ledger;
-- texts of detail and the hash of the verdict are left out. Times are in milliseconds. `fold` is
-- `strip` and `casefold`.
pub mod Contract
use Prim.Native.String.{compare}
use Prim.Native.Nat.{Ordering}
use ibkr_auto_trader.Prelude.{
  ℕ, ◌+◌, ◌*◌, max, Bool, true, false, ◌&&◌, ◌||◌, Option, none, some, String, List, [], ◌∷◌, not,
  if◌then◌else◌, Key, text_key, any, map, leb,
}
use ibkr_auto_trader.Prelude.Int.{ℤ}
use ibkr_auto_trader.Prelude.Sort.{sort}
use ibkr_auto_trader.Handoff.{State, pending, claimed, done, archive}
use ibkr_auto_trader.Verification.{
  Receipt, Checkout, is_green, matches_checkout, truthy, same_list, same_option, is_zero,
}

pub record Blocker : Type 0 where
  pub fixed : Bool
  pub has_regression_test : Bool

-- A file that the reviewer says it has seen: whether it is named by a relative path, and whether that
-- path resolves to one at or below the repository's root.
pub record InspectedFile : Type 0 where
  pub is_relative : Bool
  pub is_inside : Bool

pub record Preflight : Type 0 where
  pub seat : String
  pub repo_access : Bool
  pub rev_parse_exit : Option ℤ
  pub collect_only_exit : Option ℤ
  pub inspected_files : Option (List InspectedFile)
  pub root_resolves : Bool

pub record RequirementResult : Type 0 where
  pub id : String
  pub is_met : Bool

pub record Conformance : Type 0 where
  pub contract_digest : Option String
  pub candidate_id : Option String
  pub is_incomplete : Bool
  pub requirement_ids : List String
  pub results : List RequirementResult

-- The ledger, with the casefolded parts of its resolved base, and what is found out about the files that its manifest names: each one's time of change,
-- or that it is missing.
pub record Ledger : Type 0 where
  pub source_files : List (Option ℕ)
  pub base_parts : Option (List String)
  pub generated : Option ℕ
  pub source_is_tested : Bool
  pub reviewer_seat : String
  pub builder_seat : String
  pub has_plan : Bool
  pub required_passes : List String
  pub ran_passes : List String
  pub is_incomplete : Bool
  pub tool_error : Bool
  pub blockers : List Blocker
  pub tests : Receipt
  pub has_residuals : Bool
  pub preflight : Option Preflight
  pub conformance : Option Conformance

pub record Condition : Type 0 where
  pub id : ℕ
  pub passes : Bool

pub record Verdict : Type 0 where
  pub satisfied : Bool
  pub conditions : List Condition

abbrev pub all_pass : List Condition → Bool
all_pass [] = true
all_pass (c ∷ cs) = c.passes && all_pass cs

-- `_verdict`
abbrev pub verdict : List Condition → Verdict
verdict cs = record { satisfied = all_pass cs; conditions = cs }

abbrev pub condition : ℕ → Bool → Condition
condition n b = record { id = n; passes = b }

abbrev pub is_empty : {A : Type 0} → List A → Bool
is_empty [] = true
is_empty (x ∷ xs) = false

abbrev pub all_of : {A : Type 0} → (A → Bool) → List A → Bool
all_of p [] = true
all_of p (x ∷ xs) = p x && all_of p xs

-- The greatest of the times, none if a file is missing.
abbrev pub newest_of : List (Option ℕ) → Option ℕ
newest_of [] = some 0
newest_of (none ∷ ts) = none
newest_of (some t ∷ ts) = elim (newest_of ts) [ none ↦ none | some n ↦ some (max t n) ]

abbrev pub no_newer : Option ℕ → ℕ → Bool
no_newer none generated = false
no_newer (some newest) generated = leb newest (generated + 2000)

abbrev pub has_member : List String → String → Bool
has_member xs s = any (text_key.same s) xs

abbrev pub text_le : String → String → Bool
text_le a b = elim (compare a b) [ Ordering.gt ↦ false | _ ↦ true ]

-- The elements of a set, each once.
abbrev pub distinct : List String → List String
distinct [] = []
distinct (s ∷ ss) = let rest = distinct ss in if has_member rest s then rest else s ∷ rest

abbrev pub result_ids : List RequirementResult → List String
result_ids rs = map (λ r. r.id) rs

-- Evidence of another candidate is none; a legacy ledger is of no candidate.
abbrev pub is_bound : Option String → Option String → Bool
is_bound none evidence = true
is_bound (some i) evidence = same_option evidence (some i)

-- `_conformance_ok`
unfoldable pub conformance_ok : Option String → Option Conformance → Bool
conformance_ok candidate none = false
conformance_ok candidate (some c) =
    truthy c.contract_digest
    && is_bound candidate c.candidate_id
    && not c.is_incomplete
    && not (is_empty c.requirement_ids)
    && all_of (λ r. r.is_met) c.results
    && same_list (sort text_le (distinct (result_ids c.results))) (sort text_le c.requirement_ids)

module _ (fold clean : String → String) (resolve : String → Option String) where
  -- `_fresh_and_not_scratchpad`
  unfoldable pub is_fresh : Ledger → Bool
  is_fresh l =
      not (is_empty l.source_files)
      && (elim l.base_parts [
        | none ↦ false
        | some parts ↦ not (any (λ p. text_key.same p "scratchpad") parts)
      ])
      && (elim l.generated [ none ↦ false | some t ↦ no_newer (newest_of l.source_files) t ])

  -- `_reviewer_preflight_ok`
  unfoldable pub preflight_ok : String → Option Preflight → Bool
  preflight_ok reviewer none = false
  preflight_ok reviewer (some p) =
      text_key.same (fold p.seat) (fold reviewer)
      && p.repo_access
      && is_zero p.rev_parse_exit
      && is_zero p.collect_only_exit
      && (elim p.inspected_files [
        | none ↦ false
        | some fs ↦
            not (is_empty fs) && p.root_resolves && all_of (λ f. f.is_relative && f.is_inside) fs
      ])

  abbrev pub is_named : String → Bool
  is_named s = not (text_key.same s "")

  unfoldable pub is_independent : String → String → Ledger → Bool
  is_independent reviewer builder l =
      is_named (fold reviewer)
      && is_named (fold builder)
      && not (text_key.same (fold reviewer) (fold builder))
      && is_named (fold l.reviewer_seat)
      && is_named (fold l.builder_seat)
      && not (text_key.same (fold l.reviewer_seat) (fold l.builder_seat))

  abbrev pub is_open : Option State → Bool
  is_open (some pending) = true
  is_open (some claimed) = true
  is_open _ = false

  unfoldable pub evaluate :
      String → String → Option String → Option State → Checkout → Option Ledger → Verdict
  evaluate reviewer builder candidate state now none = verdict (
      condition 1 false
      ∷ condition 2 false
      ∷ condition 3 false
      ∷ condition 4 false
      ∷ condition 5 false
      ∷ condition 6 false
      ∷ condition 7 false
      ∷ condition 8 false
      ∷ condition 9 (is_named (fold reviewer))
      ∷ condition 10 (is_open state)
      ∷ condition 11 false
      ∷ condition 12 false
      ∷ [])
  evaluate reviewer builder candidate state now (some l) = verdict (
      condition 1 (not (is_empty l.source_files))
      ∷ condition 2 (is_independent reviewer builder l)
      ∷ condition 3 (
          l.has_plan
          && all_of (has_member l.ran_passes) l.required_passes
          && (not l.is_incomplete && not l.tool_error))
      ∷ condition 4 (all_of (λ b. b.fixed) l.blockers)
      ∷ condition 5 (
          all_of (λ b. b.has_regression_test) l.blockers
          && is_green clean resolve (some l.tests)
          && matches_checkout clean resolve (some l.tests) now)
      ∷ condition 6 l.has_residuals
      ∷ condition 7 l.source_is_tested
      ∷ condition 8 (is_fresh l)
      ∷ condition 9 (is_named (fold reviewer))
      ∷ condition 10 (is_open state)
      ∷ condition 11 (preflight_ok reviewer l.preflight)
      ∷ condition 12 (conformance_ok candidate l.conformance)
      ∷ [])
