-- ===== src/CandidateDisposition.antt =====
-- collab/tools/lib/candidate_disposition.py: what may be recorded of a candidate. `strip` and the
-- identifier of an identity (a name-based UUID) are parameters. The fields that are only passed on are
-- one text, their encoding.
pub mod Guards
use ibkr_auto_trader.Prelude.{
  ◌≡◌, ◌↔◌, Bool, true, false, ◌&&◌, ◌||◌, Option, none, some, String, List, [], ◌∷◌, ◌++◌, not,
  if◌then◌else◌, Key, text_key,
}
use ibkr_auto_trader.Prelude.Dict.{contains}
use ibkr_auto_trader.Prelude.Result.{Result, ok, err, ◌>>=◌, ◌>>◌, raise_if}

pub data Disposition : Type 0 where
  accepted conditional rejected repair_required superseded blocked : Disposition

abbrev pub is_accepted : Disposition → Bool
is_accepted accepted = true
is_accepted _ = false

abbrev pub is_rejected : Disposition → Bool
is_rejected rejected = true
is_rejected _ = false

abbrev pub is_superseded : Disposition → Bool
is_superseded superseded = true
is_superseded _ = false

-- `REJECTION_REASONS`
unfoldable pub rejection_reasons : List String
rejection_reasons =
    "tests_failed" ∷ "build_failed" ∷ "type_checking_failed" ∷ "lint_failed" ∷ "contract_violation"
    ∷ "incomplete_implementation" ∷ "regression_introduced" ∷ "duplicate_candidate"
    ∷ "lower_quality_than_selected" ∷ "unsafe_change" ∷ "excessive_scope" ∷ "unsupported_assumption"
    ∷ "missing_runtime_proof" ∷ "telemetry_gap" ∷ "evaluator_disagreement"
    ∷ "invalid_or_malformed_response" ∷ "timeout_or_interrupted_generation" ∷ []

-- The evaluation of the requirements, empty if there is none.
pub record Evaluation : Type 0 where
  pub is_eligible : Bool
  pub oracle_passed : Bool
  pub oracle_validation_id : Option String

-- The arguments of `record_disposition`; a disposition outside the vocabulary is none.
pub record Proposal : Type 0 where
  pub run_uid : String
  pub candidate_id : String
  pub handoff_id : String
  pub timestamp : String
  pub disposition : Option Disposition
  pub executive_explanation : String
  pub impact : String
  pub remediation : String
  pub evaluation : Evaluation
  pub decision_maker : String
  pub primary_reason : Option String
  pub reason_categories : List String
  pub superseded_by : Option String
  pub passed_on : String

pub record DispositionEvent : Type 0 where
  pub event_id : String
  pub disposition : Disposition
  pub proposal : Proposal
  pub reasons : List String

pub data DispositionError : Type 0 where
  unknown_disposition fields_required incomplete_requirements no_passing_oracle : DispositionError
  untyped_reason untyped_rejection successor_required supersedes_itself : DispositionError
  decision_maker_required : DispositionError

abbrev pub truthy_text : Option String → Bool
truthy_text none = false
truthy_text (some s) = not (text_key.same s "")

abbrev pub all_named : List String → Bool
all_named [] = true
all_named (s ∷ ss) = not (text_key.same s "") && all_named ss

-- `tuple(dict.fromkeys(xs))`: each once, where it first stands.
abbrev pub add_new : List String → List String → List String
add_new seen [] = seen
add_new seen (x ∷ xs) = add_new (if contains x seen then seen else seen ++ x ∷ []) xs

abbrev pub default_reasons : Option String → List String
default_reasons none = []
default_reasons (some s) = if text_key.same s "" then [] else s ∷ []

abbrev pub normalized_reasons : Proposal → List String
normalized_reasons p = elim p.reason_categories [
  | [] ↦ add_new [] (default_reasons p.primary_reason)
  | r ∷ rs ↦ add_new [] (r ∷ rs)
]

abbrev pub all_typed : List String → Bool
all_typed [] = true
all_typed (r ∷ rs) = contains r rejection_reasons && all_typed rs

abbrev pub is_among : Option String → List String → Bool
is_among none rs = false
is_among (some s) rs = contains s rs

abbrev pub same_id : Option String → String → Bool
same_id none i = false
same_id (some s) i = text_key.same s i

abbrev pub raise_first : List (Bool × DispositionError) → Result DispositionError (Unit {0})
raise_first [] = ok tt
raise_first ((b, x) ∷ gs) = if b then err x else raise_first gs

module _ (strip : String → String) (event_id_of : Proposal → String) where
  abbrev pub has_successor : Option String → Bool
  has_successor none = false
  has_successor (some s) = not (text_key.same (strip s) "")

  abbrev pub known : Option Disposition → Result DispositionError Disposition
  known none = err unknown_disposition
  known (some d) = ok d

  -- The guards of `record_disposition` in their order, each with what it raises.
  abbrev pub guards_of : Proposal → Disposition → List (Bool × DispositionError)
  guards_of p d =
      (
        not (
            all_named (
              p.run_uid ∷ p.candidate_id ∷ p.handoff_id ∷ p.timestamp ∷ p.executive_explanation
              ∷ p.impact ∷ p.remediation ∷ [])),
        fields_required,
      )
      ∷ (is_accepted d && not p.evaluation.is_eligible, incomplete_requirements)
      ∷ (
        is_accepted d
            && (not p.evaluation.oracle_passed
                || not (truthy_text p.evaluation.oracle_validation_id)),
        no_passing_oracle,
      )
      ∷ (not (all_typed (normalized_reasons p)), untyped_reason)
      ∷ (
        is_rejected d
            && (not (is_among p.primary_reason rejection_reasons)
                || not (is_among p.primary_reason (normalized_reasons p))),
        untyped_rejection,
      )
      ∷ (is_superseded d && not (has_successor p.superseded_by), successor_required)
      ∷ (same_id p.superseded_by p.candidate_id, supersedes_itself)
      ∷ (text_key.same (strip p.decision_maker) "", decision_maker_required)
      ∷ []

  unfoldable pub check_disposition : Proposal → Result DispositionError Disposition
  check_disposition p = known p.disposition >>= λ d. raise_first (guards_of p d) >> ok d

  unfoldable pub disposition_event : Proposal → Result DispositionError DispositionEvent
  disposition_event p = check_disposition p >>= λ d. ok (record {
    event_id = event_id_of p;
    disposition = d;
    proposal = p;
    reasons = normalized_reasons p;
  })
