-- ===== src/RunEvidence.antt =====
-- collab/tools/lib/run_evidence.py: the append-only file of a run's evidence, over any type of record
-- that has a type, an identity and a test of equality. `append` is one step, as the file's lock makes
-- it. A file or disk that fails, and the record of the file's health, are left out.
pub mod Identity
use ibkr_auto_trader.Prelude.{
  ◌≡◌, ◌↔◌, Bool, true, false, ◌&&◌, ◌||◌, Option, none, some, String, List, [], ◌∷◌, ◌++◌, not,
  if◌then◌else◌, Key, text_key,
}
use ibkr_auto_trader.Prelude.Result.{Result, ok, err, ◌>>=◌}

-- What the file asks of a record.
pub record Recorded (E : Type 0) : Type 0 where
  pub record_type : E → String
  pub identity : E → String
  pub same_record : E → E → Bool
  pub same_record_iff : (a b : E) → (same_record a b ≡ true) ↔ (a ≡ b)

pub data Line (E : Type 0) : Type 0 where
  blank_line malformed_line non_object_line : Line E
  entry : E → Line E

pub data EvidenceError : Type 0 where
  identity_required malformed_evidence non_object_record : EvidenceError
  identity_collision : String → EvidenceError

pub data Appended : Type 0 where
  appended duplicate : Appended

module _ {E : Type 0} ⦃r : Recorded E⦄ where
  -- `_records`
  unfoldable pub records : List (Line E) → Result EvidenceError (List E)
  records [] = ok []
  records (blank_line ∷ ls) = records ls
  records (malformed_line ∷ ls) = err malformed_evidence
  records (non_object_line ∷ ls) = err non_object_record
  records (entry e ∷ ls) = records ls >>= λ es. ok (e ∷ es)

  abbrev pub is_same_identity : E → E → Bool
  is_same_identity e prior =
      text_key.same (r.record_type prior) (r.record_type e)
      && text_key.same (r.identity prior) (r.identity e)

  -- The first of the records that has the event's type and identity.
  unfoldable pub prior_of : E → List E → Option E
  prior_of e [] = none
  prior_of e (p ∷ ps) = if is_same_identity e p then some p else prior_of e ps

  abbrev pub append_after :
      E → List (Line E) → Option E → Result EvidenceError (List (Line E) × Appended)
  append_after e ls none = ok (ls ++ entry e ∷ [], appended)
  append_after e ls (some p) =
      if r.same_record p e then ok (ls, duplicate) else err (identity_collision (r.identity e))

  unfoldable pub append : E → List (Line E) → Result EvidenceError (List (Line E) × Appended)
  append e ls =
      if text_key.same (r.identity e) "" || text_key.same (r.record_type e) ""
      then err identity_required
      else records ls >>= λ es. append_after e ls (prior_of e es)
