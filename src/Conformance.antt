-- ===== src/Conformance.antt =====
-- collab/tools/lib/conformance.py: two reports on the requirements that a candidate must meet, and what
-- is made of them. A report is taken as its JSON document, none where its text holds none. Parameters
-- are `strip`, the parts that the regular expression finds in a pointer, and what is found at a path
-- below the source's base. Texts of detail are left out.
pub mod Reports
pub mod Verdicts
use ibkr_auto_trader.Prelude.{
  ℕ, ◌≤◌, Bool, true, false, ◌&&◌, Option, none, some, String, List, [], ◌∷◌, ◌++◌, not,
  if◌then◌else◌, Key, text_key, leb, map,
}
use ibkr_auto_trader.Prelude.Dict.{Dict, lookup, insert, keys, contains}
use ibkr_auto_trader.Prelude.Result.{Result, ok, err, ◌>>=◌, ◌>>◌, raise_if}

pub data Status : Type 0 where
  met partial missing : Status

abbrev pub same_status : Status → Status → Bool
same_status met met = true
same_status partial partial = true
same_status missing missing = true
same_status _ _ = false

abbrev pub is_met : Status → Bool
is_met met = true
is_met _ = false

-- What a record cites as its test: nothing, or a value, none if it is no text.
pub data CitedTest : Type 0 where
  no_test : CitedTest
  cites : Option String → CitedTest

pub record Finding : Type 0 where
  pub status : Status
  pub source : Option String
  pub test : CitedTest

-- A record of a report; none is a value of another kind than is wanted.
pub record RawRecord : Type 0 where
  pub id : Option String
  pub status : Option Status
  pub source : Option String
  pub test : CitedTest

pub record RawReport : Type 0 where
  pub contract_digest : Option String
  pub requirements : Option (List (Option RawRecord))

-- `ConformanceContract`, its requirements' texts left out.
pub record Contract : Type 0 where
  pub digest : String
  pub ids : List String

pub data ReportError : Type 0 where
  not_json stale no_requirements not_a_record no_id coverage_mismatch : ReportError
  duplicate_record invalid_status : String → ReportError

-- The parts of `path:start-end`.
pub record Pointer : Type 0 where
  pub path : String
  pub start : ℕ
  pub end : ℕ

-- What there is at a path: whether it is relative and does not climb, whether it resolves below the
-- base and within the permitted roots, and the number of its lines if it is a file that can be read.
pub record Place : Type 0 where
  pub is_relative : Bool
  pub is_inside : Bool
  pub is_permitted : Bool
  pub line_count : Option ℕ

abbrev pub has_lines : Option ℕ → ℕ → Bool
has_lines none end = false
has_lines (some total) end = leb end total

abbrev pub is_listed : List String → String → Bool
is_listed ids i = contains i ids

abbrev pub all_listed : List String → List String → Bool
all_listed ids [] = true
all_listed ids (i ∷ is) = is_listed ids i && all_listed ids is

pub data Reason : Type 0 where
  assessor_report verifier_report : ReportError → Reason
  disagreement evidence no_record : String → Reason

-- The record of conformance, its digests left out.
pub record Adjudication : Type 0 where
  pub requirement_ids : List String
  pub results : List (String × Status)
  pub blockers : List String
  pub incomplete : Option Reason
  pub satisfied : Bool

module _ (strip : String → String) (parse_pointer : String → Option Pointer)
    (look : String → Place) where
  unfoldable pub resolve_pointer : Option String → Bool
  resolve_pointer none = false
  resolve_pointer (some s) = elim (parse_pointer (strip s)) [
    | none ↦ false
    | some p ↦
        leb 1 p.start
        && leb p.start p.end
        && (look p.path).is_relative
        && (look p.path).is_inside
        && (look p.path).is_permitted
        && has_lines (look p.path).line_count p.end
  ]

  abbrev pub read_record :
      Dict String Finding → Option RawRecord → Result ReportError (Dict String Finding)
  read_record seen none = err not_a_record
  read_record seen (some r) = elim r.id [
    | none ↦ err no_id
    | some raw ↦
        (if text_key.same (strip raw) ""
          then err no_id
          else if contains (strip raw) (keys seen)
          then err (duplicate_record (strip raw))
          else elim r.status [
            | none ↦ err (invalid_status (strip raw))
            | some s ↦
                ok (
                  insert (strip raw) (record { status = s; source = r.source; test = r.test }) seen)
          ])
  ]

  unfoldable pub read_records :
      Dict String Finding → List (Option RawRecord) → Result ReportError (Dict String Finding)
  read_records seen [] = ok seen
  read_records seen (r ∷ rs) = read_record seen r >>= λ more. read_records more rs

  abbrev pub covers : Contract → Dict String Finding → Result ReportError (Dict String Finding)
  covers c found =
      if all_listed c.ids (keys found) && all_listed (keys found) c.ids
      then ok found
      else err coverage_mismatch

  abbrev pub is_bound_to : Contract → Option String → Bool
  is_bound_to c none = false
  is_bound_to c (some d) = text_key.same d c.digest

  unfoldable pub parse_report :
      Contract → Option RawReport → Result ReportError (Dict String Finding)
  parse_report c none = err not_json
  parse_report c (some r) =
      if not (is_bound_to c r.contract_digest) then err stale else elim r.requirements [
        | none ↦ err no_requirements
        | some rs ↦ read_records [] rs >>= covers c
      ]

  abbrev pub resolves_test : CitedTest → Bool
  resolves_test no_test = true
  resolves_test (cites s) = resolve_pointer s

  -- One requirement: the status that both give it, or why there is none.
  abbrev pub judge : String → Finding → Finding → Result Reason Status
  judge i a v =
      if not (same_status a.status v.status)
      then err (disagreement i)
      else if is_met a.status && not (resolve_pointer a.source && resolve_pointer v.source)
      then err (evidence i)
      else if not (resolves_test a.test && resolves_test v.test)
      then err (evidence i)
      else ok a.status

  abbrev pub judge_found : String → Option Finding → Option Finding → Result Reason Status
  judge_found i (some a) (some v) = judge i a v
  judge_found i _ _ = err (no_record i)

  unfoldable pub judge_all :
      Dict String Finding
      → Dict String Finding
      → List String
      → Result Reason (List (String × Status))
  judge_all as' vs [] = ok []
  judge_all as' vs (i ∷ is) = do
    s ← judge_found i (lookup i as') (lookup i vs)
    rest ← judge_all as' vs is
    ok ((i, s) ∷ rest)

  abbrev pub blockers_of : List (String × Status) → List String
  blockers_of [] = []
  blockers_of ((i, s) ∷ rs) = let rest = blockers_of rs in if is_met s then rest else i ∷ rest

  abbrev pub unresolved : Contract → Reason → Adjudication
  unresolved c r = record {
    requirement_ids = c.ids;
    results = [];
    blockers = [];
    incomplete = some r;
    satisfied = false;
  }

  abbrev pub is_nil : List String → Bool
  is_nil [] = true
  is_nil (i ∷ is) = false

  abbrev pub settled : Contract → Result Reason (List (String × Status)) → Adjudication
  settled c (err r) = unresolved c r
  settled c (ok rs) = record {
    requirement_ids = c.ids;
    results = rs;
    blockers = blockers_of rs;
    incomplete = none;
    satisfied = is_nil (blockers_of rs);
  }

  abbrev pub with_reports :
      Contract
      → Result ReportError (Dict String Finding)
      → Result ReportError (Dict String Finding)
      → Adjudication
  with_reports c (err e) v = unresolved c (assessor_report e)
  with_reports c (ok as') (err e) = unresolved c (verifier_report e)
  with_reports c (ok as') (ok vs) = settled c (judge_all as' vs c.ids)

  unfoldable pub reconcile_reports : Contract → Option RawReport → Option RawReport → Adjudication
  reconcile_reports c assessor verifier =
      with_reports c (parse_report c assessor) (parse_report c verifier)
