-- ===== src/Conformance/Verdicts.antt =====
-- What two reports must say to satisfy a contract: collab/tools/lib/conformance.py, `reconcile`, and the
-- condition on its record in collab/tools/lib/done_contract.py.
use ibkr_auto_trader.Prelude.{
  ◌≡◌, refl, sym, ap, ◌∙◌, inl, inr, Bool, true, false, ◌&&◌, Option, none, some, String, List, [],
  ◌∷◌, not, if◌then◌else◌, text_key, map, arith, All, Bool-cases,
}
use ibkr_auto_trader.Prelude.Dict.{Dict, lookup}
use ibkr_auto_trader.Prelude.Sort.{sort}
use ibkr_auto_trader.Prelude.Result.{Result, ok, err, >>=-eq_ok}
use ibkr_auto_trader.Verification.{truthy, same_list}
use ibkr_auto_trader.DoneContract.{
  Conformance, RequirementResult, conformance_ok, is_empty, all_of, distinct, result_ids,
  has_member, text_le, is_bound,
}
use ibkr_auto_trader.Conformance.{
  Status, met, partial, missing, same_status, is_met, Finding, RawRecord, RawReport, ReportError,
  Contract, Pointer, Place, Reason, Adjudication, resolve_pointer, disagreement, evidence,
  parse_report, resolves_test, judge, judge_found, judge_all, blockers_of, is_nil, settled,
  with_reports, reconcile_reports,
}
use ibkr_auto_trader.Conformance.Reports.{IsRecorded, IsReportOn, parse_report-IsReportOn}

same_status-eq : (a b : Status) → same_status a b ≡ true → a ≡ b
same_status-eq met met h = refl
same_status-eq partial partial h = refl
same_status-eq missing missing h = refl
same_status-eq a b h = absurd (ground arith)

is_met-eq : (s : Status) → is_met s ≡ true → s ≡ met
is_met-eq met h = refl
is_met-eq s h = absurd (ground arith)

both : (a b : Bool) → (a && b) ≡ true → (a ≡ true) × (b ≡ true)
both a b h = (ground arith, ground arith)

ok_eq :
    {a b : List (String × Status)}
    → Path (Result Reason (List (String × Status))) (ok a) (ok b)
    → a ≡ b
ok_eq h = ground arith

status_eq : {a b : Status} → Path (Result Reason Status) (ok a) (ok b) → a ≡ b
status_eq h = ground arith

judged :
    (agree is_met' sources tests : Bool) (i : String) (st s : Status)
    → (if not agree
        then err (disagreement i)
        else if is_met' && not sources
        then err (evidence i)
        else if not tests
        then err (evidence i)
        else ok st)
      ≡ ok s
    → (agree ≡ true) × (tests ≡ true) × (is_met' ≡ true → sources ≡ true) × (st ≡ s)
judged true true true true i st s h = (refl, refl, λ e. refl, status_eq h)
judged true false sources true i st s h = (refl, refl, λ e. absurd (ground arith), status_eq h)
judged agree is_met' sources tests i st s h = absurd (ground arith)

abbrev pub ids_of : List (String × Status) → List String
ids_of [] = []
ids_of ((i, s) ∷ rs) = i ∷ ids_of rs

module _ (strip : String → String) (parse_pointer : String → Option Pointer)
    (look : String → Place) where
  -- Both say that it is met, cite sources that resolve, and no test that does not.
  abbrev pub AreConfirmed : Option Finding → Option Finding → Type 0
  AreConfirmed x y =
      (a : Finding) × (v : Finding) × (x ≡ some a)
      × (y ≡ some v)
      × (a.status ≡ met)
      × (v.status ≡ met)
      × (resolve_pointer strip parse_pointer look a.source ≡ true)
      × (resolve_pointer strip parse_pointer look v.source ≡ true)
      × (resolves_test strip parse_pointer look a.test ≡ true)
      × (resolves_test strip parse_pointer look v.test ≡ true)

  abbrev pub IsConfirmed : Dict String Finding → Dict String Finding → String → Type 0
  IsConfirmed as' vs i = AreConfirmed (lookup i as') (lookup i vs)

  -- A record of a report says that it is met, and cites a source that resolves and no test that does
  -- not.
  abbrev pub IsFoundMet : List (Option RawRecord) → String → Type 0
  IsFoundMet rs i =
      (f : Finding) × IsRecorded strip i f rs
      × (f.status ≡ met)
      × (resolve_pointer strip parse_pointer look f.source ≡ true)
      × (resolves_test strip parse_pointer look f.test ≡ true)

  judge-met :
      (i : String) (a v : Finding) (s : Status)
      → judge strip parse_pointer look i a v ≡ ok s
      → is_met s ≡ true
      → (a.status ≡ met)
        × (v.status ≡ met)
        × (resolve_pointer strip parse_pointer look a.source ≡ true)
        × (resolve_pointer strip parse_pointer look v.source ≡ true)
        × (resolves_test strip parse_pointer look a.test ≡ true)
        × (resolves_test strip parse_pointer look v.test ≡ true)
  judge-met i a v s h m =
      let (agree, tests, sources, e) =
        judged (same_status a.status v.status) (is_met a.status)
          (resolve_pointer strip parse_pointer look a.source
            && resolve_pointer strip parse_pointer look v.source)
          (resolves_test strip parse_pointer look a.test
            && resolves_test strip parse_pointer look v.test)
          i a.status s h in
      let k = ap is_met e ∙ m in
      let a_met = is_met-eq a.status k in
      let (s1, s2) = both _ _ (sources k) in
      let (t1, t2) = both _ _ tests in
      (a_met, sym (same_status-eq a.status v.status agree) ∙ a_met, s1, s2, t1, t2)

  judge_found-AreConfirmed :
      (x y : Option Finding) (i : String) (s : Status)
      → judge_found strip parse_pointer look i x y ≡ ok s
      → is_met s ≡ true
      → AreConfirmed x y
  judge_found-AreConfirmed (some a) (some v) i s h m =
      let (p, q, r, t, c, d) = judge-met i a v s h m in (a, v, refl, refl, p, q, r, t, c, d)
  judge_found-AreConfirmed none y i s h m = absurd (ground arith)
  judge_found-AreConfirmed (some a) none i s h m = absurd (ground arith)

  judge_all-IsConfirmed :
      (as' vs : Dict String Finding) (is : List String) (rs : List (String × Status))
      → judge_all strip parse_pointer look as' vs is ≡ ok rs
      → (ids_of rs ≡ is)
        × (is_nil strip parse_pointer look (blockers_of strip parse_pointer look rs) ≡ true
            → All (IsConfirmed as' vs) is)
  unfolding judge_all
  judge_all-IsConfirmed as' vs [] rs h = let e : [] ≡ rs = ok_eq h in (sym (ap ids_of e), λ n. tt)
  judge_all-IsConfirmed as' vs (i ∷ is) rs h =
      let (s, hs, h1) =
        >>=-eq_ok (judge_found strip parse_pointer look i (lookup i as') (lookup i vs)) _ h in
      let (rest, hr, h2) = >>=-eq_ok (judge_all strip parse_pointer look as' vs is) _ h1 in
      let (ids, ih) = judge_all-IsConfirmed as' vs is rest hr in
      let e : (i, s) ∷ rest ≡ rs = ok_eq h2 in
      (
        sym (ap ids_of e) ∙ ap (λ xs. i ∷ xs) ids,
        λ n.
            (let k =
                ap (λ x. is_nil strip parse_pointer look (blockers_of strip parse_pointer look x)) e
                ∙ n in
              elim (Bool-cases (is_met s)) [
                | inl m ↦ (
                  judge_found-AreConfirmed (lookup i as') (lookup i vs) i s hs m,
                  ih (ground arith),
                )
                | inr m ↦ absurd (ground arith)
              ]),
      )

  -- What stands behind a record that is satisfied.
  abbrev pub IsBorneOut :
      Contract
      → Result ReportError (Dict String Finding)
      → Result ReportError (Dict String Finding)
      → Type 0
  IsBorneOut c x y =
      (as' : Dict String Finding) × (vs : Dict String Finding) × (x ≡ ok as')
      × (y ≡ ok vs)
      × All (IsConfirmed as' vs) c.ids

  -- What stands behind a satisfied adjudication: two reports on the contract, each of which finds every
  -- requirement met.
  abbrev pub AreReportsOn : Contract → Option RawReport → Option RawReport → Type 0
  AreReportsOn c assessor verifier =
      (as' : List (Option RawRecord)) × (vs : List (Option RawRecord)) × IsReportOn strip c as'
        assessor
      × IsReportOn strip c vs verifier
      × All (λ i. IsFoundMet as' i × IsFoundMet vs i) c.ids

  confirmed-IsFoundMet :
      (found found' : Dict String Finding) (as' vs : List (Option RawRecord)) (is : List String)
      → ((i : String) (f : Finding) → lookup i found ≡ some f → IsRecorded strip i f as')
      → ((i : String) (f : Finding) → lookup i found' ≡ some f → IsRecorded strip i f vs)
      → All (IsConfirmed found found') is
      → All (λ i. IsFoundMet as' i × IsFoundMet vs i) is
  confirmed-IsFoundMet found found' as' vs [] of_a of_v h = tt
  confirmed-IsFoundMet found found' as' vs (i ∷ is) of_a of_v
        ((a, v, p, q, am, vm, sa, sv, ta, tv), h) =
      (
        ((a, of_a i a p, am, sa, ta), (v, of_v i v q, vm, sv, tv)),
        confirmed-IsFoundMet found found' as' vs is of_a of_v h,
      )

  settled_lem :
      (c : Contract) (r : Result Reason (List (String × Status)))
      → (settled strip parse_pointer look c r).satisfied ≡ true
      → (rs : List (String × Status)) × (r ≡ ok rs)
        × (is_nil strip parse_pointer look (blockers_of strip parse_pointer look rs) ≡ true)
  settled_lem c (ok rs) h = (rs, refl, h)
  settled_lem c (err e) h = absurd (ground arith)

  with_reports-IsBorneOut :
      (c : Contract) (x y : Result ReportError (Dict String Finding))
      → (with_reports strip parse_pointer look c x y).satisfied ≡ true
      → IsBorneOut c x y
        × ((rs : List (String × Status)) × (with_reports strip parse_pointer look c x y
              ≡ settled strip parse_pointer look c (ok rs))
            × (ids_of rs ≡ c.ids)
            × (is_nil strip parse_pointer look (blockers_of strip parse_pointer look rs) ≡ true))
  with_reports-IsBorneOut c (ok as') (ok vs) h =
      let (rs, e, n) = settled_lem c (judge_all strip parse_pointer look as' vs c.ids) h in
      let (ids, f) = judge_all-IsConfirmed as' vs c.ids rs e in
      ((as', vs, refl, refl, f n), (rs, ap (settled strip parse_pointer look c) e, ids, n))
  with_reports-IsBorneOut c (err e) y h = absurd (ground arith)
  with_reports-IsBorneOut c (ok as') (err e) h = absurd (ground arith)

  -- The adjudication of two reports is satisfied only if both name the contract by its digest and
  -- have records on its requirements only, and each of its requirements is met by a record of each
  -- report, which cites a source that resolves and no test that does not.
  pub reconcile_reports-AreReportsOn :
      (c : Contract) (assessor verifier : Option RawReport)
      → (reconcile_reports strip parse_pointer look c assessor verifier).satisfied ≡ true
      → AreReportsOn c assessor verifier
  unfolding reconcile_reports
  reconcile_reports-AreReportsOn c assessor verifier h =
      let ((found, found', p, q, confirmed), _) =
        with_reports-IsBorneOut c (parse_report strip parse_pointer look c assessor)
          (parse_report strip parse_pointer look c verifier) h in
      let (as', on_a, of_a) = parse_report-IsReportOn strip parse_pointer look c assessor found p in
      let (vs, on_v, of_v) = parse_report-IsReportOn strip parse_pointer look c verifier found' q in
      (as', vs, on_a, on_v, confirmed-IsFoundMet found found' as' vs c.ids of_a of_v confirmed)

  abbrev pub to_result : String × Status → RequirementResult
  to_result (i, s) = record { id = i; is_met = is_met s }

  abbrev pub is_some : Option Reason → Bool
  is_some none = false
  is_some (some r) = true

  -- The record, as the ledger of a candidate carries it.
  abbrev pub to_conformance : Option String → String → Adjudication → Conformance
  to_conformance candidate digest a = record {
    contract_digest = some digest;
    candidate_id = candidate;
    is_incomplete = is_some a.incomplete;
    requirement_ids = a.requirement_ids;
    results = map to_result a.results;
  }

  all_met :
      (rs : List (String × Status))
      → is_nil strip parse_pointer look (blockers_of strip parse_pointer look rs) ≡ true
      → all_of (λ r. r.is_met) (map to_result rs) ≡ true
  all_met [] h = refl
  all_met ((i, s) ∷ rs) h = elim (Bool-cases (is_met s)) [
    | inl m ↦ ground (arith, all_met rs (ground arith))
    | inr m ↦ absurd (ground arith)
  ]

  result_ids-to_result : (rs : List (String × Status)) → result_ids (map to_result rs) ≡ ids_of rs
  result_ids-to_result [] = refl
  result_ids-to_result ((i, s) ∷ rs) = ap (λ xs. i ∷ xs) (result_ids-to_result rs)

  -- No id twice.
  abbrev pub AreDistinct : List String → Type 0
  AreDistinct [] = Unit
  AreDistinct (i ∷ is) = (has_member is i ≡ false) × AreDistinct is

  distinct_lem : (is : List String) → AreDistinct is → distinct is ≡ is
  distinct_lem [] d = refl
  distinct_lem (i ∷ is) d = rw (distinct_lem is d.1, d.0) refl

  same_list_refl : (xs : List String) → same_list xs xs ≡ true
  same_list_refl [] = refl
  same_list_refl (x ∷ xs) = ground (arith, text_key.same_iff x x, same_list_refl xs)

  is_bound_refl : (candidate : Option String) → is_bound candidate candidate ≡ true
  is_bound_refl none = refl
  is_bound_refl (some i) = (text_key.same_iff i i).1 refl

  accepted :
      (candidate : Option String) (c : Contract) (rs : List (String × Status))
      → truthy (some c.digest) ≡ true
      → is_empty c.ids ≡ false
      → AreDistinct c.ids
      → ids_of rs ≡ c.ids
      → is_nil strip parse_pointer look (blockers_of strip parse_pointer look rs) ≡ true
      → conformance_ok candidate
          (some (to_conformance candidate c.digest (settled strip parse_pointer look c (ok rs))))
        ≡ true
  unfolding conformance_ok
  accepted candidate c rs t n d e k =
      let q : distinct (result_ids (map to_result rs)) ≡ c.ids =
        ap distinct (result_ids-to_result rs ∙ e) ∙ distinct_lem c.ids d in
      rw (t, is_bound_refl candidate, n, all_met rs k, q) (same_list_refl (sort text_le c.ids))

  -- The record of a satisfied adjudication, bound to a candidate, is accepted by the done contract as that
  -- candidate's conformance, if the contract has a digest, requires something, and requires nothing
  -- twice.
  pub reconcile_reports-conformance_ok :
      (candidate : Option String) (c : Contract) (assessor verifier : Option RawReport)
      → truthy (some c.digest) ≡ true
      → is_empty c.ids ≡ false
      → AreDistinct c.ids
      → (reconcile_reports strip parse_pointer look c assessor verifier).satisfied ≡ true
      → conformance_ok candidate (
          some (
            to_conformance candidate c.digest
              (reconcile_reports strip parse_pointer look c assessor verifier)))
        ≡ true
  unfolding reconcile_reports
  reconcile_reports-conformance_ok candidate c assessor verifier t n d h =
      let (b, (rs, e, ids, k)) =
        with_reports-IsBorneOut c (parse_report strip parse_pointer look c assessor)
          (parse_report strip parse_pointer look c verifier) h in
      ap (λ a. conformance_ok candidate (some (to_conformance candidate c.digest a))) e
      ∙ accepted candidate c rs t n d ids k
