-- ===== src/Tests/Conformance.antt =====
-- Two reports that agree, and what becomes of their record.
use ibkr_auto_trader.Prelude.{◌≡◌, refl, true, Option, some, String, [], ◌∷◌}
use ibkr_auto_trader.DoneContract.{conformance_ok}
use ibkr_auto_trader.Conformance.{
  met, no_test, cites, RawReport, Contract, Pointer, Place, parse_report, reconcile_reports,
  resolve_pointer, read_records, judge_all,
}
use ibkr_auto_trader.Conformance.Verdicts.{
  AreReportsOn, to_conformance, reconcile_reports-AreReportsOn, reconcile_reports-conformance_ok,
}

abbrev trimmed : String → String
trimmed s = s

abbrev pointed : String → Option Pointer
pointed s = some (record { path = s; start = 3; end = 9 })

abbrev seen_at : String → Place
seen_at s = record {
  is_relative = true;
  is_inside = true;
  is_permitted = true;
  line_count = some 40;
}

abbrev two_requirements : Contract
two_requirements = record { digest = "conformance:1"; ids = "R1" ∷ "R2" ∷ [] }

abbrev report_of : String → String → RawReport
report_of i j = record {
  contract_digest = some "conformance:1";
  requirements = some (
      some (record { id = some i; status = some met; source = some "a.py:3-9"; test = no_test })
      ∷ some (record {
        id = some j;
        status = some met;
        source = some "b.py:3-9";
        test = cites (some "t.py:3-9");
      })
      ∷ []);
}

both_agree :
    (reconcile_reports trimmed pointed seen_at two_requirements
      (some (report_of "R1" "R2"))
      (some (report_of "R2" "R1"))).satisfied
    ≡ true
unfolding reconcile_reports parse_report read_records judge_all resolve_pointer
both_agree = refl

reconcile_reports-AreReportsOn_example :
    AreReportsOn trimmed pointed seen_at two_requirements
      (some (report_of "R1" "R2"))
      (some (report_of "R2" "R1"))
reconcile_reports-AreReportsOn_example =
    reconcile_reports-AreReportsOn trimmed pointed seen_at two_requirements
      (some (report_of "R1" "R2")) (some (report_of "R2" "R1")) both_agree

reconcile_reports-conformance_ok_example :
    conformance_ok (some "c1") (
      some (
        to_conformance trimmed pointed seen_at (some "c1") "conformance:1" (
          reconcile_reports trimmed pointed seen_at two_requirements
            (some (report_of "R1" "R2"))
            (some (report_of "R2" "R1")))))
    ≡ true
reconcile_reports-conformance_ok_example =
    reconcile_reports-conformance_ok trimmed pointed seen_at (some "c1") two_requirements
      (some (report_of "R1" "R2")) (some (report_of "R2" "R1")) refl refl (refl, (refl, tt))
      both_agree
