-- ===== src/Tests/Contract.antt =====
-- A green run of the authoritative command, and a contract that it satisfies.
use ibkr_auto_trader.Prelude.{
  ◌≡◌, ◌⊎◌, ◌↔◌, refl, true, false, some, [], ◌∷◌, All, String, Option, text_key,
}
use ibkr_auto_trader.Prelude.Int.{pos}
use ibkr_auto_trader.Prelude.Sort.{sort, place}
use ibkr_auto_trader.Handoff.{pending, claimed}
use ibkr_auto_trader.Verification.{
  authoritative_argv, green_label, omitted, argv_of, Checkout, Receipt, exits, normalize_argv,
  norm_root, run_authoritative, is_green, matches_checkout, truthy, stable,
}
use ibkr_auto_trader.Verification.Green.{HoldsStill, run_authoritative_iff, matches_checkout_lem}
use ibkr_auto_trader.DoneContract.{
  Ledger, Preflight, Conformance, evaluate, preflight_ok, has_member, is_independent, is_fresh,
  conformance_ok,
}
use ibkr_auto_trader.DoneContract.Contract.{AreIndependent, Conforms, evaluate-Conforms}

abbrev as_is : String → String
as_is s = s

abbrev at_root : String → Option String
at_root s = some s

abbrev reviewer : String
reviewer = "codex"

abbrev builder : String
builder = "claude"

abbrev checkout : Checkout
checkout = record { root = some "/work"; sha = some "4f2a"; status = "" }

run_authoritative_iff_example :
    let r = run_authoritative as_is at_root omitted checkout (exits (pos 0)) checkout in
    ((is_green as_is at_root (some r) ≡ true) ↔ (
      (normalize_argv as_is at_root (argv_of as_is at_root omitted) ≡ some authoritative_argv)
      × (exits (pos 0) ≡ exits (pos 0))
      × HoldsStill at_root as_is checkout checkout))
    × ((r.label ≡ green_label) ↔ (is_green as_is at_root (some r) ≡ true))
run_authoritative_iff_example =
    run_authoritative_iff as_is at_root (refl, (refl, (refl, (refl, (refl, tt))))) omitted checkout
      checkout (exits (pos 0))

abbrev green_receipt : Receipt
green_receipt = run_authoritative as_is at_root omitted checkout (exits (pos 0)) checkout

receipt_is_green : is_green as_is at_root (some green_receipt) ≡ true
unfolding is_green run_authoritative normalize_argv stable
receipt_is_green = refl

receipt_matches : matches_checkout as_is at_root (some green_receipt) checkout ≡ true
unfolding matches_checkout run_authoritative normalize_argv stable
receipt_matches = refl

matches_checkout_lem_example :
    (norm_root as_is at_root green_receipt.repo_root ≡ norm_root as_is at_root checkout.root)
    × (green_receipt.end_sha ≡ checkout.sha)
    × (green_receipt.start_sha ≡ checkout.sha)
    × (green_receipt.start_status ≡ some checkout.status)
    × (green_receipt.exit_code ≡ some (pos 0))
    × (truthy checkout.sha ≡ true)
matches_checkout_lem_example =
    matches_checkout_lem as_is at_root (refl, (refl, (refl, (refl, (refl, tt))))) green_receipt
      checkout receipt_is_green receipt_matches

abbrev seen : Preflight
seen = record {
  seat = reviewer;
  repo_access = true;
  rev_parse_exit = some (pos 0);
  collect_only_exit = some (pos 0);
  inspected_files = some (record { is_relative = true; is_inside = true } ∷ []);
  root_resolves = true;
}

abbrev evidence : Conformance
evidence = record {
  contract_digest = some "d1";
  candidate_id = some "c1";
  is_incomplete = false;
  requirement_ids = "R2" ∷ "R1" ∷ [];
  results = record { id = "R1"; is_met = true } ∷ record { id = "R2"; is_met = true } ∷ [];
}

abbrev ledger : Ledger
ledger = record {
  source_files = some 900000 ∷ [];
  base_parts = some ("work" ∷ "src" ∷ []);
  generated = some 1000000;
  source_is_tested = true;
  reviewer_seat = reviewer;
  builder_seat = builder;
  has_plan = true;
  required_passes = "correctness" ∷ [];
  ran_passes = "security" ∷ "correctness" ∷ [];
  is_incomplete = false;
  tool_error = false;
  blockers = record { fixed = true; has_regression_test = true } ∷ [];
  tests = green_receipt;
  has_residuals = true;
  preflight = some seen;
  conformance = some evidence;
}

contract_is_satisfied :
    (evaluate as_is as_is at_root reviewer builder
      (some "c1")
      (some claimed)
      checkout
      (some ledger)).satisfied
    ≡ true
unfolding evaluate run_authoritative is_independent is_green normalize_argv stable matches_checkout
    is_fresh preflight_ok conformance_ok sort place
contract_is_satisfied = refl

evaluate-Conforms_example :
    (l : Ledger) × (some ledger ≡ some l)
    × All (λ b. b.fixed ≡ true) l.blockers
    × All (λ b. b.has_regression_test ≡ true) l.blockers
    × All (λ p. has_member l.ran_passes p ≡ true) l.required_passes
    × (is_green as_is at_root (some l.tests) ≡ true)
    × (matches_checkout as_is at_root (some l.tests) checkout ≡ true)
    × AreIndependent reviewer builder
    × AreIndependent l.reviewer_seat l.builder_seat
    × (preflight_ok as_is as_is at_root reviewer l.preflight ≡ true)
    × ((some claimed ≡ some pending) ⊎ (some claimed ≡ some claimed))
    × Conforms (some "c1") l.conformance
evaluate-Conforms_example =
    evaluate-Conforms as_is as_is at_root reviewer builder (some "c1") (some claimed) checkout
      (some ledger) contract_is_satisfied
