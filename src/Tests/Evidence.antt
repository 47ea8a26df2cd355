-- ===== src/Tests/Evidence.antt =====
-- Evidence that is appended, and a disposition that may be recorded.
use ibkr_auto_trader.Prelude.{◌≡◌, refl, true, none, some, String, List, [], ◌∷◌, ◌++◌, text_key}
use ibkr_auto_trader.Prelude.Result.{ok}
use ibkr_auto_trader.RunEvidence.{Recorded, entry, appended, append, prior_of, records}
use ibkr_auto_trader.RunEvidence.Identity.{written, AreIdentified, append-AreIdentified}
use ibkr_auto_trader.CandidateDisposition.{
  accepted, Proposal, DispositionEvent, disposition_event, check_disposition, normalized_reasons,
}
use ibkr_auto_trader.CandidateDisposition.Guards.{IsBacked, disposition_event-IsBacked}

-- Records that are their own identity.
instance abbrev notes : Recorded String
notes = record {
  record_type = λ s. "note";
  identity = λ s. s;
  same_record = λ a b. text_key.same a b;
  same_record_iff = text_key.same_iff;
}

abbrev note_a : String
note_a = "a"

abbrev note_b : String
note_b = "b"

one_identified : AreIdentified [] (note_a ∷ [])
unfolding prior_of
one_identified = (refl, tt)

appended_b : append note_b (written (note_a ∷ [])) ≡ ok (entry note_a ∷ entry note_b ∷ [], appended)
unfolding append prior_of records
appended_b = refl

append-AreIdentified_example :
    (more : List String) × (entry note_a ∷ entry note_b ∷ [] ≡ written (note_a ∷ [] ++ more))
    × AreIdentified [] (note_a ∷ [] ++ more)
append-AreIdentified_example =
    append-AreIdentified note_b (note_a ∷ []) (entry note_a ∷ entry note_b ∷ []) appended
      one_identified appended_b

abbrev trimmed_text : String → String
trimmed_text s = s

abbrev event_id : Proposal → String
event_id p = p.candidate_id

abbrev acceptance : Proposal
acceptance = record {
  run_uid = "run-1";
  candidate_id = "c1";
  handoff_id = "014";
  timestamp = "2026-07-16T10:00:00Z";
  disposition = some accepted;
  executive_explanation = "all requirements are met";
  impact = "ships";
  remediation = "none";
  evaluation = record {
    is_eligible = true;
    oracle_passed = true;
    oracle_validation_id = some "v1";
  };
  decision_maker = "candidate-assessment";
  primary_reason = none;
  reason_categories = [];
  superseded_by = none;
  passed_on = "";
}

abbrev accepted_event : DispositionEvent
accepted_event = record {
  event_id = "c1";
  disposition = accepted;
  proposal = acceptance;
  reasons = [];
}

acceptance_recorded : disposition_event trimmed_text event_id acceptance ≡ ok accepted_event
unfolding disposition_event check_disposition
acceptance_recorded = refl

disposition_event-IsBacked_example :
    IsBacked trimmed_text event_id acceptance accepted
    × ([] ≡ normalized_reasons acceptance)
    × ("c1" ≡ event_id acceptance)
disposition_event-IsBacked_example =
    disposition_event-IsBacked trimmed_text event_id acceptance accepted_event acceptance_recorded
