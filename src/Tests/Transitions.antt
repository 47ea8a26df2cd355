-- ===== src/Tests/Transitions.antt =====
-- A close by a person, with a strip that keeps texts as they are: neither of these has blanks.
use ibkr_auto_trader.Prelude.{◌≡◌, ◌≢◌, refl, none, some, String, [], ◌∷◌, if◌then◌else◌}
use ibkr_auto_trader.Prelude.Result.{ok}
use ibkr_auto_trader.Transitions.{
  human_override, autonomous_label, human_label, unrecorded_label, Transition, Proposal, validate,
  write, read, summary,
}
use ibkr_auto_trader.Transitions.Provenance.{is_claimed, write_lem}

abbrev keep : String → String
keep s = s

abbrev second : String
second = "008"

abbrev override : Proposal
override = record {
  kind = some human_override;
  actor = some "ann";
  reason = some "gate flaked";
  receipt = none;
}

abbrev overridden : Transition
overridden = record {
  kind = human_override;
  actor = "ann";
  reason = some "gate flaked";
  receipt = none;
}

override_valid : validate keep override ≡ ok overridden
unfolding validate
override_valid = refl

override_written : write keep [] "007" override ≡ ok (("007", some overridden) ∷ [])
unfolding write validate
override_written = refl

write_lem_example :
    ((summary keep (("007", some overridden) ∷ []) "007").label
      ≡ (if is_claimed override.kind then autonomous_label else human_label))
    × (second ≢ "007" → read keep (("007", some overridden) ∷ []) "008" ≡ read keep [] "008")
    × (read keep [] "008" ≡ none → (summary keep [] "008").label ≡ unrecorded_label)
write_lem_example =
    write_lem keep (λ s. refl) [] (("007", some overridden) ∷ []) "007" "008" override
      override_written
