-- ===== src/Tests/Operational.antt =====
-- A history of two events, what is appended to it, and what it reduces to.
use ibkr_auto_trader.Prelude.{
  inr, ◌≡◌, ◌≢◌, ◌↔◌, refl, Bool, true, false, none, some, List, [], ◌∷◌, ◌++◌, if◌then◌else◌, All,
  arith, String, text_key,
}
use ibkr_auto_trader.Prelude.Result.{ok, err}
use ibkr_auto_trader.Prelude.Sort.{IsOrdered}
use ibkr_auto_trader.OperationalState.{queued, claimed, completed, OperationalEvent}
use ibkr_auto_trader.OperationalState.Event.{to_dict, from_dict}
use ibkr_auto_trader.OperationalState.Event.RoundTrip.{IsEvent, from_dict-to_dict}
use ibkr_auto_trader.OperationalState.Replay.{
  with_id, same_payload, by_time, replay, reduce_history, reconciliation,
}
use ibkr_auto_trader.OperationalState.Replay.Legal.{Runs, final-replay}
use ibkr_auto_trader.OperationalState.Replay.Redelivery.{
  HasNewIds, reduce_history-redelivered, reduce_history_iff,
}
use ibkr_auto_trader.OperationalState.History.{take, stamp, append_event, id_collision}
use ibkr_auto_trader.OperationalState.History.Numbered.{written, IsNumberedFrom}
use ibkr_auto_trader.OperationalState.History.Append.{
  append_event_lem, append-IsNumberedFrom, append_again,
}
use ibkr_auto_trader.OperationalState.Reconcile.{
  Fact, Sources, done_board, thinking, retry, facts, selected, is_closed,
}
use ibkr_auto_trader.OperationalState.Reconcile.Effective.{Weighs, selected_lem}

abbrev no_text : String → Bool
no_text s = text_key.same s ""

abbrev an_entity : String → Bool
an_entity s = text_key.same s "014"

abbrev first_event : OperationalEvent
first_event = record {
  event_id = "e1";
  entity_id = "014";
  previous_state = none;
  new_state = queued;
  reason = "created";
  source = "handoff_directory";
  actor = some "operator";
  run_id = none;
  event_ts = "2026-07-16T10:00:00Z";
  ingested_ts = "2026-07-16T10:00:00Z";
  correlation_id = none;
  trace_id = none;
  conditions = [];
  escalation_severity = none;
  escalation_reason = none;
  escalation_ts = none;
  required_action = none;
  sequence = some 1;
  schema_version = "1.0";
}

abbrev second_event : OperationalEvent
second_event = record first_event {
  event_id = "e2";
  previous_state = some queued;
  new_state = claimed;
  reason = "claimed";
  event_ts = "2026-07-16T10:05:00Z";
  ingested_ts = "2026-07-16T10:05:00Z";
  conditions = "seat:b" ∷ [];
  sequence = none;
}

first-IsEvent : IsEvent no_text an_entity first_event
first-IsEvent = (refl, omega arith, refl, refl, refl, refl, refl, refl, refl)

from_dict-to_dict_example :
    from_dict no_text an_entity (some (to_dict first_event)) ≡ ok first_event
from_dict-to_dict_example = from_dict-to_dict no_text an_entity first_event first-IsEvent

abbrev history : List OperationalEvent
history = first_event ∷ []

history_numbered : IsNumberedFrom no_text an_entity "014" 0 history
history_numbered = ((first-IsEvent, refl, refl), tt)

history_new : HasNewIds [] history
unfolding with_id
history_new = (refl, tt)

id_is_new : with_id "e2" history ≡ none
unfolding with_id
id_is_new = refl

abbrev stamped : OperationalEvent
stamped = record second_event { sequence = some 2 }

append_event_lem_example :
    (with_id "e2" (take 100 history) ≡ none
      → let stamped' = stamp no_text an_entity "now" second_event 2 in
        append_event no_text an_entity "now" second_event (some (written history))
        ≡ ok (
          some (written (history ++ stamped' ∷ [])),
          record { event = stamped'; appended = true },
        ))
    × ((old : OperationalEvent)
        → with_id "e2" (take 100 history) ≡ some old
        → append_event no_text an_entity "now" second_event (some (written history)) ≡ (
            if same_payload old second_event
            then ok (some (written history), record { event = old; appended = false })
            else err (id_collision "e2")))
append_event_lem_example =
    append_event_lem no_text an_entity "now" second_event history refl refl history_numbered

stamped-IsEvent : IsEvent no_text an_entity (stamp no_text an_entity "now" second_event 2)
stamped-IsEvent = (refl, omega arith, refl, refl, refl, refl, refl, refl, refl)

append-IsNumberedFrom_example :
    (append_event no_text an_entity "now" second_event (some (written history))
      ≡ ok (some (written (history ++ stamped ∷ [])), record { event = stamped; appended = true }))
    × IsNumberedFrom no_text an_entity "014" 0 (history ++ stamped ∷ [])
    × HasNewIds [] (history ++ stamped ∷ [])
append-IsNumberedFrom_example =
    append-IsNumberedFrom no_text an_entity "now" second_event history refl history_numbered
      history_new (omega arith) id_is_new stamped-IsEvent

append_again_example :
    (append_event no_text an_entity "now" second_event (some (written history))
      ≡ ok (some (written (history ++ stamped ∷ [])), record { event = stamped; appended = true }))
    × (append_event no_text an_entity "later" second_event
          (some (written (history ++ stamped ∷ [])))
        ≡ ok (
          some (written (history ++ stamped ∷ [])),
          record { event = stamped; appended = false },
        ))
append_again_example =
    append_again no_text an_entity "now" "later" second_event history refl history_numbered
      history_new (omega arith) id_is_new stamped-IsEvent refl

reduce_history-redelivered_example :
    reduce_history (history ++ history) ≡ record (reduce_history history) { duplicate_count = 1 }
reduce_history-redelivered_example = reduce_history-redelivered history history_new

both_new : HasNewIds [] (first_event ∷ stamped ∷ [])
unfolding with_id
both_new = (refl, (refl, tt))

both-IsOrdered : IsOrdered by_time (first_event ∷ stamped ∷ [])
unfolding by_time
both-IsOrdered = ((refl, tt), (tt, tt))

reduce_history_iff_example :
    (((reduce_history (first_event ∷ stamped ∷ [])).state ≡ some claimed)
      × ((reduce_history (first_event ∷ stamped ∷ [])).conflicts ≡ []))
    ↔ ((first_event.previous_state ≡ none) × Runs queued (stamped ∷ []) claimed)
reduce_history_iff_example =
    reduce_history_iff first_event (stamped ∷ []) claimed both_new both-IsOrdered

abbrev archived_event : OperationalEvent
archived_event = record stamped { previous_state = some completed; new_state = completed }

not_reconciliation : "handoff_directory" ≢ reconciliation
not_reconciliation h = absurd (ground (arith, text_key.same_iff "handoff_directory" reconciliation))

archived_replay : replay (some completed) (archived_event ∷ []) ≡ (some completed, [])
unfolding replay
archived_replay = refl

final-replay_example :
    (completed ≡ completed) × All (λ e. e.new_state ≡ completed) (archived_event ∷ [])
final-replay_example =
    final-replay completed completed (archived_event ∷ []) (inr (inr refl)) (not_reconciliation, tt)
      archived_replay

abbrev sources : Sources
sources = record {
  board = done_board;
  has_transition = true;
  has_escalation = true;
  request = some retry;
  status = some thinking;
  latest = some claimed;
  replay_conflicts = [];
  rejected_count = 0;
  schema_incompatible = false;
}

selected_lem_example :
    ((P : Fact → Type 0) → All P (facts sources) → P (selected sources))
    × All (Weighs (selected sources)) (facts sources)
    × (is_closed done_board ≡ true → (selected sources).state ≡ completed)
selected_lem_example = selected_lem sources
