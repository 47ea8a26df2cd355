-- ===== src/OperationalState/Replay.antt =====
-- collab/tools/lib/operational_state.py: `reduce_history`, over events that are read. The texts of
-- the conflicts' messages are left out.
pub mod Legal
pub mod Redelivery
use Prim.Native.String.{compare}
use Prim.Native.Nat.{Ordering}
use ibkr_auto_trader.Prelude.{
  ℕ, suc, ◌+◌, Bool, true, false, ◌&&◌, ◌||◌, Option, none, some, String, List, [], ◌∷◌, ◌++◌, not,
  if◌then◌else◌, Key, text_key, any, find_first, ltb, ◌==◌,
}
use ibkr_auto_trader.Prelude.Sort.{sort}
use ibkr_auto_trader.OperationalState.{
  State, same_state, same_optional_state, allowed, OperationalEvent,
}

pub data StateConflict : Type 0 where
  event_id_collision previous_state_mismatch invalid_transition : String → StateConflict

pub record Reduction : Type 0 where
  pub state : Option State
  pub events : List OperationalEvent
  pub conflicts : List StateConflict
  pub duplicate_count : ℕ

abbrev pub same_optional : Option String → Option String → Bool
same_optional none none = true
same_optional (some a) (some b) = text_key.same a b
same_optional _ _ = false

abbrev pub same_texts : List String → List String → Bool
same_texts [] [] = true
same_texts (a ∷ xs) (b ∷ ys) = text_key.same a b && same_texts xs ys
same_texts _ _ = false

-- `_same_payload`: equal but for the number.
unfoldable pub same_payload : OperationalEvent → OperationalEvent → Bool
same_payload a b =
    text_key.same a.event_id b.event_id
    && text_key.same a.entity_id b.entity_id
    && same_optional_state a.previous_state b.previous_state
    && same_state a.new_state b.new_state
    && text_key.same a.reason b.reason
    && text_key.same a.source b.source
    && same_optional a.actor b.actor
    && same_optional a.run_id b.run_id
    && text_key.same a.event_ts b.event_ts
    && text_key.same a.ingested_ts b.ingested_ts
    && same_optional a.correlation_id b.correlation_id
    && same_optional a.trace_id b.trace_id
    && same_texts a.conditions b.conditions
    && same_optional a.escalation_severity b.escalation_severity
    && same_optional a.escalation_reason b.escalation_reason
    && same_optional a.escalation_ts b.escalation_ts
    && same_optional a.required_action b.required_action
    && text_key.same a.schema_version b.schema_version

-- `item.sequence or 0`
abbrev pub number : OperationalEvent → ℕ
number e = elim e.sequence [ none ↦ 0 | some n ↦ n ]

-- Tuples are compared by the first component in which they differ, texts by their code points.
abbrev pub text_then : String → String → Bool → Bool
text_then a b rest = elim (compare a b) [
  | Ordering.lt ↦ true
  | Ordering.eq ↦ rest
  | Ordering.gt ↦ false
]

abbrev pub number_then : OperationalEvent → OperationalEvent → Bool → Bool
number_then a b rest = if ltb (number a) (number b) then true else (number a == number b && rest)

-- `_sort_key`
unfoldable pub by_time : OperationalEvent → OperationalEvent → Bool
by_time a b =
    text_then a.event_ts b.event_ts (
      text_then a.ingested_ts b.ingested_ts
        (number_then a b (text_then a.event_id b.event_id true)))

-- The dictionary of the events that are kept, and what became of the others.
pub record Unique : Type 0 where
  pub kept : List OperationalEvent
  pub duplicates : ℕ
  pub collisions : List StateConflict

unfoldable pub with_id : String → List OperationalEvent → Option OperationalEvent
with_id i es = find_first (λ e. text_key.same e.event_id i) es

abbrev pub keep_event : Unique → OperationalEvent → Option OperationalEvent → Unique
keep_event u e none = record u { kept = u.kept ++ e ∷ [] }
keep_event u e (some old) =
    if same_payload old e
    then record u { duplicates = u.duplicates + 1 }
    else record u { collisions = u.collisions ++ event_id_collision e.event_id ∷ [] }

unfoldable pub unique_events : Unique → List OperationalEvent → Unique
unique_events u [] = u
unique_events u (e ∷ es) = unique_events (keep_event u e (with_id e.event_id u.kept)) es

abbrev pub reconciliation : String
reconciliation = "reconciliation"

-- The event's own account of where it came from disagrees with the replay.
abbrev pub is_mismatch : Option State → OperationalEvent → Bool
is_mismatch current e = elim e.previous_state [
  | none ↦ false
  | some p ↦ not (same_optional_state (some p) current)
]

unfoldable pub is_allowed : State → State → Bool
is_allowed from to = any (same_state to) (allowed from)

abbrev pub is_invalid : Option State → OperationalEvent → Bool
is_invalid none e = false
is_invalid (some c) e =
    not (same_state e.new_state c)
    && not (text_key.same e.source reconciliation)
    && not (is_allowed c e.new_state)

abbrev pub conflicts_of : Option State → OperationalEvent → List StateConflict
conflicts_of current e =
    (if is_mismatch current e then previous_state_mismatch e.event_id ∷ [] else [])
    ++ (if is_invalid current e then invalid_transition e.event_id ∷ [] else [])

unfoldable pub replay : Option State → List OperationalEvent → Option State × List StateConflict
replay current [] = (current, [])
replay current (e ∷ es) =
    let rest = replay (some e.new_state) es in (rest.0, conflicts_of current e ++ rest.1)

unfoldable pub reduce_history : List OperationalEvent → Reduction
reduce_history es =
    let u = unique_events (record { kept = []; duplicates = 0; collisions = [] }) es in
    let ordered = sort by_time u.kept in
    let r = replay none ordered in
    record {
      state = r.0;
      events = ordered;
      conflicts = u.collisions ++ r.1;
      duplicate_count = u.duplicates;
    }
