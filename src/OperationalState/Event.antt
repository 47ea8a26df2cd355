-- ===== src/OperationalState/Event.antt =====
-- collab/tools/lib/operational_state.py: the JSON form of an event. Two tests are parameters: that a
-- text is blank (`not value.strip()`) and that it is an entity's id (the regular expression).
pub mod RoundTrip
use ibkr_auto_trader.Prelude.{
  ℕ, zero, suc, ◌≤◌, Bool, true, false, ◌&&◌, ◌≡◌, ◌↔◌, refl, sym, ap, ◌∙◌, Option, none, some,
  String, List, [], ◌∷◌, if◌then◌else◌, not, Key, text_key, arith, map, leb, All,
}
use ibkr_auto_trader.Prelude.Int.{ℤ, pos, negsuc}
use ibkr_auto_trader.Prelude.Result.{
  Result, ok, err, ◌>>=◌, ◌>>◌, raise_if, >>=-eq_ok, raise_if-eq_ok,
}
use ibkr_auto_trader.OperationalState.{
  State, value, of_value, OperationalEvent, schema, of_value-value,
}

-- A JSON value under a key; null is also that of a key that is missing. The elements of an array are
-- texts or not; a value of any other kind has nothing but its truth.
pub data Value : Type 0 where
  null : Value
  text : String → Value
  integer : ℤ → Value
  boolean : Bool → Value
  array : List (Option String) → Value
  other : Bool → Value

-- A JSON object, by the keys that are read.
pub record Doc : Type 0 where
  pub schema_version : Value
  pub sequence : Value
  pub event_id : Value
  pub entity_id : Value
  pub previous_state : Value
  pub new_state : Value
  pub reason : Value
  pub source : Value
  pub actor : Value
  pub run_id : Value
  pub event_ts : Value
  pub ingested_ts : Value
  pub correlation_id : Value
  pub trace_id : Value
  pub conditions : Value
  pub escalation_severity : Value
  pub escalation_reason : Value
  pub escalation_ts : Value
  pub required_action : Value

pub data EventError : Type 0 where
  not_an_object bad_sequence bad_conditions bad_entity : EventError
  incompatible_schema : Value → EventError
  invalid_state : Value → EventError
  state_required blank_string : EventError

abbrev pub of_optional : Option String → Value
of_optional none = null
of_optional (some s) = text s

abbrev pub of_state : Option State → Value
of_state none = null
of_state (some s) = text (value s)

abbrev pub of_sequence : Option ℕ → Value
of_sequence none = null
of_sequence (some n) = integer (pos n)

unfoldable pub to_dict : OperationalEvent → Doc
to_dict e = record {
  schema_version = text e.schema_version;
  sequence = of_sequence e.sequence;
  event_id = text e.event_id;
  entity_id = text e.entity_id;
  previous_state = of_state e.previous_state;
  new_state = text (value e.new_state);
  reason = text e.reason;
  source = text e.source;
  actor = of_optional e.actor;
  run_id = of_optional e.run_id;
  event_ts = text e.event_ts;
  ingested_ts = text e.ingested_ts;
  correlation_id = of_optional e.correlation_id;
  trace_id = of_optional e.trace_id;
  conditions = array (map some e.conditions);
  escalation_severity = of_optional e.escalation_severity;
  escalation_reason = of_optional e.escalation_reason;
  escalation_ts = of_optional e.escalation_ts;
  required_action = of_optional e.required_action;
}

-- `doc.get(k) if isinstance(doc.get(k), str) else None`
abbrev pub optional_string : Value → Option String
optional_string (text s) = some s
optional_string _ = none

abbrev pub check_schema : Value → Result EventError String
check_schema (text s) =
    if text_key.same s schema then ok schema else err (incompatible_schema (text s))
check_schema v = err (incompatible_schema v)

abbrev pub read_sequence : Value → Result EventError (Option ℕ)
read_sequence null = ok none
read_sequence (integer (pos zero)) = err bad_sequence
read_sequence (integer (pos (suc n))) = ok (some (suc n))
read_sequence _ = err bad_sequence

abbrev pub all_texts : List (Option String) → Result EventError (List String)
all_texts [] = ok []
all_texts (none ∷ vs) = err bad_conditions
all_texts (some s ∷ vs) = elim (all_texts vs) [ ok ss ↦ ok (s ∷ ss) | err e ↦ err e ]

-- `doc.get("conditions") or []`, which reads every empty value as no conditions.
abbrev pub read_conditions : Value → Result EventError (List String)
read_conditions null = ok []
read_conditions (text s) = if text_key.same s "" then ok [] else err bad_conditions
read_conditions (integer (pos zero)) = ok []
read_conditions (integer n) = err bad_conditions
read_conditions (boolean b) = if b then err bad_conditions else ok []
read_conditions (array vs) = all_texts vs
read_conditions (other truth) = if truth then err bad_conditions else ok []

abbrev pub known_state : String → Option State → Result EventError (Option State)
known_state s none = err (invalid_state (text s))
known_state s (some st) = ok (some st)

-- `_state`
abbrev pub read_state : Value → Result EventError (Option State)
read_state null = ok none
read_state (text s) = known_state s (of_value s)
read_state v = err (invalid_state v)

abbrev pub present : Option State → Result EventError State
present none = err state_required
present (some s) = ok s

abbrev pub required_state : Value → Result EventError State
required_state v = read_state v >>= present

module _ (is_blank : String → Bool) (is_entity : String → Bool) where
  -- `_required_string`
  abbrev pub required_string : Value → Result EventError String
  required_string (text s) = if is_blank s then err blank_string else ok s
  required_string _ = err blank_string

  abbrev pub validate_entity_id : String → Result EventError String
  validate_entity_id s = if is_entity s then ok s else err bad_entity

  unfoldable pub from_dict : Option Doc → Result EventError OperationalEvent
  from_dict none = err not_an_object
  from_dict (some d) = do
    version ← check_schema d.schema_version
    sequence ← read_sequence d.sequence
    conditions ← read_conditions d.conditions
    event_id ← required_string d.event_id
    entity ← required_string d.entity_id
    entity_id ← validate_entity_id entity
    previous_state ← read_state d.previous_state
    new_state ← required_state d.new_state
    reason ← required_string d.reason
    source ← required_string d.source
    event_ts ← required_string d.event_ts
    ingested_ts ← required_string d.ingested_ts
    ok (record {
      event_id = event_id;
      entity_id = entity_id;
      previous_state = previous_state;
      new_state = new_state;
      reason = reason;
      source = source;
      actor = optional_string d.actor;
      run_id = optional_string d.run_id;
      event_ts = event_ts;
      ingested_ts = ingested_ts;
      correlation_id = optional_string d.correlation_id;
      trace_id = optional_string d.trace_id;
      conditions = conditions;
      escalation_severity = optional_string d.escalation_severity;
      escalation_reason = optional_string d.escalation_reason;
      escalation_ts = optional_string d.escalation_ts;
      required_action = optional_string d.required_action;
      sequence = sequence;
      schema_version = version;
    })
