-- ===== src/OperationalState.antt =====
-- collab/tools/lib/operational_state.py: the operator's view of a handoff. This file has the states,
-- the transitions that producers may make, and the event of the history; Event has its JSON form,
-- Replay the reduction of a history to a state, and History the file that keeps it.
pub mod Event
pub mod Replay
pub mod History
pub mod Reconcile
use ibkr_auto_trader.Prelude.{
  ℕ, Bool, true, false, ◌&&◌, ◌≡◌, ◌↔◌, refl, sym, ap, ◌∙◌, Option, none, some, String, List, [],
  ◌∷◌, if◌then◌else◌, Key, text_key, arith, any,
}

pub data State : Type 0 where
  queued claimed running awaiting paused capped blocked parked escalated retrying failed : State
  cancelled superseded completed : State

-- The enum's values.
abbrev pub value : State → String
value queued = "queued"
value claimed = "claimed"
value running = "running"
value awaiting = "awaiting"
value paused = "paused"
value capped = "capped"
value blocked = "blocked"
value parked = "parked"
value escalated = "escalated"
value retrying = "retrying"
value failed = "failed"
value cancelled = "cancelled"
value superseded = "superseded"
value completed = "completed"

abbrev pub states : List State
states =
    queued ∷ claimed ∷ running ∷ awaiting ∷ paused ∷ capped ∷ blocked ∷ parked ∷ escalated
    ∷ retrying ∷ failed ∷ cancelled ∷ superseded ∷ completed ∷ []

abbrev pub member_of : List State → String → Option State
member_of [] s = none
member_of (m ∷ ms) s = if text_key.same (value m) s then some m else member_of ms s

-- `OperationalState(value)`, none where it raises.
unfoldable pub of_value : String → Option State
of_value s = member_of states s

abbrev pub same_state : State → State → Bool
same_state a b = text_key.same (value a) (value b)

abbrev pub same_optional_state : Option State → Option State → Bool
same_optional_state none none = true
same_optional_state (some a) (some b) = same_state a b
same_optional_state _ _ = false

-- `ALLOWED_TRANSITIONS`
unfoldable pub allowed : State → List State
allowed queued = claimed ∷ blocked ∷ cancelled ∷ superseded ∷ []
allowed claimed =
    running ∷ awaiting ∷ paused ∷ capped ∷ blocked ∷ parked ∷ escalated ∷ retrying ∷ failed
    ∷ cancelled ∷ superseded ∷ completed ∷ []
allowed running =
    awaiting ∷ paused ∷ capped ∷ blocked ∷ parked ∷ escalated ∷ retrying ∷ failed ∷ cancelled
    ∷ superseded ∷ completed ∷ []
allowed awaiting =
    claimed ∷ running ∷ paused ∷ capped ∷ blocked ∷ parked ∷ escalated ∷ retrying ∷ failed
    ∷ cancelled ∷ superseded ∷ completed ∷ []
allowed paused =
    running ∷ capped ∷ blocked ∷ parked ∷ escalated ∷ retrying ∷ failed ∷ cancelled ∷ superseded
    ∷ completed ∷ []
allowed capped =
    paused ∷ blocked ∷ parked ∷ escalated ∷ retrying ∷ failed ∷ cancelled ∷ superseded ∷ completed
    ∷ []
allowed blocked =
    running ∷ paused ∷ capped ∷ parked ∷ escalated ∷ retrying ∷ failed ∷ cancelled ∷ superseded
    ∷ completed ∷ []
allowed parked =
    running ∷ paused ∷ capped ∷ blocked ∷ escalated ∷ retrying ∷ failed ∷ cancelled ∷ superseded
    ∷ completed ∷ []
allowed escalated =
    awaiting ∷ paused ∷ capped ∷ blocked ∷ parked ∷ retrying ∷ failed ∷ cancelled ∷ superseded
    ∷ completed ∷ []
allowed retrying =
    claimed ∷ running ∷ awaiting ∷ paused ∷ capped ∷ blocked ∷ parked ∷ escalated ∷ failed
    ∷ cancelled ∷ superseded ∷ completed ∷ []
allowed failed = retrying ∷ cancelled ∷ superseded ∷ []
allowed cancelled = []
allowed superseded = []
allowed completed = []

pub record OperationalEvent : Type 0 where
  pub event_id : String
  pub entity_id : String
  pub previous_state : Option State
  pub new_state : State
  pub reason : String
  pub source : String
  pub actor : Option String
  pub run_id : Option String
  pub event_ts : String
  pub ingested_ts : String
  pub correlation_id : Option String
  pub trace_id : Option String
  pub conditions : List String
  pub escalation_severity : Option String
  pub escalation_reason : Option String
  pub escalation_ts : Option String
  pub required_action : Option String
  pub sequence : Option ℕ
  pub schema_version : String

abbrev pub schema : String
schema = "1.0"

-- Each state's value is read back as the state.
pub of_value-value : (s : State) → of_value (value s) ≡ some s
unfolding of_value
of_value-value queued = refl
of_value-value claimed = refl
of_value-value running = refl
of_value-value awaiting = refl
of_value-value paused = refl
of_value-value capped = refl
of_value-value blocked = refl
of_value-value parked = refl
of_value-value escalated = refl
of_value-value retrying = refl
of_value-value failed = refl
of_value-value cancelled = refl
of_value-value superseded = refl
of_value-value completed = refl

pub same_state_iff : (a b : State) → (same_state a b ≡ true) ↔ (a ≡ b)
same_state_iff a b =
    let same = text_key.same_iff (value a) (value b) in
    let back : (value a ≡ value b) → some a ≡ some b =
      λ h. sym (of_value-value a) ∙ ap of_value h ∙ of_value-value b in
    (λ h. ground (arith, back (same.0 h)), λ h. same.1 (ap value h))
