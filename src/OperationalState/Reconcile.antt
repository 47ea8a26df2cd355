-- ===== src/OperationalState/Reconcile.antt =====
-- collab/tools/lib/operational_state.py: `reconcile_item`, as far as it decides the effective state of
-- a handoff and the conflicts that are shown with it: the facts of the sources in their order, the
-- choice among them by precedence, and what disagrees with the choice. Texts, times and the other
-- columns of the item, and the event that bootstraps an empty history, are left out; the history is
-- the one reduced from the page that was read last.
pub mod Effective
use ibkr_auto_trader.Prelude.{
  ℕ, Bool, true, false, ◌&&◌, ◌||◌, Option, none, some, String, List, [], ◌∷◌, ◌++◌, not,
  if◌then◌else◌, ltb, any, map,
}
use ibkr_auto_trader.OperationalState.{
  State, queued, claimed, running, awaiting, paused, capped, blocked, parked, escalated, retrying,
  failed, cancelled, superseded, completed, same_state,
}
use ibkr_auto_trader.OperationalState.Replay.{StateConflict}

-- `STATE_PRECEDENCE`
unfoldable pub precedence : State → ℕ
precedence completed = 140
precedence cancelled = 130
precedence superseded = 120
precedence escalated = 110
precedence failed = 100
precedence blocked = 90
precedence capped = 80
precedence paused = 70
precedence retrying = 60
precedence running = 50
precedence awaiting = 45
precedence parked = 40
precedence claimed = 30
precedence queued = 20

pub data BoardState : Type 0 where
  pending_board claimed_board done_board archive_board : BoardState

-- `_BOARD_STATE`
abbrev pub board_fact : BoardState → State
board_fact pending_board = queued
board_fact claimed_board = claimed
board_fact done_board = completed
board_fact archive_board = completed

abbrev pub is_closed : BoardState → Bool
is_closed done_board = true
is_closed archive_board = true
is_closed _ = false

-- `_BOARD_COMPATIBLE`
unfoldable pub compatible : BoardState → List State
compatible pending_board =
    queued ∷ awaiting ∷ paused ∷ blocked ∷ parked ∷ escalated ∷ retrying ∷ failed ∷ cancelled
    ∷ superseded ∷ []
compatible claimed_board =
    claimed ∷ running ∷ awaiting ∷ paused ∷ capped ∷ blocked ∷ parked ∷ escalated ∷ retrying
    ∷ failed ∷ cancelled ∷ superseded ∷ []
compatible done_board = completed ∷ []
compatible archive_board = completed ∷ []

pub data Source : Type 0 where
  transition_source directory_source escalation_store operator_request autopilot_status : Source
  history_source : Source

pub record Fact : Type 0 where
  pub state : State
  pub source : Source

-- The action of an operator's request.
pub data Action : Type 0 where
  retry : Action
  another : Action

-- The phase of the driver's status, if it is about this handoff and live.
pub data Phase : Type 0 where
  thinking paused_phase capped_phase other_phase : Phase

-- What the sources hold about one handoff.
pub record Sources : Type 0 where
  pub board : BoardState
  pub has_transition : Bool
  pub has_escalation : Bool
  pub request : Option Action
  pub status : Option Phase
  pub latest : Option State
  pub replay_conflicts : List StateConflict
  pub rejected_count : ℕ
  pub schema_incompatible : Bool

pub data ItemConflict : Type 0 where
  of_replay : StateConflict → ItemConflict
  rejected_history_records schema_incompatible_conflict source_state_conflict : ItemConflict
  live_source_disagreement : ItemConflict

abbrev pub closed_facts : Sources → List Fact
closed_facts s =
    if is_closed s.board
    then record {
      state = completed;
      source = if s.has_transition then transition_source else directory_source;
    }
      ∷ []
    else []

abbrev pub escalation_facts : Sources → List Fact
escalation_facts s =
    if s.has_escalation then record { state = escalated; source = escalation_store } ∷ [] else []

abbrev pub request_facts : Option Action → List Fact
request_facts none = []
request_facts (some retry) = record { state = retrying; source = operator_request } ∷ []
request_facts (some another) = record { state = awaiting; source = operator_request } ∷ []

-- `mapped`, by the status's phase.
abbrev pub status_state : Option Phase → Option State
status_state (some thinking) = some running
status_state (some paused_phase) = some paused
status_state (some capped_phase) = some capped
status_state (some other_phase) = none
status_state none = none

abbrev pub facts_of : Source → Option State → List Fact
facts_of source none = []
facts_of source (some s) = record { state = s; source = source } ∷ []

-- The facts that come before the board's, which closes the list.
abbrev pub earlier_facts : Sources → List Fact
earlier_facts s =
    closed_facts s
    ++ escalation_facts s
    ++ request_facts s.request
    ++ facts_of autopilot_status (status_state s.status)
    ++ facts_of history_source s.latest

unfoldable pub facts : Sources → List Fact
facts s = earlier_facts s ++ record { state = board_fact s.board; source = directory_source } ∷ []

abbrev pub graver : Fact → Fact → Fact
graver best f = if ltb (precedence best.state) (precedence f.state) then f else best

abbrev pub greater : Fact → List Fact → Fact
greater best [] = best
greater best (f ∷ fs) = greater (graver best f) fs

-- `max(facts, key=...)`: the first of those of the greatest precedence.
abbrev pub first_greatest : Fact → List Fact → Fact
first_greatest default [] = default
first_greatest default (f ∷ fs) = greater f fs

unfoldable pub selected : Sources → Fact
unfolding facts
selected s =
    first_greatest (record { state = board_fact s.board; source = directory_source }) (facts s)

abbrev pub is_compatible : BoardState → State → Bool
is_compatible b s = any (same_state s) (compatible b)

abbrev pub disagrees : State → Option State → Bool
disagrees s none = false
disagrees s (some live) = not (same_state s live)

abbrev pub flag : Bool → ItemConflict → List ItemConflict
flag b c = if b then c ∷ [] else []

unfoldable pub item_conflicts : Sources → List ItemConflict
item_conflicts s =
    let chosen = (selected s).state in
    map of_replay s.replay_conflicts
    ++ flag (ltb 0 s.rejected_count) rejected_history_records
    ++ flag s.schema_incompatible schema_incompatible_conflict
    ++ flag (not (is_compatible s.board chosen)) source_state_conflict
    ++ flag (disagrees chosen (status_state s.status)) live_source_disagreement
