-- ===== src/Transitions.antt =====
-- collab/tools/lib/transitions.py: on what authority a handoff was closed. `str.strip` is a
-- parameter; a value that is absent or no text is none. A file that does not parse, or whose kind is
-- not one of the two, is recorded as none; the id, the candidate and the time stamp are left out.
pub mod Provenance
use ibkr_auto_trader.Prelude.{
  Bool, true, false, ◌&&◌, ◌||◌, Option, none, some, String, not, if◌then◌else◌, Key, text_key,
}
use ibkr_auto_trader.Prelude.Dict.{Dict, lookup, insert}
use ibkr_auto_trader.Prelude.Result.{Result, ok, err, ◌>>=◌, ◌>>◌, raise_if}

pub data Kind : Type 0 where
  autonomous_verified human_override : Kind

pub data Label : Type 0 where
  autonomous_label human_label unrecorded_label : Label

pub data TransitionError : Type 0 where
  unknown_kind actor_required reason_required receipt_required : TransitionError

pub record Transition : Type 0 where
  pub kind : Kind
  pub actor : String
  pub reason : Option String
  pub receipt : Option String

-- The arguments of `validate`; none is a kind outside `KINDS`, or a value that is no text.
pub record Proposal : Type 0 where
  pub kind : Option Kind
  pub actor : Option String
  pub reason : Option String
  pub receipt : Option String

abbrev pub is_autonomous_kind : Kind → Bool
is_autonomous_kind autonomous_verified = true
is_autonomous_kind human_override = false

pub record Summary : Type 0 where
  pub recorded : Option Transition
  pub autonomous : Bool
  pub is_override : Bool
  pub label : Label

module _ (strip : String → String) where
  abbrev pub is_blank : String → Bool
  is_blank s = text_key.same (strip s) ""

  -- `isinstance(x, str) and x.strip()`
  abbrev pub has_text : Option String → Bool
  has_text none = false
  has_text (some s) = not (is_blank s)

  -- `x.strip() if isinstance(x, str) and x.strip() else None`
  abbrev pub stripped : Option String → Option String
  stripped none = none
  stripped (some s) = if is_blank s then none else some (strip s)

  abbrev pub stripped_actor : Option String → String
  stripped_actor none = ""
  stripped_actor (some s) = strip s

  abbrev pub validate_kind : Kind → Proposal → Result TransitionError Transition
  validate_kind kind p = do
    raise_if (not (has_text p.actor)) actor_required
    raise_if (not (is_autonomous_kind kind) && not (has_text p.reason)) reason_required
    raise_if (is_autonomous_kind kind && not (has_text p.receipt)) receipt_required
    ok (record {
      kind = kind;
      actor = stripped_actor p.actor;
      reason = stripped p.reason;
      receipt = stripped p.receipt;
    })

  unfoldable pub validate : Proposal → Result TransitionError Transition
  validate p = elim p.kind [ none ↦ err unknown_kind | some kind ↦ validate_kind kind p ]

  abbrev pub Records : Type 0
  Records = Dict String (Option Transition)

  -- `write` replaces the record of one handoff, or raises before it touches a file.
  unfoldable pub write : Records → String → Proposal → Result TransitionError Records
  unfolding validate
  write records hid p = validate p >>= λ t. ok (insert hid (some t) records)

  unfoldable pub read : Records → String → Option Transition
  read records hid = elim (lookup hid records) [ none ↦ none | some t ↦ t ]

  unfoldable pub is_autonomous : Option Transition → Bool
  is_autonomous none = false
  is_autonomous (some t) = is_autonomous_kind t.kind && has_text t.receipt

  unfoldable pub is_human_override : Option Transition → Bool
  is_human_override none = false
  is_human_override (some t) = not (is_autonomous_kind t.kind)

  unfoldable pub label_of : Option Transition → Label
  unfolding is_autonomous is_human_override
  label_of t =
      if is_autonomous t
      then autonomous_label
      else if is_human_override t
      then human_label
      else unrecorded_label

  unfoldable pub summary : Records → String → Summary
  unfolding read
  summary records hid =
      let t = read records hid in
      record {
        recorded = t;
        autonomous = is_autonomous t;
        is_override = is_human_override t;
        label = label_of t;
      }
