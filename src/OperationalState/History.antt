-- ===== src/OperationalState/History.antt =====
-- collab/tools/lib/operational_state.py: `read_history`, `append_event` and `record_transition`, over
-- the lines of one handoff's history file. `append_event` is one step, as the file's lock makes it.
-- The record of the history's health is left out, as it decides nothing.
pub mod Numbered
pub mod Append
use Prim.Native.String.{compare}
use Prim.Native.Nat.{Ordering}
use ibkr_auto_trader.Prelude.{
  ℕ, zero, suc, ◌+◌, max, Bool, true, false, ◌&&◌, ◌||◌, Option, none, some, String, List, [], ◌∷◌,
  ◌++◌, not, if◌then◌else◌, Key, text_key, length, ltb, leb, keep_if, ◌==◌,
}
use ibkr_auto_trader.Prelude.Sort.{sort}
use ibkr_auto_trader.Prelude.Result.{Result, ok, err, ◌>>=◌, ◌>>◌, raise_if}
use ibkr_auto_trader.OperationalState.{State, same_state, OperationalEvent, schema}
use ibkr_auto_trader.OperationalState.Event.{Doc, EventError, to_dict, from_dict, text}
use ibkr_auto_trader.OperationalState.Replay.{
  number, number_then, text_then, with_id, same_payload, same_optional, same_texts, Reduction,
  reduce_history,
}

-- A line of the file: blank, no JSON, or JSON, which is an object or not.
pub data Line : Type 0 where
  blank malformed : Line
  json : Option Doc → Line

pub data HistoryError : Type 0 where
  bad_entity_id bad_limit : HistoryError
  unknown_schema id_collision : String → HistoryError

pub record HistoryPage : Type 0 where
  pub events : List OperationalEvent
  pub next_cursor : Option ℕ
  pub rejected_count : ℕ
  pub schema_incompatible : Bool

pub record AppendResult : Type 0 where
  pub event : OperationalEvent
  pub appended : Bool

-- What a scan of the file has found.
pub record Scan : Type 0 where
  pub found : List OperationalEvent
  pub rejected : ℕ
  pub incompatible : Bool

abbrev pub after_number : Option ℕ → ℕ
after_number none = 0
after_number (some n) = n

abbrev pub is_incompatible : Option Doc → Bool
is_incompatible none = false
is_incompatible (some d) = elim d.schema_version [
  | text s ↦ not (text_key.same s schema)
  | _ ↦ true
]

-- The key of `events.sort`.
unfoldable pub by_number : OperationalEvent → OperationalEvent → Bool
by_number a b =
    number_then a b (text_then a.ingested_ts b.ingested_ts (text_then a.event_id b.event_id true))

abbrev pub take : ℕ → List OperationalEvent → List OperationalEvent
take zero es = []
take (suc n) [] = []
take (suc n) (e ∷ es) = e ∷ take n es

abbrev pub cursor_of : Option ℕ → List OperationalEvent → Option ℕ
cursor_of after [] = after
cursor_of after (e ∷ es) = cursor_of e.sequence es

-- `max((item.sequence or 0 for item in events), default=0)`
abbrev pub greatest : List OperationalEvent → ℕ
greatest [] = 0
greatest (e ∷ es) = max (number e) (greatest es)

module _ (is_blank : String → Bool) (is_entity : String → Bool) where
  abbrev pub take_event : String → Option ℕ → Scan → Result EventError OperationalEvent → Scan
  take_event entity after s (err x) = record s { rejected = suc s.rejected }
  take_event entity after s (ok e) =
      if not (text_key.same e.entity_id entity)
      then record s { rejected = suc s.rejected }
      else if ltb (after_number after) (number e)
      then record s { found = e ∷ s.found }
      else s

  abbrev pub scan_line : String → Option ℕ → Line → Scan → Scan
  scan_line entity after blank s = s
  scan_line entity after malformed s = record s { rejected = suc s.rejected }
  scan_line entity after (json d) s =
      take_event entity after (record s { incompatible = is_incompatible d || s.incompatible })
        (from_dict is_blank is_entity d)

  -- The loop over the lines, from the last to the first.
  unfoldable pub scan : String → Option ℕ → List Line → Scan
  scan entity after [] = record { found = []; rejected = 0; incompatible = false }
  scan entity after (l ∷ ls) = scan_line entity after l (scan entity after ls)

  -- A file that cannot be read is an empty page.
  unfoldable pub read_history :
      String → Option ℕ → ℕ → Option (List Line) → Result HistoryError HistoryPage
  read_history entity after limit file =
      if not (is_entity entity)
      then err bad_entity_id
      else if not (leb 1 limit && leb limit 1000)
      then err bad_limit
      else elim file [
        | none ↦ ok (record {
          events = [];
          next_cursor = after;
          rejected_count = 0;
          schema_incompatible = false;
        })
        | some ls ↦
            (let s = scan entity after ls in
              let selected = take limit (sort by_number s.found) in
              ok (record {
                events = selected;
                next_cursor = cursor_of after selected;
                rejected_count = s.rejected;
                schema_incompatible = s.incompatible;
              }))
      ]

  abbrev pub lines_of : Option (List Line) → List Line
  lines_of none = []
  lines_of (some ls) = ls

  -- `replace(event, sequence=..., ingested_ts=event.ingested_ts or _now_utc())`
  abbrev pub stamp : String → OperationalEvent → ℕ → OperationalEvent
  stamp now e n = record e {
    sequence = some n;
    ingested_ts = if text_key.same e.ingested_ts "" then now else e.ingested_ts;
  }

  abbrev pub append_to_page :
      String
      → OperationalEvent
      → Option (List Line)
      → List OperationalEvent
      → Option OperationalEvent
      → Result HistoryError (Option (List Line) × AppendResult)
  append_to_page now e file page (some old) =
      if same_payload old e
      then ok (file, record { event = old; appended = false })
      else err (id_collision e.event_id)
  append_to_page now e file page none =
      let stamped = stamp now e (suc (greatest page)) in
      ok (
        some (lines_of file ++ json (some (to_dict stamped)) ∷ []),
        record { event = stamped; appended = true },
      )

  -- The page that is searched, and numbered from, is `read_history`'s first of 100.
  unfoldable pub append_event :
      String
      → OperationalEvent
      → Option (List Line)
      → Result HistoryError (Option (List Line) × AppendResult)
  append_event now e file =
      if not (text_key.same e.schema_version schema)
      then err (unknown_schema e.schema_version)
      else do
        page ← read_history e.entity_id none 100 file
        append_to_page now e file page.events (with_id e.event_id page.events)
