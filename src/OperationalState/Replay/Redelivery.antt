-- ===== src/OperationalState/Replay/Redelivery.antt =====
-- Histories with and without duplicates under `reduce_history` of
-- collab/tools/lib/operational_state.py.
use mathlib.Core.Path.{subst}
use mathlib.Core.List.{append-nil, append_assoc}
use ibkr_auto_trader.Prelude.{
  ℕ, suc, ◌+◌, ◌≡◌, ◌↔◌, refl, sym, ap, ◌∙◌, true, Option, none, some, String, List, [], ◌∷◌, ◌++◌,
  if◌then◌else◌, text_key, length, arith, All, Option-cases, inl, inr, append_nil,
}
use ibkr_auto_trader.Prelude.Sort.{sort, IsOrdered, sort-IsOrdered}
use ibkr_auto_trader.OperationalState.{State, OperationalEvent, same_state_iff, same_optional_state}
use ibkr_auto_trader.OperationalState.Replay.{
  with_id, same_payload, same_optional, same_texts, Unique, unique_events, keep_event,
  reduce_history, replay, by_time, Reduction, conflicts_of,
}
use ibkr_auto_trader.OperationalState.Replay.Legal.{Runs, replay_iff, pair_eq}

same_optional_refl : (a : Option String) → same_optional a a ≡ true
same_optional_refl none = refl
same_optional_refl (some a) = (text_key.same_iff a a).1 refl

same_texts_refl : (xs : List String) → same_texts xs xs ≡ true
same_texts_refl [] = refl
same_texts_refl (a ∷ xs) = rw ((text_key.same_iff a a).1 refl, same_texts_refl xs) refl

same_optional_state_refl : (s : Option State) → same_optional_state s s ≡ true
same_optional_state_refl none = refl
same_optional_state_refl (some s) = (same_state_iff s s).1 refl

pub same_text_refl : (a : String) → text_key.same a a ≡ true
same_text_refl a = (text_key.same_iff a a).1 refl

-- Numbering an event leaves its payload.
pub same_payload-numbered :
    (e : OperationalEvent) (n : Option ℕ) → same_payload (record e { sequence = n }) e ≡ true
unfolding same_payload
same_payload-numbered e n =
    rw
      (
        same_text_refl e.event_id,
        same_text_refl e.entity_id,
        same_optional_state_refl e.previous_state,
        (same_state_iff e.new_state e.new_state).1 refl,
        same_text_refl e.reason,
        same_text_refl e.source,
        same_optional_refl e.actor,
        same_optional_refl e.run_id,
        same_text_refl e.event_ts,
        same_text_refl e.ingested_ts,
        same_optional_refl e.correlation_id,
        same_optional_refl e.trace_id,
        same_texts_refl e.conditions,
        same_optional_refl e.escalation_severity,
        same_optional_refl e.escalation_reason,
        same_optional_refl e.escalation_ts,
        same_optional_refl e.required_action,
        same_text_refl e.schema_version,
      )
      refl

-- No event has the id of an earlier one.
abbrev pub HasNewIds : List OperationalEvent → List OperationalEvent → Type 0
HasNewIds kept [] = Unit
HasNewIds kept (e ∷ es) = (with_id e.event_id kept ≡ none) × HasNewIds (kept ++ e ∷ []) es

pub with_id-++ :
    (i : String) (es : List OperationalEvent) (e : OperationalEvent)
    → with_id i es ≡ none
    → with_id i (es ++ e ∷ []) ≡ (if text_key.same e.event_id i then some e else none)
unfolding with_id
with_id-++ i [] e h = refl
with_id-++ i (x ∷ es) e h = ground (arith, with_id-++ i es e)

unique_events-new :
    (u : Unique) (es : List OperationalEvent)
    → HasNewIds u.kept es
    → unique_events u es ≡ record u { kept = u.kept ++ es }
unfolding unique_events
unique_events-new u [] h = rw (append-nil u.kept) refl
unique_events-new u (e ∷ es) h = rw h.0 (
    unique_events-new (record u { kept = u.kept ++ e ∷ [] }) es h.1
    ∙ (rw (append_assoc u.kept (e ∷ []) es) refl))

unique_events-again :
    (u : Unique) (es : List OperationalEvent)
    → All (λ e. with_id e.event_id u.kept ≡ some e) es
    → unique_events u es ≡ record u { duplicates = u.duplicates + length es }
unfolding unique_events
unique_events-again u [] a =
    (let q : u.duplicates ≡ u.duplicates + 0 = omega arith in
      ap (λ n. record u { duplicates = n }) q)
unique_events-again u (e ∷ es) a =
    let q : u.duplicates + 1 + length es ≡ u.duplicates + suc (length es) = omega arith in
    rw (a.0, same_payload-numbered e e.sequence)
      (unique_events-again (record u { duplicates = u.duplicates + 1 }) es a.1
        ∙ ap (λ n. record u { duplicates = n }) q)

unique_events-++ :
    (u : Unique) (xs ys : List OperationalEvent)
    → unique_events u (xs ++ ys) ≡ unique_events (unique_events u xs) ys
unfolding unique_events
unique_events-++ u [] ys = refl
unique_events-++ u (x ∷ xs) ys = unique_events-++ (keep_event u x (with_id x.event_id u.kept)) xs ys

with_id-found :
    (kept : List OperationalEvent) (e : OperationalEvent) (es : List OperationalEvent)
    → with_id e.event_id kept ≡ none
    → with_id e.event_id (kept ++ e ∷ es) ≡ some e
unfolding with_id
with_id-found [] e es h = rw (same_text_refl e.event_id) refl
with_id-found (x ∷ kept) e es h = ground (arith, with_id-found kept e es)

found_again :
    (kept es : List OperationalEvent)
    → HasNewIds kept es
    → All (λ e. with_id e.event_id (kept ++ es) ≡ some e) es
found_again kept [] h = tt
found_again kept (e ∷ es) h = (
  with_id-found kept e es h.0,
  subst (λ xs. All (λ x. with_id x.event_id xs ≡ some x) es) (append_assoc kept (e ∷ []) es)
      (found_again (kept ++ e ∷ []) es h.1),
)

nothing_yet : Unique
nothing_yet = record { kept = []; duplicates = 0; collisions = [] }

reduce_of : Unique → Reduction
reduce_of u =
    let r = replay none (sort by_time u.kept) in
    record {
      state = r.0;
      events = sort by_time u.kept;
      conflicts = u.collisions ++ r.1;
      duplicate_count = u.duplicates;
    }

abbrev reduction_of : List OperationalEvent → Reduction
reduction_of es = record {
  state = (replay none es).0;
  events = es;
  conflicts = (replay none es).1;
  duplicate_count = 0;
}

first_iff : (e : OperationalEvent) → (conflicts_of none e ≡ []) ↔ (e.previous_state ≡ none)
first_iff e = elim (Option-cases e.previous_state) [
  | inl n ↦ (λ h. n, λ h. rw n refl)
  | inr (p, n) ↦ (λ h. absurd (ground arith), λ h. absurd (ground arith))
]

replay_first :
    (e : OperationalEvent) (es : List OperationalEvent) (d : State)
    → (((replay none (e ∷ es)).0 ≡ some d) × ((replay none (e ∷ es)).1 ≡ []))
      ↔ ((e.previous_state ≡ none) × Runs e.new_state es d)
unfolding replay
replay_first e es d =
    let r = replay_iff e.new_state d es in
    (
      λ (s, c).
          (let (f, g) = append_nil c in
            ((first_iff e).0 f, r.0 (pair_eq (replay (some e.new_state) es) s g))),
      λ (p, m). (let q = r.1 m in (ap (λ x. x.0) q, rw ((first_iff e).1 p) (ap (λ x. x.1) q))),
    )

-- A history that is delivered twice over, its events under ids of their own, reduces to what it
-- reduces to alone, the second delivery all counted as duplicates.
pub reduce_history-redelivered :
    (es : List OperationalEvent)
    → HasNewIds [] es
    → reduce_history (es ++ es) ≡ record (reduce_history es) { duplicate_count = length es }
unfolding reduce_history nothing_yet reduce_of
reduce_history-redelivered es h =
    let once = unique_events-new nothing_yet es h in
    let twice : unique_events nothing_yet (es ++ es)
        ≡ record nothing_yet { kept = es; duplicates = 0 + length es } =
      unique_events-++ nothing_yet es es
      ∙ ap (λ u. unique_events u es) once
      ∙ unique_events-again (record nothing_yet { kept = es }) es (found_again [] es h) in
    let n : 0 + length es ≡ length es = omega arith in
    ap reduce_of twice
    ∙ ap (λ k. reduce_of (record nothing_yet { kept = es; duplicates = k })) n
    ∙ ap (λ u. record (reduce_of u) { duplicate_count = length es }) (sym once)

-- A history in the order of its times, under ids of its own, reduces without conflict to a state
-- exactly if its first event claims no state before it and the others are a path of moves from
-- that event's state to the state reduced to.
pub reduce_history_iff :
    (e : OperationalEvent) (es : List OperationalEvent) (d : State)
    → HasNewIds [] (e ∷ es)
    → IsOrdered by_time (e ∷ es)
    → (((reduce_history (e ∷ es)).state ≡ some d) × ((reduce_history (e ∷ es)).conflicts ≡ []))
      ↔ ((e.previous_state ≡ none) × Runs e.new_state es d)
unfolding reduce_history nothing_yet reduce_of
reduce_history_iff e es d h o =
    let once = unique_events-new nothing_yet (e ∷ es) h in
    subst
      (λ r.
        ((r.state ≡ some d) × (r.conflicts ≡ []))
        ↔ ((e.previous_state ≡ none) × Runs e.new_state es d))
      (sym (ap reduce_of once ∙ ap reduction_of (sort-IsOrdered by_time (e ∷ es) o)))
      (replay_first e es d)
