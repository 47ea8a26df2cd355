-- ===== src/OperationalState/History/Append.antt =====
-- `append_event` of collab/tools/lib/operational_state.py over a history that is numbered from 1.
use mathlib.Core.Path.{subst}
use mathlib.Core.List.{append-nil, append_assoc}
use ibkr_auto_trader.Prelude.{
  ℕ, zero, suc, ◌+◌, ◌≤◌, ◌<◌, ◌≡◌, refl, sym, ap, ◌∙◌, Bool, true, false, none, some, String, List,
  [], ◌∷◌, ◌++◌, if◌then◌else◌, text_key, length, arith,
}
use ibkr_auto_trader.Prelude.Result.{ok, err}
use ibkr_auto_trader.OperationalState.{OperationalEvent, schema}
use ibkr_auto_trader.OperationalState.Event.RoundTrip.{IsEvent}
use ibkr_auto_trader.OperationalState.Replay.{with_id, same_payload}
use ibkr_auto_trader.OperationalState.Replay.Redelivery.{
  HasNewIds, with_id-++, same_payload-numbered, same_text_refl,
}
use ibkr_auto_trader.OperationalState.History.{id_collision, take, greatest, stamp, append_event}
use ibkr_auto_trader.OperationalState.History.Numbered.{
  written, written-++, IsNumberedFrom, read_history-written, greatest-take,
}

HasNewIds-++ :
    (kept es : List OperationalEvent) (e : OperationalEvent)
    → HasNewIds kept es
    → with_id e.event_id (kept ++ es) ≡ none
    → HasNewIds kept (es ++ e ∷ [])
HasNewIds-++ kept [] e h w = (ap (with_id e.event_id) (sym (append-nil kept)) ∙ w, tt)
HasNewIds-++ kept (x ∷ es) e h w = (
  h.0,
  HasNewIds-++ (kept ++ x ∷ []) es e h.1
      (ap (with_id e.event_id) (append_assoc kept (x ∷ []) es) ∙ w),
)

length-one :
    (es : List OperationalEvent) (e : OperationalEvent) → length (es ++ e ∷ []) ≡ suc (length es)
length-one [] e = refl
length-one (x ∷ es) e = ap suc (length-one es e)

take_all : (k : ℕ) (es : List OperationalEvent) → length es ≤ k → take k es ≡ es
take_all zero [] h = refl
take_all zero (e ∷ es) h = absurd (omega arith)
take_all (suc k) [] h = refl
take_all (suc k) (e ∷ es) h = rw (take_all k es (omega arith)) refl

module _ (is_blank : String → Bool) (is_entity : String → Bool) where
  IsNumberedFrom-++ :
      (entity : String) (n : ℕ) (es : List OperationalEvent) (e : OperationalEvent)
      → IsNumberedFrom is_blank is_entity entity n es
      → IsEvent is_blank is_entity e
      → e.entity_id ≡ entity
      → e.sequence ≡ some (suc (n + length es))
      → IsNumberedFrom is_blank is_entity entity n (es ++ e ∷ [])
  IsNumberedFrom-++ entity n [] e h v i s = ((v, i, s ∙ ap some (omega arith)), tt)
  IsNumberedFrom-++ entity n (x ∷ es) e h v i s =
      (h.0, IsNumberedFrom-++ entity (suc n) es e h.1 v i (s ∙ ap some (omega arith)))

  -- An event appended to a history that is numbered from 1 meets the history's first 100 events:
  -- if one of them has its id, nothing is written, and that event is the answer if the payloads
  -- are the same, else the ids collide; if none has, the event is written at the end, under the
  -- number after the last of those 100. The event is of this schema, and its entity's id is valid.
  pub append_event_lem :
      (now : String) (e : OperationalEvent) (es : List OperationalEvent)
      → e.schema_version ≡ schema
      → is_entity e.entity_id ≡ true
      → IsNumberedFrom is_blank is_entity e.entity_id 0 es
      → (with_id e.event_id (take 100 es) ≡ none
          → let stamped = stamp is_blank is_entity now e (suc (length (take 100 es))) in
            append_event is_blank is_entity now e (some (written es))
            ≡ ok (some (written (es ++ stamped ∷ [])), record { event = stamped; appended = true }))
        × ((old : OperationalEvent)
            → with_id e.event_id (take 100 es) ≡ some old
            → append_event is_blank is_entity now e (some (written es)) ≡ (
                if same_payload old e
                then ok (some (written es), record { event = old; appended = false })
                else err (id_collision e.event_id)))
  unfolding append_event
  append_event_lem now e es v i h =
      let r =
        read_history-written is_blank is_entity e.entity_id 100 es i (omega arith) (omega arith)
          h in
      let s = (text_key.same_iff e.schema_version schema).1 v in
      let g : greatest (take 100 es) ≡ length (take 100 es) =
        (let q = greatest-take is_blank is_entity e.entity_id 0 100 es h in omega arith) in
      (
        λ w.
            rw (s, r, w, g)
              (rw (written-++ es (stamp is_blank is_entity now e (suc (length (take 100 es))) ∷ []))
                refl),
        λ old w. rw (s, r, w) refl,
      )

  -- As long as a history has at most 100 events, numbered from 1 under ids of their own, appending
  -- an event with a new id keeps it so, with the event as its last. The event is one that is read
  -- back, and its entity's id is valid.
  pub append-IsNumberedFrom :
      (now : String) (e : OperationalEvent) (es : List OperationalEvent)
      → is_entity e.entity_id ≡ true
      → IsNumberedFrom is_blank is_entity e.entity_id 0 es
      → HasNewIds [] es
      → length es ≤ 100
      → with_id e.event_id es ≡ none
      → let stamped = stamp is_blank is_entity now e (suc (length es)) in
        IsEvent is_blank is_entity stamped
        → (append_event is_blank is_entity now e (some (written es))
            ≡ ok (some (written (es ++ stamped ∷ [])), record { event = stamped; appended = true }))
          × IsNumberedFrom is_blank is_entity e.entity_id 0 (es ++ stamped ∷ [])
          × HasNewIds [] (es ++ stamped ∷ [])
  append-IsNumberedFrom now e es i h u l w v =
      let t = take_all 100 es l in
      let a = (append_event_lem now e es v.0 i h).0 (ap (with_id e.event_id) t ∙ w) in
      let q : suc (length (take 100 es)) ≡ suc (length es) = ap (λ x. suc (length x)) t in
      let stamped = stamp is_blank is_entity now e (suc (length es)) in
      (
        a
            ∙ ap
                (λ n. ok (
                  some (written (es ++ stamp is_blank is_entity now e n ∷ [])),
                  record { event = stamp is_blank is_entity now e n; appended = true },
                ))
                q,
        IsNumberedFrom-++ e.entity_id 0 es stamped h v refl (ap some (omega arith)),
        HasNewIds-++ [] es stamped u w,
      )

  stamp_lem :
      (now : String) (e : OperationalEvent) (n : ℕ)
      → text_key.same e.ingested_ts "" ≡ false
      → stamp is_blank is_entity now e n ≡ record e { sequence = some n }
  stamp_lem now e n g = rw g refl

  -- An event that is delivered again is not written again: in a history of fewer than 100 events
  -- that are numbered from 1 under ids of their own, an event with a new id and a time of
  -- ingestion is written under the next number, and appending it a second time leaves the file as
  -- it is and answers with the event under that number. The event is one that is read back, and
  -- its entity's id is valid.
  pub append_again :
      (now later : String) (e : OperationalEvent) (es : List OperationalEvent)
      → is_entity e.entity_id ≡ true
      → IsNumberedFrom is_blank is_entity e.entity_id 0 es
      → HasNewIds [] es
      → length es < 100
      → with_id e.event_id es ≡ none
      → IsEvent is_blank is_entity (stamp is_blank is_entity now e (suc (length es)))
      → text_key.same e.ingested_ts "" ≡ false
      → let numbered = record e { sequence = some (suc (length es)) } in
        let file = some (written (es ++ numbered ∷ [])) in
        (append_event is_blank is_entity now e (some (written es))
          ≡ ok (file, record { event = numbered; appended = true }))
        × (append_event is_blank is_entity later e file
            ≡ ok (file, record { event = numbered; appended = false }))
  append_again now later e es i h u l w v g =
      let n = suc (length es) in
      let numbered = record e { sequence = some n } in
      let q = stamp_lem now e n g in
      let (a, k, d) = append-IsNumberedFrom now e es i h u (omega arith) w v in
      let k' = subst (λ x. IsNumberedFrom is_blank is_entity e.entity_id 0 (es ++ x ∷ [])) q k in
      let m = length-one es numbered in
      let t = take_all 100 (es ++ numbered ∷ []) (omega arith) in
      let found : with_id e.event_id (take 100 (es ++ numbered ∷ [])) ≡ some numbered =
        ap (with_id e.event_id) t
        ∙ with_id-++ e.event_id es numbered w
        ∙ (rw (same_text_refl e.event_id) refl) in
      (
        subst
            (λ x.
              append_event is_blank is_entity now e (some (written es))
              ≡ ok (some (written (es ++ x ∷ [])), record { event = x; appended = true }))
            q a,
        (append_event_lem later e (es ++ numbered ∷ []) v.0 i k').1 numbered found
            ∙ (rw (same_payload-numbered e (some n)) refl),
      )
