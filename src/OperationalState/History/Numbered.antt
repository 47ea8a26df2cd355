-- ===== src/OperationalState/History/Numbered.antt =====
-- What `read_history` of collab/tools/lib/operational_state.py reads of events that are numbered on.
use ibkr_auto_trader.Prelude.{
  ℕ, zero, suc, ◌+◌, ◌≤◌, ◌<◌, max, ◌≡◌, refl, Bool, true, false, ◌&&◌, none, some, String, List,
  [], ◌∷◌, ◌++◌, text_key, length, leb, arith, All, map,
}
use ibkr_auto_trader.Prelude.Sort.{IsOrdered, sort-IsOrdered}
use ibkr_auto_trader.Prelude.Result.{ok}
use ibkr_auto_trader.OperationalState.{OperationalEvent, schema}
use ibkr_auto_trader.OperationalState.Event.{to_dict}
use ibkr_auto_trader.OperationalState.Event.RoundTrip.{IsEvent, from_dict-to_dict}
use ibkr_auto_trader.OperationalState.Replay.{number}
use ibkr_auto_trader.OperationalState.History.{
  Line, json, by_number, take, cursor_of, greatest, scan, is_incompatible, read_history,
}

abbrev pub written : List OperationalEvent → List Line
written es = map (λ e. json (some (to_dict e))) es

pub written-++ : (es es' : List OperationalEvent) → written (es ++ es') ≡ written es ++ written es'
written-++ [] es' = refl
written-++ (e ∷ es) es' = rw (written-++ es es') refl

module _ (is_blank : String → Bool) (is_entity : String → Bool) where
  -- Events of one handoff that are numbered on from a number.
  abbrev pub IsNumberedFrom : String → ℕ → List OperationalEvent → Type 0
  IsNumberedFrom entity n [] = Unit
  IsNumberedFrom entity n (e ∷ es) =
      (IsEvent is_blank is_entity e × (e.entity_id ≡ entity) × (e.sequence ≡ some (suc n)))
      × IsNumberedFrom entity (suc n) es

  number_of : (e : OperationalEvent) (n : ℕ) → e.sequence ≡ some n → number e ≡ n
  number_of e n h = rw h refl

  to_dict-compatible :
      (e : OperationalEvent)
      → e.schema_version ≡ schema
      → is_incompatible (some (to_dict e)) ≡ false
  unfolding to_dict
  to_dict-compatible e h = ground (arith, text_key.same_iff e.schema_version schema)

  scan-written :
      (entity : String) (n : ℕ) (es : List OperationalEvent)
      → IsNumberedFrom entity n es
      → scan is_blank is_entity entity none (written es)
        ≡ record { found = es; rejected = 0; incompatible = false }
  unfolding scan
  scan-written entity n [] h = refl
  scan-written entity n (e ∷ es) h =
      let (v, i, s) = h.0 in
      rw
        (
          scan-written entity (suc n) es h.1,
          from_dict-to_dict is_blank is_entity e v,
          to_dict-compatible e v.0,
        )
        (ground (arith, text_key.same_iff e.entity_id entity, number_of e (suc n) s))

  numbered_above :
      (entity : String) (n : ℕ) (es : List OperationalEvent)
      → IsNumberedFrom entity n es
      → (m : ℕ) → m ≤ n
      → All (λ y. m < number y) es
  numbered_above entity n [] h m l = tt
  numbered_above entity n (e ∷ es) h m l = (
    (let q = number_of e (suc n) h.0.2 in omega arith),
    numbered_above entity (suc n) es h.1 m (omega arith),
  )

  above_ordered :
      (e : OperationalEvent) (es : List OperationalEvent)
      → All (λ y. number e < number y) es
      → All (λ y. by_number e y ≡ true) es
  unfolding by_number
  above_ordered e [] a = tt
  above_ordered e (y ∷ es) a = (ground arith, above_ordered e es a.1)

  numbered-IsOrdered :
      (entity : String) (n : ℕ) (es : List OperationalEvent)
      → IsNumberedFrom entity n es
      → IsOrdered by_number es
  numbered-IsOrdered entity n [] h = tt
  numbered-IsOrdered entity n (e ∷ es) h =
      let q = number_of e (suc n) h.0.2 in
      (
        above_ordered e es (numbered_above entity (suc n) es h.1 (number e) (omega arith)),
        numbered-IsOrdered entity (suc n) es h.1,
      )

  -- The first page of a history that is numbered from 1: its first events in their order, none of the
  -- lines rejected.
  pub read_history-written :
      (entity : String) (limit : ℕ) (es : List OperationalEvent)
      → is_entity entity ≡ true
      → 1 ≤ limit
      → limit ≤ 1000
      → IsNumberedFrom entity 0 es
      → read_history is_blank is_entity entity none limit (some (written es))
        ≡ ok (record {
          events = take limit es;
          next_cursor = cursor_of none (take limit es);
          rejected_count = 0;
          schema_incompatible = false;
        })
  unfolding read_history
  read_history-written entity limit es i l u h =
      let q : (leb 1 limit && leb limit 1000) ≡ true = ground arith in
      rw
        (
          i,
          q,
          scan-written entity 0 es h,
          sort-IsOrdered by_number es (numbered-IsOrdered entity 0 es h),
        )
        refl

  pub greatest-take :
      (entity : String) (n k : ℕ) (es : List OperationalEvent)
      → IsNumberedFrom entity n es
      → max n (greatest (take k es)) ≡ n + length (take k es)
  greatest-take entity n zero es h = omega arith
  greatest-take entity n (suc k) [] h = omega arith
  greatest-take entity n (suc k) (e ∷ es) h =
      let q = number_of e (suc n) h.0.2 in
      let ih = greatest-take entity (suc n) k es h.1 in omega arith
