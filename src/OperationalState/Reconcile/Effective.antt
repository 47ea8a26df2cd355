-- ===== src/OperationalState/Reconcile/Effective.antt =====
-- The effective state and the conflicts of `reconcile_item`, collab/tools/lib/operational_state.py.
use mathlib.Core.Path.{subst}
use ibkr_auto_trader.OperationalState.Replay.{StateConflict}
use ibkr_auto_trader.Prelude.{
  ℕ, ◌≡◌, ◌≢◌, ◌≤◌, ◌↔◌, inl, inr, refl, ◌∙◌, Bool, true, false, Option, none, some, List, [], ◌∷◌,
  ◌++◌, not, if◌then◌else◌, ltb, map, arith, All, Bool-cases, append_nil,
}
use ibkr_auto_trader.OperationalState.{State, completed, same_state_iff}
use ibkr_auto_trader.OperationalState.Reconcile.{
  precedence, board_fact, is_closed, Fact, Sources, ItemConflict, facts, graver, greater, disagrees,
  ItemConflict, of_replay, escalation_facts, request_facts, facts_of, autopilot_status,
  history_source, transition_source, first_greatest, selected, is_compatible, item_conflicts,
  rejected_history_records, schema_incompatible_conflict, source_state_conflict,
  live_source_disagreement, status_state, flag, earlier_facts, directory_source,
}

abbrev pub Weighs : Fact → Fact → Type 0
Weighs best f = precedence f.state ≤ precedence best.state

All-Weighs : (a b : Fact) (fs : List Fact) → Weighs b a → All (Weighs a) fs → All (Weighs b) fs
All-Weighs a b [] h w = tt
All-Weighs a b (f ∷ fs) h w = (omega arith, All-Weighs a b fs h w.1)

graver-Weighs : (a b : Fact) → Weighs (graver a b) a × Weighs (graver a b) b
graver-Weighs a b = elim (Bool-cases (ltb (precedence a.state) (precedence b.state))) [
  | inl l ↦ rw l (ground arith, omega arith)
  | inr l ↦ rw l (omega arith, ground arith)
]

greater-Weighs :
    (best : Fact) (fs : List Fact)
    → Weighs (greater best fs) best × All (Weighs (greater best fs)) fs
greater-Weighs best [] = (omega arith, tt)
greater-Weighs best (f ∷ fs) =
    let (h, a) = greater-Weighs (graver best f) fs in
    let (l, r) = graver-Weighs best f in (omega arith, (omega arith, a))

graver_of : (P : Fact → Type 0) (a b : Fact) → P a → P b → P (graver a b)
graver_of P a b p q = elim (Bool-cases (ltb (precedence a.state) (precedence b.state))) [
  | inl l ↦ rw l q
  | inr l ↦ rw l p
]

greater_of :
    (P : Fact → Type 0) (best : Fact) (fs : List Fact) → P best → All P fs → P (greater best fs)
greater_of P best [] p a = p
greater_of P best (f ∷ fs) p a = greater_of P (graver best f) fs (graver_of P best f p a.0) a.1

precedence_most : (s : State) → 140 ≤ precedence s → s ≡ completed
unfolding precedence
precedence_most completed h = refl
precedence_most s h = absurd (omega arith)

first_greatest-Weighs : (d : Fact) (fs : List Fact) → All (Weighs (first_greatest d fs)) fs
first_greatest-Weighs d [] = tt
first_greatest-Weighs d (f ∷ fs) = greater-Weighs f fs

first_greatest_of :
    (P : Fact → Type 0) (d : Fact) (fs : List Fact) → fs ≢ [] → All P fs → P (first_greatest d fs)
first_greatest_of P d [] n a = absurd (n refl)
first_greatest_of P d (f ∷ fs) n a = greater_of P f fs a.0 a.1

ends : (xs : List Fact) (x : Fact) → xs ++ x ∷ [] ≢ []
ends [] x h = absurd (ground arith)
ends (y ∷ xs) x h = absurd (ground arith)

closed_weight : (s : Sources) → is_closed s.board ≡ true → 140 ≤ precedence (selected s).state
unfolding selected facts precedence
closed_weight s c =
    let d : Fact = record { state = board_fact s.board; source = directory_source } in
    let w : All (Weighs (selected s)) (facts s) = first_greatest-Weighs d (facts s) in
    let f : Fact = record {
      state = completed;
      source = if s.has_transition then transition_source else directory_source;
    } in
    let rest =
      escalation_facts s
      ++ request_facts s.request
      ++ facts_of autopilot_status (status_state s.status)
      ++ facts_of history_source s.latest
      ++ d ∷ [] in
    let q : facts s ≡ f ∷ rest = rw c refl in (subst (All (Weighs (selected s))) q w).0

-- The effective state is that of one of the facts - what holds of all of them holds of it - and no
-- fact outweighs it; and on a closed board it is completed, whatever the other sources say.
pub selected_lem :
    (s : Sources)
    → ((P : Fact → Type 0) → All P (facts s) → P (selected s))
      × All (Weighs (selected s)) (facts s)
      × (is_closed s.board ≡ true → (selected s).state ≡ completed)
unfolding selected facts
selected_lem s =
    let d : Fact = record { state = board_fact s.board; source = directory_source } in
    (
      λ P a. first_greatest_of P d (facts s) (ends (earlier_facts s) d) a,
      first_greatest-Weighs d (facts s),
      λ c. precedence_most (selected s).state (closed_weight s c),
    )

flag_nil : (b : Bool) (c : ItemConflict) → flag b c ≡ [] → b ≡ false
flag_nil true c h = absurd (ground arith)
flag_nil false c h = refl

map_nil : (cs : List StateConflict) → map of_replay cs ≡ [] → cs ≡ []
map_nil [] h = refl
map_nil (c ∷ cs) h = absurd (ground arith)

agrees :
    (chosen : State) (live : Option State)
    → disagrees chosen live ≡ false
    → (l : State) → live ≡ some l
    → chosen ≡ l
agrees chosen none h l e = absurd (ground arith)
agrees chosen (some m) h l e =
    let q : m ≡ l = ground arith in (same_state_iff chosen m).0 (ground arith) ∙ q

agreed :
    (chosen : State) (live : Option State)
    → ((l : State) → live ≡ some l → chosen ≡ l)
    → disagrees chosen live ≡ false
agreed chosen none h = refl
agreed chosen (some m) h = rw ((same_state_iff chosen m).1 (h m refl)) refl

no_conflicts :
    (cs : List StateConflict) (n : ℕ) (future fits differs : Bool)
    → cs ≡ []
    → n ≡ 0
    → future ≡ false
    → fits ≡ true
    → differs ≡ false
    → map of_replay cs
        ++ flag (ltb 0 n) rejected_history_records
        ++ flag future schema_incompatible_conflict
        ++ flag (not fits) source_state_conflict
        ++ flag differs live_source_disagreement
      ≡ []
no_conflicts cs n future fits differs a b c d e = rw (a, b, c, d, e) refl

without_conflict :
    (cs : List StateConflict) (n : ℕ) (future fits differs : Bool)
    → map of_replay cs
        ++ flag (ltb 0 n) rejected_history_records
        ++ flag future schema_incompatible_conflict
        ++ flag (not fits) source_state_conflict
        ++ flag differs live_source_disagreement
      ≡ []
    → (cs ≡ []) × (n ≡ 0) × (future ≡ false) × (fits ≡ true) × (differs ≡ false)
without_conflict cs n future fits differs h =
    let (h3, e) = append_nil {ys = flag differs live_source_disagreement} h in
    let (h2, d) = append_nil {ys = flag (not fits) source_state_conflict} h3 in
    let (h1, c) = append_nil {ys = flag future schema_incompatible_conflict} h2 in
    let (a, b) = append_nil {ys = flag (ltb 0 n) rejected_history_records} h1 in
    let q = flag_nil (ltb 0 n) rejected_history_records b in
    let r = flag_nil (not fits) source_state_conflict d in
    (
      map_nil cs a,
      ground arith,
      flag_nil future schema_incompatible_conflict c,
      ground arith,
      flag_nil differs live_source_disagreement e,
    )

-- Nothing is shown as a conflict exactly if nothing disagrees: the replay had none, every line of the
-- history was read, and under a known schema, the board's directory is compatible with the effective
-- state, and the live status, if it names a state, names the effective one.
item_conflicts_iff :
    (s : Sources)
    → (item_conflicts s ≡ []) ↔ (
        (s.replay_conflicts ≡ [])
        × (s.rejected_count ≡ 0)
        × (s.schema_incompatible ≡ false)
        × (is_compatible s.board (selected s).state ≡ true)
        × ((live : State) → status_state s.status ≡ some live → (selected s).state ≡ live))
unfolding item_conflicts
item_conflicts_iff s =
    let chosen = (selected s).state in
    let live = status_state s.status in
    (
      λ h.
          (let (a, b, c, d, e) =
              without_conflict s.replay_conflicts s.rejected_count s.schema_incompatible
                (is_compatible s.board chosen) (disagrees chosen live) h in
            (a, b, c, d, agrees chosen live e)),
      λ (a, b, c, d, e).
          no_conflicts s.replay_conflicts s.rejected_count s.schema_incompatible
            (is_compatible s.board chosen) (disagrees chosen live) a b c d (agreed chosen live e),
    )
