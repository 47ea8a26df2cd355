-- ===== src/OperationalState/Replay/Legal.antt =====
-- Histories as paths through ALLOWED_TRANSITIONS of collab/tools/lib/operational_state.py.
use mathlib.Core.Path.{subst}
use ibkr_auto_trader.Prelude.{
  ◌≡◌, ◌≢◌, ◌↔◌, ◌⊎◌, inl, inr, refl, ap, ◌∙◌, true, false, Option, none, some, List, [], ◌∷◌,
  text_key, arith, All, Bool-cases, Option-cases, append_nil,
}
use ibkr_auto_trader.OperationalState.{
  State, cancelled, superseded, completed, same_state, allowed, OperationalEvent, same_state_iff,
}
use ibkr_auto_trader.OperationalState.Replay.{
  StateConflict, replay, conflicts_of, is_mismatch, is_invalid, is_allowed, reconciliation,
}

-- The moves that an event may make from a state: to stay, to go where the matrix allows, and
-- anywhere for reconciliation.
pub data Moves (e : OperationalEvent) (c : State) : Type 0 where
  stays : e.new_state ≡ c → Moves e c
  goes : is_allowed c e.new_state ≡ true → Moves e c
  reconciles : e.source ≡ reconciliation → Moves e c

abbrev pub Continues : OperationalEvent → State → Type 0
Continues e c = ((e.previous_state ≡ none) ⊎ (e.previous_state ≡ some c)) × Moves e c

-- A path of events from a state on.
pub data Runs : State → List OperationalEvent → State → Type 0 where
  stops : (c : State) → Runs c [] c
  moves :
      (c d : State) (e : OperationalEvent) (es : List OperationalEvent)
      → Continues e c
      → Runs e.new_state es d
      → Runs c (e ∷ es) d

pub pair_eq :
    (x : Option State × List StateConflict) {s : Option State} {cs : List StateConflict}
    → x.0 ≡ s
    → x.1 ≡ cs
    → x ≡ (s, cs)
pair_eq x p q = λ i. (p i, q i)

match_iff :
    (c : State) (e : OperationalEvent)
    → (is_mismatch (some c) e ≡ false) ↔ ((e.previous_state ≡ none) ⊎ (e.previous_state ≡ some c))
match_iff c e = elim (Option-cases e.previous_state) [
  | inl n ↦ (λ h. inl n, λ h. rw n refl)
  | inr (p, n) ↦ (
    λ h. inr (n ∙ ap some ((same_state_iff p c).0 (ground arith))),
    λ w. elim w [
      | inl z ↦ absurd (ground arith)
      | inr z ↦ rw z (ground (arith, same_state_iff c c))
    ],
  )
]

Moves-iff : (c : State) (e : OperationalEvent) → (is_invalid (some c) e ≡ false) ↔ Moves e c
Moves-iff c e =
    let stay = same_state_iff e.new_state c in
    let source = text_key.same_iff e.source reconciliation in
    (
      λ h. elim (Bool-cases (same_state e.new_state c)) [
        | inl s ↦ stays (stay.0 s)
        | inr s ↦ elim (Bool-cases (text_key.same e.source reconciliation)) [
          | inl r ↦ reconciles (source.0 r)
          | inr r ↦ goes (ground arith)
        ]
      ],
      λ w. elim w [
        | stays s ↦ (let q = stay.1 s in ground arith)
        | goes g ↦ ground arith
        | reconciles r ↦ (let q = source.1 r in ground arith)
      ],
    )

conflicts_of_iff :
    (current : Option State) (e : OperationalEvent)
    → (conflicts_of current e ≡ [])
      ↔ ((is_mismatch current e ≡ false) × (is_invalid current e ≡ false))
conflicts_of_iff current e = (
  λ h. elim (Bool-cases (is_mismatch current e)) [
    | inl m ↦ absurd (ground arith)
    | inr m ↦ elim (Bool-cases (is_invalid current e)) [
      | inl v ↦ absurd (ground arith)
      | inr v ↦ (m, v)
    ]
  ],
  λ (m, v). rw (m, v) refl,
)

replay-Runs :
    (c d : State) (es : List OperationalEvent) → replay (some c) es ≡ (some d, []) → Runs c es d
unfolding replay
replay-Runs c d [] h = let q : c ≡ d = ground arith in subst (Runs c []) q (stops c)
replay-Runs c d (e ∷ es) h =
    let (f, r) = append_nil (ap (λ q. q.1) h) in
    let (m, v) = (conflicts_of_iff (some c) e).0 f in
    moves c d e es ((match_iff c e).0 m, (Moves-iff c e).0 v)
      (replay-Runs e.new_state d es (pair_eq (replay (some e.new_state) es) (ap (λ q. q.0) h) r))

Runs-replay :
    (c d : State) (es : List OperationalEvent) → Runs c es d → replay (some c) es ≡ (some d, [])
unfolding replay
Runs-replay c d [] (stops x) = refl
Runs-replay c d (e ∷ es) (moves x y z w (p, m) r) =
    rw
      (
        Runs-replay e.new_state d es r,
        (conflicts_of_iff (some c) e).1 ((match_iff c e).1 p, (Moves-iff c e).1 m),
      )
      refl

-- From a state, a replay ends without conflict exactly if its events are a path of moves, and it is
-- then at the path's end.
pub replay_iff :
    (c d : State) (es : List OperationalEvent) → (replay (some c) es ≡ (some d, [])) ↔ Runs c es d
replay_iff c d es = (replay-Runs c d es, Runs-replay c d es)

not_allowed : (c s : State) → allowed c ≡ [] → is_allowed c s ≡ false
unfolding is_allowed
not_allowed c s f = rw f refl

final_move :
    (c : State) (e : OperationalEvent)
    → allowed c ≡ []
    → e.source ≢ reconciliation
    → Moves e c
    → e.new_state ≡ c
final_move c e f n (stays s) = s
final_move c e f n (goes g) = absurd (ground (arith, not_allowed c e.new_state f))
final_move c e f n (reconciles r) = absurd (n r)

final-Runs :
    (c d : State) (es : List OperationalEvent)
    → allowed c ≡ []
    → All (λ e. e.source ≢ reconciliation) es
    → Runs c es d
    → (d ≡ c) × All (λ e. e.new_state ≡ c) es
final-Runs c d [] f a (stops x) = (refl, tt)
final-Runs c d (e ∷ es) f a (moves x y z w (p, m) r) =
    let q = final_move c e f a.0 m in
    let (t, rest) = final-Runs c d es f a.1 (subst (λ s. Runs s es d) q r) in (t, (q, rest))

-- A handoff that has come to its end.
abbrev pub IsFinal : State → Type 0
IsFinal c = (c ≡ cancelled) ⊎ (c ≡ superseded) ⊎ (c ≡ completed)

final-allowed : (c : State) → IsFinal c → allowed c ≡ []
unfolding allowed
final-allowed c (inl e) = rw e refl
final-allowed c (inr (inl e)) = rw e refl
final-allowed c (inr (inr e)) = rw e refl

-- A handoff that is cancelled, superseded or completed stays so: the events of a replay from such
-- a state without conflict, none of them a reconciliation's, are all of that state, and so is the
-- end.
pub final-replay :
    (c d : State) (es : List OperationalEvent)
    → IsFinal c
    → All (λ e. e.source ≢ reconciliation) es
    → replay (some c) es ≡ (some d, [])
    → (d ≡ c) × All (λ e. e.new_state ≡ c) es
final-replay c d es f a h = final-Runs c d es (final-allowed c f) a (replay-Runs c d es h)
