-- ===== src/OperationalState/Event/RoundTrip.antt =====
-- `from_dict` and `to_dict` of collab/tools/lib/operational_state.py, one after the other.
use ibkr_auto_trader.Prelude.{
  ℕ, zero, suc, ◌≤◌, Bool, true, false, ◌≡◌, refl, sym, ap, ◌∙◌, Option, none, some, String, List,
  [], ◌∷◌, text_key, arith, map, Bool-cases, inl, inr,
}
use mathlib.Core.Path.{subst}
use ibkr_auto_trader.Prelude.Int.{pos, negsuc}
use ibkr_auto_trader.Prelude.Result.{Result, ok, ◌>>=◌, >>=-eq_ok}
use ibkr_auto_trader.OperationalState.{State, value, OperationalEvent, schema, of_value-value}
use ibkr_auto_trader.OperationalState.Event.{
  Value, null, text, integer, boolean, array, other, Doc, EventError, to_dict, from_dict, all_texts,
  read_sequence, of_sequence, read_state, known_state, of_state, required_state, present,
  required_string, validate_entity_id, optional_string, of_optional, check_schema, read_conditions,
}

abbrev pub IsNumber : Option ℕ → Type 0
IsNumber none = Unit
IsNumber (some n) = 1 ≤ n

-- What follows a call that succeeded.
bound {ℓ κ μ ν} :
    {E : Type ℓ} {A : Type κ} {B : Type μ} {Q : Type ν} (m : Result E A) (f : A → Result E B)
    {b : B}
    → m >>= f ≡ ok b
    → ((a : A) → m ≡ ok a → f a ≡ ok b → Q)
    → Q
bound m f h k = let (a, e, r) = >>=-eq_ok m f h in k a e r

ok_eq : {a b : OperationalEvent} → Path (Result EventError OperationalEvent) (ok a) (ok b) → a ≡ b
ok_eq h = ground arith

check_schema-eq_ok : (v : Value) (s : String) → check_schema v ≡ ok s → s ≡ schema
check_schema-eq_ok (text t) s h = elim (Bool-cases (text_key.same t schema)) [
  | inl b ↦ ground arith
  | inr b ↦ absurd (ground arith)
]
check_schema-eq_ok null s h = cc
check_schema-eq_ok (integer n) s h = cc
check_schema-eq_ok (boolean b) s h = cc
check_schema-eq_ok (array l) s h = cc
check_schema-eq_ok (other b) s h = cc

module _ (is_blank : String → Bool) (is_entity : String → Bool) where
  -- An event of this schema whose texts are there.
  abbrev pub IsEvent : OperationalEvent → Type 0
  IsEvent e =
      (e.schema_version ≡ schema)
      × IsNumber e.sequence
      × (is_blank e.event_id ≡ false)
      × (is_blank e.entity_id ≡ false)
      × (is_entity e.entity_id ≡ true)
      × (is_blank e.reason ≡ false)
      × (is_blank e.source ≡ false)
      × (is_blank e.event_ts ≡ false)
      × (is_blank e.ingested_ts ≡ false)

  required_string-eq_ok :
      (v : Value) (s : String) → required_string is_blank is_entity v ≡ ok s → is_blank s ≡ false
  required_string-eq_ok (text t) s h = elim (Bool-cases (is_blank t)) [
    | inl b ↦ absurd (ground arith)
    | inr b ↦ (let q : t ≡ s = ground arith in ap is_blank (sym q) ∙ b)
  ]
  required_string-eq_ok null s h = cc
  required_string-eq_ok (integer n) s h = cc
  required_string-eq_ok (boolean b) s h = cc
  required_string-eq_ok (array l) s h = cc
  required_string-eq_ok (other b) s h = cc

  validate_entity_id-eq_ok :
      (t s : String)
      → validate_entity_id is_blank is_entity t ≡ ok s
      → (t ≡ s) × (is_entity s ≡ true)
  validate_entity_id-eq_ok t s h = elim (Bool-cases (is_entity t)) [
    | inl b ↦ (let q : t ≡ s = ground arith in (q, ap is_entity (sym q) ∙ b))
    | inr b ↦ absurd (ground arith)
  ]

  read_sequence-eq_ok : (v : Value) (s : Option ℕ) → read_sequence v ≡ ok s → IsNumber s
  read_sequence-eq_ok null none h = tt
  read_sequence-eq_ok (integer (pos (suc n))) (some m) h = ground arith
  read_sequence-eq_ok null (some m) h = cc
  read_sequence-eq_ok (integer (pos (suc n))) none h = cc
  read_sequence-eq_ok (integer (pos zero)) s h = cc
  read_sequence-eq_ok (integer (negsuc n)) s h = cc
  read_sequence-eq_ok (text t) s h = cc
  read_sequence-eq_ok (boolean b) s h = cc
  read_sequence-eq_ok (array l) s h = cc
  read_sequence-eq_ok (other b) s h = cc

  all_texts-map : (ss : List String) → all_texts (map some ss) ≡ ok ss
  all_texts-map [] = refl
  all_texts-map (s ∷ ss) = rw (all_texts-map ss) refl

  read_sequence-of : (s : Option ℕ) → IsNumber s → read_sequence (of_sequence s) ≡ ok s
  read_sequence-of none h = refl
  read_sequence-of (some zero) h = absurd (ground arith)
  read_sequence-of (some (suc n)) h = refl

  read_state-of : (s : Option State) → read_state (of_state s) ≡ ok s
  read_state-of none = refl
  read_state-of (some s) = ap (known_state (value s)) (of_value-value s)

  optional_string-of : (s : Option String) → optional_string (of_optional s) ≡ s
  optional_string-of none = refl
  optional_string-of (some s) = refl

  required_state-of : (s : State) → required_state (text (value s)) ≡ ok s
  required_state-of s = ap (λ r. r >>= present) (read_state-of (some s))

  required_string-of :
      (s : String) → is_blank s ≡ false → required_string is_blank is_entity (text s) ≡ ok s
  required_string-of s h = rw h refl

  validate_entity_id-of :
      (s : String) → is_entity s ≡ true → validate_entity_id is_blank is_entity s ≡ ok s
  validate_entity_id-of s h = rw h refl

  check_schema-of : (s : String) → s ≡ schema → check_schema (text s) ≡ ok s
  check_schema-of s h = rw h refl

  -- Writing an event and reading the object back gives the event, whatever optional fields it
  -- lacks, provided it is of this schema, its number if any is positive, its entity's id is one,
  -- and the texts that are required are not blank.
  pub from_dict-to_dict :
      (e : OperationalEvent) → IsEvent e → from_dict is_blank is_entity (some (to_dict e)) ≡ ok e
  unfolding from_dict to_dict
  from_dict-to_dict e (v, n, i, t, r, a, s, x, y) =
      rw
        (
          check_schema-of e.schema_version v,
          read_sequence-of e.sequence n,
          all_texts-map e.conditions,
          required_string-of e.event_id i,
          required_string-of e.entity_id t,
          validate_entity_id-of e.entity_id r,
          read_state-of e.previous_state,
          required_state-of e.new_state,
          required_string-of e.reason a,
          required_string-of e.source s,
          required_string-of e.event_ts x,
          required_string-of e.ingested_ts y,
          optional_string-of e.actor,
          optional_string-of e.run_id,
          optional_string-of e.correlation_id,
          optional_string-of e.trace_id,
          optional_string-of e.escalation_severity,
          optional_string-of e.escalation_reason,
          optional_string-of e.escalation_ts,
          optional_string-of e.required_action,
        )
        refl

  -- What is accepted is an event of this schema with its texts there.
  from_dict-IsEvent :
      (d : Option Doc) (e : OperationalEvent) → from_dict is_blank is_entity d ≡ ok e → IsEvent e
  unfolding from_dict
  from_dict-IsEvent none e h = cc
  from_dict-IsEvent (some d) e h = bound (check_schema d.schema_version) _ h (λ v hv h.
      bound (read_sequence d.sequence) _ h (λ n hn h.
        bound (read_conditions d.conditions) _ h (λ c hc h.
          bound (required_string is_blank is_entity d.event_id) _ h (λ i hi h.
            bound (required_string is_blank is_entity d.entity_id) _ h (λ t ht h.
              bound (validate_entity_id is_blank is_entity t) _ h (λ t' hr h.
                bound (read_state d.previous_state) _ h (λ p hp h.
                  bound (required_state d.new_state) _ h (λ w hw h.
                    bound (required_string is_blank is_entity d.reason) _ h (λ a ha h.
                      bound (required_string is_blank is_entity d.source) _ h (λ s hs h.
                        bound (required_string is_blank is_entity d.event_ts) _ h (λ x hx h.
                          bound (required_string is_blank is_entity d.ingested_ts) _ h (λ y hy h.
                            (let (q, z) = validate_entity_id-eq_ok t t' hr in
                              subst IsEvent (ok_eq h) (
                                check_schema-eq_ok d.schema_version v hv,
                                read_sequence-eq_ok d.sequence n hn,
                                required_string-eq_ok d.event_id i hi,
                                ap is_blank (sym q) ∙ required_string-eq_ok d.entity_id t ht,
                                z,
                                required_string-eq_ok d.reason a ha,
                                required_string-eq_ok d.source s hs,
                                required_string-eq_ok d.event_ts x hx,
                                required_string-eq_ok d.ingested_ts y hy,
                              ))))))))))))))
