-- ===== src/Transitions/Provenance.antt =====
-- What a close may claim, and what is read back of it.
use mathlib.Core.Path.{subst}
use ibkr_auto_trader.Prelude.{
  ◌≡◌, ◌≢◌, refl, Bool, true, false, ◌&&◌, Option, none, some, String, not, arith, if◌then◌else◌,
  text_key, Bool-cases, Option-cases, inl, inr, sym, ap, ◌∙◌,
}
use ibkr_auto_trader.Prelude.Dict.{insert, lookup-insert}
use ibkr_auto_trader.Prelude.Result.{ok, >>=-eq_ok}
use ibkr_auto_trader.Transitions.{
  Kind, autonomous_verified, human_override, Label, autonomous_label, human_label, unrecorded_label,
  Transition, Proposal, is_autonomous_kind, has_text, stripped, validate, validate_kind, Records,
  write, read, is_autonomous, is_human_override, label_of, summary,
}

-- Whether a claimed kind is the autonomous one.
abbrev pub is_claimed : Option Kind → Bool
is_claimed none = false
is_claimed (some k) = is_autonomous_kind k

module _ (strip : String → String) (strip_strip : (s : String) → strip (strip s) ≡ strip s) where
  has_text-stripped : (s : Option String) → has_text strip (stripped strip s) ≡ has_text strip s
  has_text-stripped none = refl
  has_text-stripped (some s) = ground (arith, strip_strip s)

  validate_kind-parts :
      (kind : Kind) (p : Proposal) (t : Transition)
      → validate_kind strip kind p ≡ ok t
      → (t.kind ≡ kind)
        × (has_text strip p.actor ≡ true)
        × (kind ≡ human_override → has_text strip t.reason ≡ true)
        × (kind ≡ autonomous_verified → has_text strip t.receipt ≡ true)
  validate_kind-parts human_override p t h = elim (Bool-cases (has_text strip p.actor)) [
    | inr unnamed ↦ absurd (ground arith)
    | inl named ↦ elim (Bool-cases (has_text strip p.reason)) [
      | inr unexplained ↦ absurd (ground arith)
      | inl explained ↦
          (let same : t.reason ≡ stripped strip p.reason = ground arith in
            (
              ground arith,
              named,
              λ e. ap (has_text strip) same ∙ has_text-stripped p.reason ∙ explained,
              λ e. absurd (ground arith),
            ))
    ]
  ]
  validate_kind-parts autonomous_verified p t h = elim (Bool-cases (has_text strip p.actor)) [
    | inr unnamed ↦ absurd (ground arith)
    | inl named ↦ elim (Bool-cases (has_text strip p.receipt)) [
      | inr unproved ↦ absurd (ground arith)
      | inl proved ↦
          (let same : t.receipt ≡ stripped strip p.receipt = ground arith in
            (
              ground arith,
              named,
              λ e. absurd (ground arith),
              λ e. ap (has_text strip) same ∙ has_text-stripped p.receipt ∙ proved,
            ))
    ]
  ]

  -- A close is accepted only with an actor, by a person only with a reason, and autonomously only
  -- with a receipt, which the record keeps; its kind is the one that was claimed.
  -- Stripping twice is stripping once.
  pub validate_lem :
      (p : Proposal) (t : Transition)
      → validate strip p ≡ ok t
      → (p.kind ≡ some t.kind)
        × (has_text strip p.actor ≡ true)
        × (t.kind ≡ human_override → has_text strip t.reason ≡ true)
        × (t.kind ≡ autonomous_verified → has_text strip t.receipt ≡ true)
  unfolding validate
  validate_lem p t h = elim (Option-cases p.kind) [
    | inl unknown ↦ absurd (ground arith)
    | inr (kind, known) ↦
        (let v = validate_kind-parts kind p t (ground arith) in
          (known ∙ ap some (sym v.0), v.1, λ e. v.2 (sym v.0 ∙ e), λ e. v.3 (sym v.0 ∙ e)))
  ]

  label_of-kind :
      (t : Transition)
      → (t.kind ≡ autonomous_verified → has_text strip t.receipt ≡ true)
      → label_of strip (some t)
        ≡ (if is_autonomous_kind t.kind then autonomous_label else human_label)
  unfolding label_of is_autonomous is_human_override
  label_of-kind t r = go t.kind t.receipt r
    where
      go :
          (k : Kind) (receipt : Option String)
          → (k ≡ autonomous_verified → has_text strip receipt ≡ true)
          → (if is_autonomous_kind k && has_text strip receipt
              then autonomous_label
              else if not (is_autonomous_kind k)
              then human_label
              else unrecorded_label)
            ≡ (if is_autonomous_kind k then autonomous_label else human_label)
      go autonomous_verified receipt r = rw (r refl)
      go human_override receipt r = refl

  read-insert :
      (records : Records strip) (hid other : String) (t : Transition)
      → read strip (insert hid (some t) records) other
        ≡ (if text_key.same other hid then some t else read strip records other)
  unfolding read
  read-insert records hid other t = ground (arith, lookup-insert hid other (some t) records)

  label_of-none : label_of strip none ≡ unrecorded_label
  unfolding label_of is_autonomous is_human_override
  label_of-none = refl

  same_refl : (s : String) → text_key.same s s ≡ true
  same_refl s = ground (arith, text_key.same_iff s s)

  same_distinct : (s r : String) → s ≢ r → text_key.same s r ≡ false
  same_distinct s r ne = ground (arith, text_key.same_iff s r)

  -- What is read back of a close that was written is labelled autonomous exactly if it was claimed
  -- so, with a receipt, and else as a person's; no other handoff's record changes, and one without a
  -- record is labelled neither.
  -- Stripping twice is stripping once.
  pub write_lem :
      (records records' : Records strip) (hid other : String) (p : Proposal)
      → write strip records hid p ≡ ok records'
      → ((summary strip records' hid).label
          ≡ (if is_claimed p.kind then autonomous_label else human_label))
        × (other ≢ hid → read strip records' other ≡ read strip records other)
        × (read strip records other ≡ none → (summary strip records other).label ≡ unrecorded_label)
  unfolding write summary
  write_lem records records' hid other p h =
      let (t, valid, same) = >>=-eq_ok (validate strip p) _ h in
      let e : insert hid (some t) records ≡ records' = ground arith in
      let v = validate_lem p t valid in
      let here : read strip (insert hid (some t) records) hid ≡ some t =
        read-insert records hid hid t ∙ rw (same_refl hid) in
      (
        subst (λ rs. label_of strip (read strip rs hid) ≡ claimed_label) e
            (ap (label_of strip) here
              ∙ label_of-kind t v.3
              ∙ ap (λ k. if is_claimed k then autonomous_label else human_label) (sym v.0)),
        λ ne.
            subst (λ rs. read strip rs other ≡ read strip records other) e
              (read-insert records hid other t ∙ rw (same_distinct other hid ne)),
        λ none_read. ap (label_of strip) none_read ∙ label_of-none,
      )
    where
      claimed_label : Label
      claimed_label = if is_claimed p.kind then autonomous_label else human_label
