-- ===== src/RunEvidence/Identity.antt =====
-- Records and their identities over a sequence of appends: collab/tools/lib/run_evidence.py.
use mathlib.Core.Path.{subst}
use mathlib.Core.List.{append-nil, append_assoc}
use ibkr_auto_trader.Prelude.{
  ◌≡◌, ◌≢◌, refl, sym, ap, ◌∙◌, true, false, ◌||◌, none, some, List, [], ◌∷◌, ◌++◌, if◌then◌else◌,
  text_key, arith, map, Bool-cases, Option-cases, inl, inr,
}
use ibkr_auto_trader.Prelude.Result.{Result, ok, err}
use ibkr_auto_trader.RunEvidence.{
  Recorded, Line, entry, EvidenceError, identity_collision, Appended, appended, duplicate, records,
  is_same_identity, prior_of, append_after, append,
}

module _ {E : Type 0} ⦃r : Recorded E⦄ where
  abbrev pub written : List E → List (Line E)
  written es = map (λ e. entry e) es

  records-written : (es : List E) → records (written es) ≡ ok es
  unfolding records
  records-written [] = refl
  records-written (e ∷ es) = rw (records-written es) refl

  written-++ : (es : List E) (e : E) → written (es ++ e ∷ []) ≡ written es ++ entry e ∷ []
  written-++ [] e = refl
  written-++ (x ∷ es) e = ap (λ l. entry x ∷ l) (written-++ es e)

  -- What an event needs in order to be kept.
  abbrev pub IsNamed : E → Type 0
  IsNamed e =
      (text_key.same (r.identity e) "" ≡ false) × (text_key.same (r.record_type e) "" ≡ false)

  append-written :
      (e : E) (es : List E)
      → IsNamed e
      → append e (written es) ≡ append_after e (written es) (prior_of e es)
  unfolding append
  append-written e es (i, t) = rw (i, t, records-written es) refl

  prior_of-++ :
      (e x : E) (es : List E)
      → prior_of e es ≡ none
      → prior_of e (es ++ x ∷ []) ≡ (if is_same_identity e x then some x else none)
  unfolding prior_of
  prior_of-++ e x [] h = refl
  prior_of-++ e x (y ∷ es) h = ground (arith, prior_of-++ e x es)

  same_identity_refl : (e : E) → is_same_identity e e ≡ true
  same_identity_refl e = ground (
    arith,
    text_key.same_iff (r.record_type e) (r.record_type e),
    text_key.same_iff (r.identity e) (r.identity e),
  )

  prior_of-again : (e : E) (es : List E) → prior_of e es ≡ none → prior_of e (es ++ e ∷ []) ≡ some e
  prior_of-again e es h = prior_of-++ e e es h ∙ (rw (same_identity_refl e) refl)

  -- No record has the type and the identity of an earlier one.
  abbrev pub AreIdentified : List E → List E → Type 0
  AreIdentified before [] = Unit
  AreIdentified before (e ∷ es) = (prior_of e before ≡ none) × AreIdentified (before ++ e ∷ []) es

  -- An event that is appended to a file of records is kept exactly once: appending it either leaves the
  -- file with it at the end, or finds it there already, and in both cases appending it again changes
  -- nothing; it is refused exactly if another record has its type and identity, and nothing is written.
  append_lem :
      (e : E) (es : List E)
      → IsNamed e
      → (prior_of e es ≡ none
          → (append e (written es) ≡ ok (written (es ++ e ∷ []), appended))
            × (append e (written (es ++ e ∷ [])) ≡ ok (written (es ++ e ∷ []), duplicate)))
        × ((p : E)
            → prior_of e es ≡ some p
            → (p ≡ e → append e (written es) ≡ ok (written es, duplicate))
              × (p ≢ e → append e (written es) ≡ err (identity_collision (r.identity e))))
  append_lem e es n =
      let same = r.same_record_iff in
      let once = append-written e es n in
      let twice = append-written e (es ++ e ∷ []) n in
      (
        λ h. (
          once
              ∙ ap (append_after e (written es)) h
              ∙ ap (λ l. ok (l, appended)) (sym (written-++ es e)),
          twice
              ∙ ap (append_after e (written (es ++ e ∷ []))) (prior_of-again e es h)
              ∙ (rw ((same e e).1 refl) refl),
        ),
        λ p h. (
          λ q. once ∙ ap (append_after e (written es)) h ∙ (rw ((same p e).1 q) refl),
          λ q.
              once
              ∙ ap (append_after e (written es)) h
              ∙ (let d : r.same_record p e ≡ false = ground (arith, same p e) in rw d refl),
        ),
      )

  AreIdentified-++ :
      (before es : List E) (e : E)
      → AreIdentified before es
      → prior_of e (before ++ es) ≡ none
      → AreIdentified before (es ++ e ∷ [])
  AreIdentified-++ before [] e a h = (ap (prior_of e) (sym (append-nil before)) ∙ h, tt)
  AreIdentified-++ before (x ∷ es) e a h = (
    a.0,
    AreIdentified-++ (before ++ x ∷ []) es e a.1
        (ap (prior_of e) (append_assoc before (x ∷ []) es) ∙ h),
  )

  same_lines :
      {l l' : List (Line E)} {o o' : Appended}
      → Path (Result EvidenceError (List (Line E) × Appended)) (ok (l, o)) (ok (l', o'))
      → l ≡ l'
  same_lines h = ground arith

  append-IsNamed :
      (e : E) (ls : List (Line E)) (x : List (Line E) × Appended) → append e ls ≡ ok x → IsNamed e
  unfolding append
  append-IsNamed e ls x h =
      elim (Bool-cases (text_key.same (r.identity e) "" || text_key.same (r.record_type e) "")) [
        | inl b ↦ absurd (ground arith)
        | inr b ↦ (ground arith, ground arith)
      ]

  -- Whatever is appended, the file's records keep types and identities of their own, and those that
  -- were there stay as they were: an append that goes through leaves the file, or has added to its end.
  pub append-AreIdentified :
      (e : E) (es : List E) (ls : List (Line E)) (a : Appended)
      → AreIdentified [] es
      → append e (written es) ≡ ok (ls, a)
      → (more : List E) × (ls ≡ written (es ++ more)) × AreIdentified [] (es ++ more)
  append-AreIdentified e es ls a u h =
      let named = append-IsNamed e (written es) (ls, a) h in
      let g = sym (append-written e es named) ∙ h in
      elim (Option-cases (prior_of e es)) [
        | inl n ↦ (
          e ∷ [],
          sym (same_lines (sym (ap (append_after e (written es)) n) ∙ g)) ∙ sym (written-++ es e),
          AreIdentified-++ [] es e u n,
        )
        | inr (p, n) ↦ elim (Bool-cases (r.same_record p e)) [
          | inl s ↦ (
            [],
            (let k : append_after e (written es) (some p) ≡ ok (written es, duplicate) =
                  rw s refl in
                sym (same_lines (sym k ∙ sym (ap (append_after e (written es)) n) ∙ g))
                ∙ ap written (sym (append-nil es))),
            subst (AreIdentified []) (sym (append-nil es)) u,
          )
          | inr s ↦
              (let k : append_after e (written es) (some p)
                    ≡ err (identity_collision (r.identity e)) =
                  rw s refl in
                let z = sym k ∙ sym (ap (append_after e (written es)) n) ∙ g in
                absurd (ground arith))
        ]
      ]
