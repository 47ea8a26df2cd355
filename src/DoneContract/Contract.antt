-- ===== src/DoneContract/Contract.antt =====
-- The consequences of a satisfied contract: collab/tools/lib/done_contract.py.
use ibkr_auto_trader.Prelude.{
  ◌≡◌, ◌≢◌, ◌⊎◌, inl, inr, refl, sym, ap, ◌∙◌, Bool, true, false, ◌&&◌, ◌||◌, Option, none, some,
  String, List, [], ◌∷◌, text_key, any, arith, All, Bool-cases,
}
use ibkr_auto_trader.Prelude.Sort.{sort, place}
use ibkr_auto_trader.Handoff.{State, pending, claimed, done, archive}
use ibkr_auto_trader.Verification.{Checkout, is_green, matches_checkout, same_list}
use ibkr_auto_trader.Verification.Green.{same_list-eq, same_option-eq}
use ibkr_auto_trader.DoneContract.{
  RequirementResult, Conformance, Ledger, Condition, all_pass, is_empty, all_of, has_member,
  text_le, distinct, result_ids, conformance_ok, preflight_ok, is_independent, is_open, evaluate,
  is_bound,
}

both : (a b : Bool) → (a && b) ≡ true → (a ≡ true) × (b ≡ true)
both a b h = (ground arith, ground arith)

passing : (cs : List Condition) → all_pass cs ≡ true → All (λ c. c.passes ≡ true) cs
passing [] h = tt
passing (c ∷ cs) h =
    ((both c.passes (all_pass cs) h).0, passing cs (both c.passes (all_pass cs) h).1)

All-all_of :
    {A : Type 0} (p : A → Bool) (xs : List A) → all_of p xs ≡ true → All (λ x. p x ≡ true) xs
All-all_of p [] h = tt
All-all_of p (x ∷ xs) h = (ground arith, All-all_of p xs (ground arith))

has_member-place :
    (s x : String) (ys : List String)
    → has_member (place text_le x ys) s ≡ (text_key.same s x || has_member ys s)
unfolding place
has_member-place s x [] = refl
has_member-place s x (y ∷ ys) = elim (Bool-cases (text_le x y)) [
  | inl first ↦ rw first refl
  | inr later ↦
      rw (later, has_member-place s x ys)
        (swapped (text_key.same s y) (text_key.same s x) (has_member ys s))
]
  where
    swapped : (a b c : Bool) → (a || (b || c)) ≡ (b || (a || c))
    swapped a b c = ground arith

has_member-sort : (s : String) (xs : List String) → has_member (sort text_le xs) s ≡ has_member xs s
unfolding sort
has_member-sort s [] = refl
has_member-sort s (x ∷ xs) =
    has_member-place s x (sort text_le xs) ∙ ap (λ b. text_key.same s x || b) (has_member-sort s xs)

member_or :
    (s x : String) (xs : List String)
    → has_member xs x ≡ true
    → text_key.same s x ≡ true
    → has_member xs s ≡ true
member_or s x xs h e = ap (has_member xs) ((text_key.same_iff s x).0 e) ∙ h

has_member-distinct : (s : String) (xs : List String) → has_member (distinct xs) s ≡ has_member xs s
has_member-distinct s [] = refl
has_member-distinct s (x ∷ xs) =
    let ih = has_member-distinct s xs in
    elim (Bool-cases (has_member (distinct xs) x)) [
      | inl old ↦ ground (arith, member_or s x (distinct xs) old)
      | inr new ↦ rw (new, ih) refl
    ]

members_self :
    (ys xs : List String)
    → ((s : String) → has_member xs s ≡ true → has_member ys s ≡ true)
    → All (λ s. has_member ys s ≡ true) xs
members_self ys [] h = tt
members_self ys (x ∷ xs) h =
    (h x (ground (arith, text_key.same_iff x x)), members_self ys xs (λ s m. h s (ground arith)))

-- Every declared requirement has a result.
covered :
    (rs : List RequirementResult) (ids : List String)
    → same_list (sort text_le (distinct (result_ids rs))) (sort text_le ids) ≡ true
    → All (λ s. has_member (result_ids rs) s ≡ true) ids
covered rs ids h =
    let e = same_list-eq (sort text_le (distinct (result_ids rs))) (sort text_le ids) h in
    members_self (result_ids rs) ids (λ s m.
      sym (has_member-distinct s (result_ids rs))
      ∙ sym (has_member-sort s (distinct (result_ids rs)))
      ∙ ap (λ xs. has_member xs s) e
      ∙ has_member-sort s ids
      ∙ m)

-- A requirement that a result says is met.
abbrev pub IsMet : List RequirementResult → String → Type 0
IsMet rs s = any (λ r. text_key.same s r.id && r.is_met) rs ≡ true

met :
    (rs : List RequirementResult) (s : String)
    → all_of (λ r. r.is_met) rs ≡ true
    → has_member (result_ids rs) s ≡ true
    → IsMet rs s
met [] s a h = h
met (r ∷ rs) s a h = elim (Bool-cases (text_key.same s r.id)) [
  | inl e ↦ ground arith
  | inr e ↦ (let ih = met rs s (ground arith) (ground arith) in ground arith)
]

All-map :
    {P Q : String → Type 0} (ss : List String) → ((s : String) → P s → Q s) → All P ss → All Q ss
All-map [] f a = tt
All-map (s ∷ ss) f a = (f s a.0, All-map ss f a.1)

-- What conformance evidence says: of this candidate, something is required, and all of it is met.
abbrev pub Conforms : Option String → Option Conformance → Type 0
Conforms candidate evidence =
    (c : Conformance) × (evidence ≡ some c)
    × ((i : String) → candidate ≡ some i → c.candidate_id ≡ some i)
    × (is_empty c.requirement_ids ≡ false)
    × All (IsMet c.results) c.requirement_ids

bound :
    (candidate evidence : Option String)
    → is_bound candidate evidence ≡ true
    → (i : String) → candidate ≡ some i
    → evidence ≡ some i
bound none evidence h i e = absurd (ground arith)
bound (some j) evidence h i e = same_option-eq evidence (some j) h ∙ e

conformance_ok-Conforms :
    (candidate : Option String) (evidence : Option Conformance)
    → conformance_ok candidate evidence ≡ true
    → Conforms candidate evidence
unfolding conformance_ok
conformance_ok-Conforms candidate none h = absurd (ground arith)
conformance_ok-Conforms candidate (some c) h =
    let m = covered c.results c.requirement_ids (ground arith) in
    (
      c,
      refl,
      bound candidate c.candidate_id (ground arith),
      ground arith,
      All-map c.requirement_ids (λ s. met c.results s (ground arith)) m,
    )

-- Two names, neither of them empty, that are not the same.
abbrev pub AreIndependent : String → String → Type 0
AreIndependent a b = (a ≢ "") × (b ≢ "") × (a ≢ b)

differ : (a b : String) → text_key.same a b ≡ false → a ≢ b
differ a b h e = let s = (text_key.same_iff a b).1 e in ground arith

apart :
    (a b : String)
    → text_key.same a "" ≡ false
    → text_key.same b "" ≡ false
    → text_key.same a b ≡ false
    → AreIndependent a b
apart a b p q r = (differ a "" p, differ b "" q, differ a b r)

module _ (fold clean : String → String) (resolve : String → Option String) where
  independent :
      (reviewer builder : String) (l : Ledger)
      → is_independent fold clean resolve reviewer builder l ≡ true
      → AreIndependent (fold reviewer) (fold builder)
        × AreIndependent (fold l.reviewer_seat) (fold l.builder_seat)
  unfolding is_independent
  independent reviewer builder l h = (
    apart (fold reviewer) (fold builder) (ground arith) (ground arith) (ground arith),
    apart (fold l.reviewer_seat) (fold l.builder_seat) (ground arith) (ground arith) (ground arith),
  )

  open_of :
      (state : Option State)
      → is_open fold clean resolve state ≡ true
      → (state ≡ some pending) ⊎ (state ≡ some claimed)
  open_of none h = absurd (ground arith)
  open_of (some pending) h = inl refl
  open_of (some claimed) h = inr refl
  open_of (some done) h = absurd (ground arith)
  open_of (some archive) h = absurd (ground arith)

  -- A contract is satisfied only with a ledger, whose blockers are all fixed and have a regression
  -- test, whose required passes all ran, and whose receipt is green and of the checkout at hand;
  -- the reviewer and the builder are named and are not the same, as are those that the ledger
  -- names, and the reviewer's preflight holds; the handoff is still open; and every requirement
  -- that was declared, at least one, has a result that is met, for this candidate if there is one.
  pub evaluate-Conforms :
      (reviewer builder : String) (candidate : Option String) (state : Option State)
      (now : Checkout) (ledger : Option Ledger)
      → (evaluate fold clean resolve reviewer builder candidate state now ledger).satisfied ≡ true
      → (l : Ledger) × (ledger ≡ some l)
        × All (λ b. b.fixed ≡ true) l.blockers
        × All (λ b. b.has_regression_test ≡ true) l.blockers
        × All (λ p. has_member l.ran_passes p ≡ true) l.required_passes
        × (is_green clean resolve (some l.tests) ≡ true)
        × (matches_checkout clean resolve (some l.tests) now ≡ true)
        × AreIndependent (fold reviewer) (fold builder)
        × AreIndependent (fold l.reviewer_seat) (fold l.builder_seat)
        × (preflight_ok fold clean resolve reviewer l.preflight ≡ true)
        × ((state ≡ some pending) ⊎ (state ≡ some claimed))
        × Conforms candidate l.conformance
  unfolding evaluate
  evaluate-Conforms reviewer builder candidate state now none h = absurd (ground arith)
  evaluate-Conforms reviewer builder candidate state now (some l) h =
      let a =
        passing
          (evaluate fold clean resolve reviewer builder candidate state now (some l)).conditions
          h in
      let (c1, (c2, (c3, (c4, (c5, (c6, (c7, (c8, (c9, (c10, (c11, (c12, c13)))))))))))) = a in
      let (passes, complete) = both _ _ c3 in
      let (tests, matches) = both _ _ c5 in
      let (regressions, green) = both _ _ tests in
      (
        l,
        refl,
        All-all_of (λ b. b.fixed) l.blockers c4,
        All-all_of (λ b. b.has_regression_test) l.blockers regressions,
        All-all_of (has_member l.ran_passes) l.required_passes (both _ _ passes).1,
        green,
        matches,
        (independent reviewer builder l c2).0,
        (independent reviewer builder l c2).1,
        c11,
        open_of state c10,
        conformance_ok-Conforms candidate l.conformance c12,
      )
