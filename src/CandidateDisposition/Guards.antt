-- ===== src/CandidateDisposition/Guards.antt =====
-- What a disposition that is recorded has behind it: collab/tools/lib/candidate_disposition.py.
use mathlib.Core.Path.{subst}
use ibkr_auto_trader.Prelude.{
  ◌≡◌, ◌≢◌, refl, sym, ap, Bool, true, false, ◌&&◌, ◌||◌, Option, none, some, String, List, [], ◌∷◌,
  not, text_key, All, arith,
}
use ibkr_auto_trader.Prelude.Result.{Result, ok, >>=-eq_ok}
use ibkr_auto_trader.CandidateDisposition.{
  Disposition, is_accepted, is_rejected, is_superseded, rejection_reasons, Proposal,
  DispositionEvent, DispositionError, truthy_text, normalized_reasons, all_typed, is_among, same_id,
  has_successor, known, guards_of, raise_first, check_disposition, disposition_event,
}

passed :
    (gs : List (Bool × DispositionError)) (u : Unit {0})
    → raise_first gs ≡ ok u
    → All (λ g. g.0 ≡ false) gs
passed [] u h = tt
passed ((true, x) ∷ gs) u h = absurd (ground arith)
passed ((false, x) ∷ gs) u h = (refl, passed gs u h)

true_of_not : (b : Bool) → not b ≡ false → b ≡ true
true_of_not b h = ground arith

true_of_guard : (a b : Bool) → (a && not b) ≡ false → a ≡ true → b ≡ true
true_of_guard a b h t = ground arith

both_of : (a b c : Bool) → (a && (not b || not c)) ≡ false → a ≡ true → (b ≡ true) × (c ≡ true)
both_of a b c h t = (ground arith, ground arith)

same_disposition :
    {d e : Disposition} → Path (Result DispositionError Disposition) (ok d) (ok e) → d ≡ e
same_disposition h = ground arith

same_event :
    {d e : DispositionEvent} → Path (Result DispositionError DispositionEvent) (ok d) (ok e) → d ≡ e
same_event h = ground arith

module _ (strip : String → String) (event_id_of : Proposal → String) where
  -- What stands behind a disposition.
  abbrev pub IsBacked : Proposal → Disposition → Type 0
  IsBacked p d =
      (p.disposition ≡ some d)
      × (is_accepted d ≡ true
          → (p.evaluation.is_eligible ≡ true)
            × (p.evaluation.oracle_passed ≡ true)
            × (truthy_text p.evaluation.oracle_validation_id ≡ true))
      × (is_rejected d ≡ true
          → (is_among p.primary_reason rejection_reasons ≡ true)
            × (is_among p.primary_reason (normalized_reasons p) ≡ true))
      × (is_superseded d ≡ true → has_successor strip event_id_of p.superseded_by ≡ true)
      × (p.superseded_by ≢ some p.candidate_id)
      × (all_typed (normalized_reasons p) ≡ true)
      × (text_key.same (strip p.decision_maker) "" ≡ false)

  known-eq_ok :
      (o : Option Disposition) (d : Disposition) → known strip event_id_of o ≡ ok d → o ≡ some d
  known-eq_ok none d h = absurd (ground arith)
  known-eq_ok (some e) d h = ground arith

  not_itself : (o : Option String) (i : String) → same_id o i ≡ false → o ≢ some i
  not_itself none i h e = absurd (ground arith)
  not_itself (some s) i h e =
      let q : s ≡ i = ground arith in let z = (text_key.same_iff s i).1 q in absurd (ground arith)

  check_disposition-IsBacked :
      (p : Proposal) (d : Disposition) → check_disposition strip event_id_of p ≡ ok d → IsBacked p d
  unfolding check_disposition
  check_disposition-IsBacked p d h =
      let (e, he, h1) = >>=-eq_ok (known strip event_id_of p.disposition) _ h in
      let (u, hu, h9) = >>=-eq_ok (raise_first (guards_of strip event_id_of p e)) _ h1 in
      let (g1, (g2, (g3, (g4, (g5, (g6, (g7, (g8, g9)))))))) =
        passed (guards_of strip event_id_of p e) u hu in
      (subst (IsBacked p) (same_disposition h9) (
        known-eq_ok p.disposition e he,
        λ a.
            (let (o, i) =
                both_of (is_accepted e) p.evaluation.oracle_passed
                  (truthy_text p.evaluation.oracle_validation_id) g3 a in
              (true_of_guard (is_accepted e) p.evaluation.is_eligible g2 a, o, i)),
        λ a.
            both_of (is_rejected e) (is_among p.primary_reason rejection_reasons)
              (is_among p.primary_reason (normalized_reasons p)) g5 a,
        λ a. true_of_guard (is_superseded e) (has_successor strip event_id_of p.superseded_by) g6 a,
        not_itself p.superseded_by p.candidate_id g7,
        true_of_not (all_typed (normalized_reasons p)) g4,
        g8,
      ))

  -- A disposition is recorded only as it was proposed, and accepted only of a candidate that is eligible
  -- and has passed a named oracle; rejected only for a primary reason of the vocabulary that is among
  -- its reasons; superseded only by a named successor, and never by itself; and always with a decision
  -- maker, and with reasons of the vocabulary alone, which it keeps.
  pub disposition_event-IsBacked :
      (p : Proposal) (e : DispositionEvent)
      → disposition_event strip event_id_of p ≡ ok e
      → IsBacked p e.disposition × (e.reasons ≡ normalized_reasons p) × (e.event_id ≡ event_id_of p)
  unfolding disposition_event
  disposition_event-IsBacked p e h =
      let (d, hd, h1) = >>=-eq_ok (check_disposition strip event_id_of p) _ h in
      let q = same_event h1 in
      (
        subst (IsBacked p) (ap (λ x. x.disposition) q) (check_disposition-IsBacked p d hd),
        sym (ap (λ x. x.reasons) q),
        sym (ap (λ x. x.event_id) q),
      )
