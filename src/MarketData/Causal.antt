-- ===== src/MarketData/Causal.antt =====
-- The causal gate: no look-ahead, the best causal field, and the rest withheld.
use mathlib.Core.Path.{subst}
use mathlib.Core.List.{append-nil, append_assoc}
use ibkr_auto_trader.Prelude.{
  ℕ, ◌≡◌, ◌≤◌, not, none, some, List, [], ◌∷◌, ◌++◌, ◌∙◌, sym, arith, All, keep_if, find_first,
  text_key, Bool-cases, inl, inr,
}
use ibkr_auto_trader.Prelude.Int.{◌≤ℤ◌, leb_ℤ}
use ibkr_auto_trader.Domain.{Datetime, as_utc, utc_wall, not_later, utc_wall-as_utc}
use ibkr_auto_trader.MarketData.{
  QuoteField, rank, order_by_precedence, CausalSelection, is_causal, visit, scan, select_causal,
}
use ibkr_auto_trader.MarketData.Order.{IsRanked, order_by_precedence_lem, All-unorder}

-- The loop in one line for each of its variables.
scan-chosen :
    (seal : Datetime) (fs : List QuoteField) (acc : CausalSelection)
    → (scan seal fs acc).chosen
      ≡ elim acc.chosen [ some f ↦ some f | none ↦ find_first (is_causal seal) fs ]
unfolding scan
scan-chosen seal [] acc = ground arith
scan-chosen seal (f ∷ fs) acc =
    scan-chosen seal fs (visit seal f acc) ∙ unfold visit in ground arith

scan-withheld :
    (seal : Datetime) (fs : List QuoteField) (acc : CausalSelection)
    → (scan seal fs acc).withheld ≡ acc.withheld ++ keep_if (λ f. not (is_causal seal f)) fs
unfolding scan
scan-withheld seal [] acc = sym (append-nil acc.withheld)
scan-withheld seal (f ∷ fs) acc =
    scan-withheld seal fs (visit seal f acc)
    ∙ unfold visit in
      elim (Bool-cases (is_causal seal f)) [
        | inl causal ↦ rw causal
        | inr late ↦
            rw late (append_assoc acc.withheld (f ∷ []) (keep_if (λ g. not (is_causal seal g)) fs))
      ]

-- The availability of a field lies at or before an instant.
abbrev pub IsCausal : Datetime → QuoteField → Type 0
IsCausal at f = utc_wall f.available_at ≤ℤ utc_wall at

is_causal-IsCausal :
    (at : Datetime) (f : QuoteField)
    → is_causal (as_utc at) f ≡ leb_ℤ (utc_wall f.available_at) (utc_wall at)
unfolding is_causal not_later
is_causal-IsCausal at f = rw (utc_wall-as_utc f.available_at, utc_wall-as_utc at)

All-weaken :
    (at : Datetime) (n : ℕ) (gs : List QuoteField)
    → All (λ g. n ≤ rank g) gs
    → All (λ g. IsCausal at g → n ≤ rank g) gs
All-weaken at n [] a = tt
All-weaken at n (g ∷ gs) a = (λ c. a.0, All-weaken at n gs a.1)

find_first-IsCausal :
    (at : Datetime) (f : QuoteField) (fs : List QuoteField)
    → find_first (is_causal (as_utc at)) fs ≡ some f
    → IsRanked fs
    → IsCausal at f × All (λ g. IsCausal at g → rank f ≤ rank g) fs
find_first-IsCausal at f [] h r = absurd (ground arith)
find_first-IsCausal at f (g ∷ gs) h r = elim (Bool-cases (is_causal (as_utc at) g)) [
  | inl causal ↦
      (let same : g ≡ f = ground arith in
        let fits : IsCausal at g = let e = is_causal-IsCausal at g in ground arith in
        subst (λ x. IsCausal at x × All (λ y. IsCausal at y → rank x ≤ rank y) (g ∷ gs)) same
          (fits, (λ c. omega arith, All-weaken at (rank g) gs r.0)))
  | inr late ↦
      (let (fits, best) = find_first-IsCausal at f gs (ground arith) r.1 in
        let e = is_causal-IsCausal at g in (fits, (λ c. absurd (ground arith), best)))
]

find_first-none :
    (at : Datetime) (fs : List QuoteField)
    → find_first (is_causal (as_utc at)) fs ≡ none
    → All (λ g. ¬ (IsCausal at g)) fs
find_first-none at [] h = tt
find_first-none at (g ∷ gs) h =
    let e = is_causal-IsCausal at g in (λ c. ground arith, find_first-none at gs (ground arith))

-- A field is chosen only if it was available by the decision, and none of the given fields that were
-- has a better basis; nothing is chosen only if no given field was available; and the withheld ones
-- are exactly the fields that were not, in order of precedence.
pub select_causal_lem :
    (fields : List QuoteField) (at : Datetime)
    → ((f : QuoteField)
        → (select_causal fields at).chosen ≡ some f
        → IsCausal at f × All (λ g. IsCausal at g → rank f ≤ rank g) fields)
      × ((select_causal fields at).chosen ≡ none → All (λ g. ¬ (IsCausal at g)) fields)
      × ((select_causal fields at).withheld
          ≡ keep_if (λ g. not (is_causal (as_utc at) g)) (order_by_precedence fields))
unfolding select_causal
select_causal_lem fields at =
    let ordered = order_by_precedence fields in
    let start : CausalSelection = record { chosen = none; withheld = [] } in
    let e = scan-chosen (as_utc at) ordered start in
    (
      λ f h.
          let (fits, best) =
            find_first-IsCausal at f ordered (sym e ∙ h) (order_by_precedence_lem fields).0 in
          (fits, All-unorder (λ g. IsCausal at g → rank f ≤ rank g) fields best),
      λ h. All-unorder (λ g. ¬ (IsCausal at g)) fields (find_first-none at ordered (sym e ∙ h)),
      scan-withheld (as_utc at) ordered start,
    )
