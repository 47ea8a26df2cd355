-- ===== src/MarketData/Order.antt =====
-- The order of precedence is a stable sort.
use ibkr_auto_trader.Prelude.{
  ℕ, ◌∙◌, ◌≡◌, ◌≤◌, refl, false, List, [], ◌∷◌, arith, leb, All, keep_if, ◌==◌, text_key,
  Bool-cases, inl, inr,
}
use ibkr_auto_trader.MarketData.{QuoteField, rank, place, order_by_precedence}

abbrev pub IsRanked : List QuoteField → Type 0
IsRanked [] = Unit
IsRanked (f ∷ fs) = All (λ g. rank f ≤ rank g) fs × IsRanked fs

-- `place` neither loses nor invents a field.
pub All-place :
    (P : QuoteField → Type 0) (f : QuoteField) (gs : List QuoteField)
    → P f
    → All P gs
    → All P (place f gs)
unfolding place
All-place P f [] p a = (p, tt)
All-place P f (g ∷ gs) p a = elim (Bool-cases (leb (rank f) (rank g))) [
  | inl first ↦ rw first (p, a)
  | inr later ↦ rw later (a.0, All-place P f gs p a.1)
]

All-le :
    (m n : ℕ) (gs : List QuoteField) → m ≤ n → All (λ g. n ≤ rank g) gs → All (λ g. m ≤ rank g) gs
All-le m n [] h a = tt
All-le m n (g ∷ gs) h a = (omega arith, All-le m n gs h a.1)

place-IsRanked : (f : QuoteField) (gs : List QuoteField) → IsRanked gs → IsRanked (place f gs)
unfolding place
place-IsRanked f [] r = (tt, tt)
place-IsRanked f (g ∷ gs) r = elim (Bool-cases (leb (rank f) (rank g))) [
  | inl first ↦
      rw first
        (let h : rank f ≤ rank g = ground arith in ((h, All-le (rank f) (rank g) gs h r.0), r))
  | inr later ↦
      rw later (All-place (λ x. rank g ≤ rank x) f gs (ground arith) r.0, place-IsRanked f gs r.1)
]

order-IsRanked : (fs : List QuoteField) → IsRanked (order_by_precedence fs)
unfolding order_by_precedence
order-IsRanked [] = tt
order-IsRanked (f ∷ fs) = place-IsRanked f (order_by_precedence fs) (order-IsRanked fs)

abbrev pub of_rank : ℕ → List QuoteField → List QuoteField
of_rank n = keep_if (λ f. rank f == n)

place-later :
    (f g : QuoteField) (gs : List QuoteField)
    → leb (rank f) (rank g) ≡ false
    → place f (g ∷ gs) ≡ g ∷ place f gs
unfolding place
place-later f g gs h = rw h

of_rank-place :
    (n : ℕ) (f : QuoteField) (gs : List QuoteField) → of_rank n (place f gs) ≡ of_rank n (f ∷ gs)
of_rank-place n f [] = unfold place in refl
of_rank-place n f (g ∷ gs) = elim (Bool-cases (leb (rank f) (rank g))) [
  | inl first ↦ unfold place in rw first
  | inr later ↦ rw (place-later f g gs later) (ground (arith, of_rank-place n f gs))
]

of_rank-order : (n : ℕ) (fs : List QuoteField) → of_rank n (order_by_precedence fs) ≡ of_rank n fs
unfolding order_by_precedence
of_rank-order n [] = refl
of_rank-order n (f ∷ fs) =
    of_rank-place n f (order_by_precedence fs) ∙ ground (arith, of_rank-order n fs)

-- The fields come out by ascending rank, and those of each rank are the given ones of that rank in
-- the order in which they were given: a stable sort.
pub order_by_precedence_lem :
    (fs : List QuoteField)
    → IsRanked (order_by_precedence fs)
      × ((n : ℕ) → of_rank n (order_by_precedence fs) ≡ of_rank n fs)
order_by_precedence_lem fs = (order-IsRanked fs, λ n. of_rank-order n fs)

pub All-order :
    (P : QuoteField → Type 0) (fs : List QuoteField) → All P fs → All P (order_by_precedence fs)
unfolding order_by_precedence
All-order P [] a = tt
All-order P (f ∷ fs) a = All-place P f (order_by_precedence fs) a.0 (All-order P fs a.1)

All-unplace :
    (P : QuoteField → Type 0) (f : QuoteField) (gs : List QuoteField)
    → All P (place f gs)
    → P f × All P gs
unfolding place
All-unplace P f [] a = (a.0, tt)
All-unplace P f (g ∷ gs) a = elim (Bool-cases (leb (rank f) (rank g))) [
  | inl first ↦ let b : P f × All P (g ∷ gs) = rw first at a in b
  | inr later ↦
      (let b : P g × All P (place f gs) = rw later at a in
        let (p, rest) = All-unplace P f gs b.1 in (p, (b.0, rest)))
]

-- What holds of every field in the order holds of every field given.
pub All-unorder :
    (P : QuoteField → Type 0) (fs : List QuoteField) → All P (order_by_precedence fs) → All P fs
unfolding order_by_precedence
All-unorder P [] a = tt
All-unorder P (f ∷ fs) a =
    let (p, rest) = All-unplace P f (order_by_precedence fs) a in (p, All-unorder P fs rest)
