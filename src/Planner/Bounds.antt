-- ===== src/Planner/Bounds.antt =====
-- The bounds on a planned quantity: what was asked for, whole lots, and the loss that the policy
-- allows for one trade.
use native.Mathlib.Nat.{le-div_iff_mul-le, pow-le-pow_right, div-add-mod, mul-mod_right}
use ibkr_auto_trader.Prelude.{
  ℕ, suc, ◌-◌, ◌*◌, ◌/◌, ◌%◌, ◌^◌, ◌≤◌, ◌<◌, ◌≡◌, ◌≢◌, inl, inr, true, false, ◌||◌, Option, none,
  some, not, ltb, min, arith, ◌==◌, if◌then◌else◌, Bool-cases, Option-cases,
}
use ibkr_auto_trader.Prelude.Int.{ℤ, leb_ℤ, pos, negsuc, pos_part, neg_part, ◌-ℤ◌, int_laws}
use ibkr_auto_trader.Prelude.Result.{ok, Result-cases}
use ibkr_auto_trader.Decimal.{Decimal, decimal_of, is_positive, dec_le, signed, low_exp, dec_div}
use ibkr_auto_trader.Config.{RiskPolicy}
use ibkr_auto_trader.Planner.{
  Field, Raw, LotSize, Inputs, decimal_field, whole, read_lot, round_lot, Sized, unit_loss,
  maximum_loss, reduce, size_by_risk, size_order,
}

-- Whole lots, at most the given quantity.
sub_mod-mod : (n m : ℕ) → (n - n % m) % m ≡ 0
sub_mod-mod n m =
    let e : n - n % m ≡ m * (n / m) = omega (arith, div-add-mod n m) in
    rw e (mul-mod_right m (n / m))

read_lot_pos : (l : Field LotSize) (lot : ℕ) → read_lot l ≡ ok lot → 0 < lot
unfolding read_lot
read_lot_pos l lot h = ground arith

pub round_lot-bounds :
    (n : ℕ) (l : Field LotSize) (q : ℕ)
    → round_lot n l ≡ ok q
    → (q ≤ n) × (lot : ℕ) × (read_lot l ≡ ok lot) × (0 < lot) × (q % lot ≡ 0)
round_lot-bounds n l q h = elim (Result-cases (read_lot l)) [
  | inl (lot, e) ↦
      (let same : n - n % lot ≡ q = unfold round_lot in ground arith in
        (ground arith, lot, e, read_lot_pos l lot e, rw (← same) (sub_mod-mod n lot)))
  | inr (e, raised) ↦ absurd (unfold round_lot in ground arith)
]

-- A whole number of at most the part before the point is at most the value.
le_of_whole_part :
    (q coef : ℕ) (exp : ℤ)
    → q ≤ coef * 10 ^ pos_part exp / 10 ^ neg_part exp
    → dec_le (decimal_of (pos q)) (record { negative = false; coef = coef; exp = exp }) ≡ true
unfolding dec_le low_exp signed
le_of_whole_part q coef (pos n) h =
    let first : leb_ℤ (pos 0) (pos n) ≡ true = ground arith in
    let none_off : pos 0 -ℤ pos 0 ≡ pos 0 = omega int_laws in
    let rest : pos n -ℤ pos 0 ≡ pos n = omega int_laws in rw (first, none_off, rest) (ground arith)
le_of_whole_part q coef (negsuc n) h =
    let second : leb_ℤ (pos 0) (negsuc n) ≡ false = ground arith in
    let up : pos 0 -ℤ negsuc n ≡ pos (suc n) = omega int_laws in
    let same : negsuc n -ℤ negsuc n ≡ pos 0 = omega int_laws in
    let p : 0 < 10 ^ suc n = pow-le-pow_right {n = 10} (omega arith) {i = 0} (omega arith) in
    let bound : q * 10 ^ suc n ≤ coef * 1 = (le-div_iff_mul-le p).0 h in
    rw (second, up, same) (ground arith)

le_of_whole : (q : ℕ) (d : Decimal) → 0 < q → q ≤ whole d → dec_le (decimal_of (pos q)) d ≡ true
unfolding whole
le_of_whole q d p h =
    let sign : d.negative ≡ false = ground arith in
    rw sign (le_of_whole_part q d.coef d.exp (ground arith))

-- The quotient that caps an order with a stop, as `decimal` computes it.
abbrev pub risk_cap : RiskPolicy → Decimal → Decimal → Decimal → Decimal → Decimal
risk_cap policy nlv price stop m = dec_div (maximum_loss policy nlv) (unit_loss price stop m)

-- What a sized order with a stop satisfies, where any of it is left.
abbrev pub IsCapped : RiskPolicy → Inputs → Field Raw → Decimal → ℕ → Type 0
IsCapped policy i multiplier nlv q =
    (stop : Decimal)
    → i.stop ≡ some stop
    → (m : Decimal) × (decimal_field multiplier "multiplier" ≡ ok m)
      × (is_positive (unit_loss i.price stop m) ≡ true)
      × (dec_le (decimal_of (pos q)) (risk_cap policy nlv i.price stop m) ≡ true)

pub record IsSizedFor (policy : RiskPolicy) (i : Inputs) (lot_size : Field LotSize)
    (multiplier : Field Raw) (nlv : Decimal) (s : Sized) : Type 0 where
  pub within : s.quantity ≤ i.requested
  pub kept : s.reason ≡ none → s.quantity ≡ i.requested
  pub explained : s.quantity ≡ 0 → s.reason ≢ none
  pub has_stop : 0 < s.quantity → policy.stop_loss_required ≡ true → i.stop ≢ none
  pub capped : 0 < s.quantity → IsCapped policy i multiplier nlv s.quantity

reduce-bounds :
    (requested allowed : ℕ) (l : Field LotSize) (s : Sized)
    → reduce requested allowed l ≡ ok s
    → (s.quantity ≤ requested)
      × (s.quantity ≤ allowed)
      × (s.reason ≡ (if ltb s.quantity requested then some "reduced-to-max-risk" else none))
unfolding reduce
reduce-bounds requested allowed l s h = elim (Result-cases (round_lot (min requested allowed) l)) [
  | inl (q, e) ↦
      (let b = (round_lot-bounds (min requested allowed) l q e).0 in
        (ground arith, ground arith, ground arith))
  | inr (e, raised) ↦ absurd (ground arith)
]

size_by_risk-bounds :
    (policy : RiskPolicy) (requested : ℕ) (price stop : Decimal) (l : Field LotSize)
    (mult : Field Raw) (nlv : Decimal) (s : Sized)
    → 0 < requested
    → size_by_risk policy requested price stop l mult nlv ≡ ok s
    → (s.quantity ≤ requested)
      × (s.reason ≡ none → s.quantity ≡ requested)
      × (s.quantity ≡ 0 → s.reason ≢ none)
      × (0 < s.quantity
          → (m : Decimal) × (decimal_field mult "multiplier" ≡ ok m)
            × (is_positive (unit_loss price stop m) ≡ true)
            × (s.quantity ≤ whole (risk_cap policy nlv price stop m)))
unfolding size_by_risk
size_by_risk-bounds policy requested price stop l mult nlv s p h =
    elim (Result-cases (decimal_field mult "multiplier")) [
      | inr (e, raised) ↦ absurd (ground arith)
      | inl (m, read) ↦
          elim (Bool-cases
            (not (is_positive (unit_loss price stop m)) || not (is_positive price))) [
              | inl invalid ↦
                  (ground arith, ground arith, ground arith, λ some_left. absurd (ground arith))
              | inr valid ↦
                  (let r : reduce requested (whole (risk_cap policy nlv price stop m)) l ≡ ok s =
                      ground arith in
                    let (within, under, why) =
                      reduce-bounds requested (whole (risk_cap policy nlv price stop m)) l s r in
                    (
                      within,
                      ground arith,
                      ground arith,
                      λ some_left. (m, read, ground arith, under),
                    ))
            ]
    ]

stop-given : {A : Type 0} (o : Option A) {a : A} → o ≡ some a → o ≢ none
stop-given o e n = cc

-- Every sized order: at most what was asked for, with a reason wherever it is less, a stop wherever
-- the policy requires one, and at most the allowed loss divided by the loss of one unit.
pub size_order-IsSizedFor :
    (policy : RiskPolicy) (i : Inputs) (l : Field LotSize) (mult : Field Raw) (nlv : Decimal)
    (s : Sized)
    → size_order policy i l mult nlv ≡ ok s
    → IsSizedFor policy i l mult nlv s
unfolding size_order
size_order-IsSizedFor policy i l mult nlv s h = elim (Option-cases i.stop) [
  | inl no_stop ↦ record {
    within = ground arith;
    kept = λ e. ground arith;
    explained = λ e. ground arith;
    has_stop = λ p r. absurd (ground arith);
    capped = λ p stop e. absurd (ground arith);
  }
  | inr (stop, given) ↦ elim (Bool-cases (i.requested == 0)) [
    | inl nothing ↦ record {
      within = ground arith;
      kept = λ e. ground arith;
      explained = λ e. ground arith;
      has_stop = λ p r. absurd (ground arith);
      capped = λ p stop' e. absurd (ground arith);
    }
    | inr wanted ↦
        (let r : size_by_risk policy i.requested i.price stop l mult nlv ≡ ok s = ground arith in
          let (within, kept, explained, cap) =
            size_by_risk-bounds policy i.requested i.price stop l mult nlv s (ground arith) r in
          record {
            within = within;
            kept = kept;
            explained = explained;
            has_stop = λ p q. stop-given i.stop given;
            capped = λ p stop' e.
                let (m, read, unit, under) = cap p in
                let same : stop ≡ stop' = ground arith in
                rw (← same) (
                  m,
                  read,
                  unit,
                  le_of_whole s.quantity (risk_cap policy nlv i.price stop m) p under,
                );
          })
  ]
]
