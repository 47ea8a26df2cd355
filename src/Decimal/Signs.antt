-- ===== src/Decimal/Signs.antt =====
-- The signs of results: rounding keeps a sign and never turns a value into zero.
use native.Mathlib.Nat.{pow-suc, pow-le-pow_right, le-div_iff_mul-le, le_trans, mul-pos}
use ibkr_auto_trader.Prelude.{
  ℕ, zero, suc, ◌-◌, ◌*◌, ◌/◌, ◌^◌, ◌≤◌, ◌<◌, ◌≡◌, true, false, arith, ltb, Bool-cases, inl, inr,
}
use ibkr_auto_trader.Decimal.Rounding.{Decimal, digits_within, num_digits, cut, carried, round_to}
use ibkr_auto_trader.Decimal.{
  exact_product, raw_quotient-negative, default_prec, dec_abs, dec_mul, dec_div, max_zero,
  is_positive,
}

digits_pos : (fuel n : ℕ) → 0 < digits_within fuel n
unfolding digits_within
digits_pos zero n = omega arith
digits_pos (suc fuel) n = ground arith

pow10_step : (k : ℕ) → 0 < k → 10 ^ k ≡ 10 ^ (k - 1) * 10
pow10_step zero h = absurd (omega arith)
pow10_step (suc k) h = let e : suc k - 1 ≡ k = omega arith in rw e (pow-suc 10 k)

pow-digits_le : (fuel n : ℕ) → 0 < n → 10 ^ (digits_within fuel n - 1) ≤ n
unfolding digits_within
pow-digits_le zero n h = h
pow-digits_le (suc fuel) n h = elim (Bool-cases (ltb n 10)) [
  | inl small ↦ rw small h
  | inr big ↦ rw big (
      let d = digits_within fuel (n / 10) in
      let e : suc d - 1 ≡ d = omega arith in
      rw e (
        omega (
          arith,
          pow10_step d (digits_pos fuel (n / 10)),
          pow-digits_le fuel (n / 10) (ground arith),
        )))
]

num_digits-pow_le : (n k : ℕ) → 0 < n → k < num_digits n → 10 ^ k ≤ n
unfolding num_digits
num_digits-pow_le n k h lt =
    le_trans (pow-le-pow_right {n = 10} (omega arith) (omega arith)) (pow-digits_le n n h)

-- A quotient by a power that fits is not zero.
div_pow_pos : (n k : ℕ) → 0 < n → k < num_digits n → 0 < n / 10 ^ k
div_pow_pos n k h lt =
    let p : 0 < 10 ^ k = pow-le-pow_right {n = 10} (omega arith) {i = 0} (omega arith) in
    (le-div_iff_mul-le p).1 (omega (arith, num_digits-pow_le n k h lt))

cut_pos : (n k : ℕ) → 0 < n → k < num_digits n → 0 < cut n k
unfolding cut
cut_pos n k h lt = ground (arith, div_pow_pos n k h lt)

carried_pos : (prec : ℕ) (d : Decimal) → 0 < prec → 0 < d.coef → 0 < (carried prec d).coef
unfolding carried
carried_pos prec d p h = ground (arith, num_digits-pow_le d.coef 1 h)

carried-negative : (prec : ℕ) (d : Decimal) → (carried prec d).negative ≡ d.negative
unfolding carried
carried-negative prec d = ground arith

round_to_pos : (prec : ℕ) (d : Decimal) → 0 < prec → 0 < d.coef → 0 < (round_to prec d).coef
unfolding round_to
round_to_pos prec d p h = elim (Bool-cases (ltb prec (num_digits d.coef))) [
  | inl long ↦
      rw long (carried_pos prec _ p (cut_pos d.coef (num_digits d.coef - prec) h (ground arith)))
  | inr short ↦ rw short h
]

round_to-negative : (prec : ℕ) (d : Decimal) → (round_to prec d).negative ≡ d.negative
unfolding round_to
round_to-negative prec d = elim (Bool-cases (ltb prec (num_digits d.coef))) [
  | inl long ↦ rw (long, carried-negative)
  | inr short ↦ rw short
]

-- A rounded value is positive if the exact one is.
pub round_to-positive :
    (prec : ℕ) (d : Decimal)
    → 0 < prec
    → is_positive d ≡ true
    → is_positive (round_to prec d) ≡ true
round_to-positive prec d p h = ground (arith, round_to_pos prec d p, round_to-negative prec d)

pub dec_abs-negative : (d : Decimal) → (dec_abs d).negative ≡ false
unfolding dec_abs
dec_abs-negative d = rw round_to-negative

pub dec_mul-positive :
    (a b : Decimal) → is_positive a ≡ true → is_positive b ≡ true → is_positive (dec_mul a b) ≡ true
unfolding dec_mul
dec_mul-positive a b ha hb =
    round_to-positive default_prec (exact_product a b) (omega arith)
      (ground (arith, mul-pos {m = a.coef} {n = b.coef}))

pub dec_mul-negative :
    (a b : Decimal) → a.negative ≡ false → b.negative ≡ false → (dec_mul a b).negative ≡ false
unfolding dec_mul
dec_mul-negative a b ha hb = rw round_to-negative (ground arith)

pub dec_div-negative :
    (a b : Decimal) → a.negative ≡ false → b.negative ≡ false → (dec_div a b).negative ≡ false
unfolding dec_div
dec_div-negative a b ha hb = rw (round_to-negative, raw_quotient-negative) (ground arith)

pub max_zero-negative : (d : Decimal) → (max_zero d).negative ≡ false
unfolding max_zero
max_zero-negative d = ground arith
