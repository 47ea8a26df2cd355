-- ===== src/Decimal.antt =====
-- Python's `decimal.Decimal` as the program uses it: finite values and the two kinds of values
-- that `is_finite()` refuses. Results are rounded to the context's 28 digits, half to even, as
-- `decimal` does in its default context (`add_realized_pnl` sets a precision of its own). The
-- exponent's range is not bounded, and a sum with a zero whose exponent is far below the other's
-- keeps that exponent here: values compare by what they stand for.
mod Rounding
pub mod Signs
pub use Rounding.{Decimal}
unfoldable pub use Rounding.{num_digits, cut, rounds_up, round_to}
use ibkr_auto_trader.Prelude.{
  ℕ, zero, suc, ◌≡◌, refl, arith, ◌+◌, ◌-◌, ◌*◌, ◌/◌, ◌%◌, ◌^◌, Bool, true, false, ◌&&◌, not, ltb,
  leb, ◌==◌, if◌then◌else◌,
}
use ibkr_auto_trader.Prelude.Int.{
  ℤ, pos, negsuc, pos_part, neg_part, sub_ℕ, abs, ◌+ℤ◌, ◌-ℤ◌, leb_ℤ, ltb_ℤ,
}

-- A value before `is_finite()` has been asked.
pub data Number : Type 0 where
  finite : Decimal → Number
  infinite : Bool → Number
  nan : Number

abbrev pub default_prec : ℕ
default_prec = 28

abbrev pub decimal_of : ℤ → Decimal
decimal_of z = record { negative = ltb_ℤ z (pos 0); coef = abs z; exp = pos 0 }

abbrev pub dec_zero : Decimal
dec_zero = record { negative = false; coef = 0; exp = pos 0 }

-- `d > 0`: a zero of either sign is not positive.
abbrev pub is_positive : Decimal → Bool
is_positive d = not d.negative && ltb 0 d.coef

unfoldable pub low_exp : Decimal → Decimal → ℤ
low_exp a b = if leb_ℤ a.exp b.exp then a.exp else b.exp

-- The signed coefficient at an exponent that is not above the value's own.
unfoldable pub signed : Decimal → ℤ → ℤ
signed d e = let n = d.coef * 10 ^ pos_part (d.exp -ℤ e) in if d.negative then sub_ℕ 0 n else pos n

-- `a < b` and `a <= b`.
unfoldable pub dec_lt : Decimal → Decimal → Bool
dec_lt a b = let e = low_exp a b in ltb_ℤ (signed a e) (signed b e)

unfoldable pub dec_le : Decimal → Decimal → Bool
dec_le a b = let e = low_exp a b in leb_ℤ (signed a e) (signed b e)

-- `abs(d)` and `-d` round like every operation; a zero comes back with no sign.
unfoldable pub dec_abs : Decimal → Decimal
unfolding round_to
dec_abs d = round_to default_prec (record d { negative = false })

unfoldable pub dec_neg : Decimal → Decimal
unfolding round_to
dec_neg d = round_to default_prec (record d { negative = ltb 0 d.coef && not d.negative })

-- The exact sum is rounded once; a zero sum is negative only if both operands are.
unfoldable pub add_prec : ℕ → Decimal → Decimal → Decimal
unfolding signed low_exp round_to ◌+ℤ◌
add_prec prec a b =
    let e = low_exp a b in
    let s = signed a e +ℤ signed b e in
    round_to prec (record {
      negative = if abs s == 0 then a.negative && b.negative else ltb_ℤ s (pos 0);
      coef = abs s;
      exp = e;
    })

unfoldable pub dec_add : Decimal → Decimal → Decimal
unfolding add_prec
dec_add a b = add_prec default_prec a b

unfoldable pub dec_sub : Decimal → Decimal → Decimal
unfolding add_prec
dec_sub a b = add_prec default_prec a (record b { negative = not b.negative })

abbrev pub sign_of_product : Bool → Bool → Bool
sign_of_product true b = not b
sign_of_product false b = b

abbrev pub exact_product : Decimal → Decimal → Decimal
unfolding ◌+ℤ◌
exact_product a b = record {
  negative = sign_of_product a.negative b.negative;
  coef = a.coef * b.coef;
  exp = a.exp +ℤ b.exp;
}

unfoldable pub dec_mul : Decimal → Decimal → Decimal
unfolding round_to ◌+ℤ◌
dec_mul a b = round_to default_prec (exact_product a b)

-- A quotient with a remainder ends in a digit that keeps it from looking exact or half-way.
sticky : ℕ → ℕ → ℕ
sticky q r = if r == 0 then q else if q % 5 == 0 then q + 1 else q

-- The coefficient of a / b, to at least one digit more than the precision.
unfoldable pub quotient_coef : ℕ → ℕ → ℤ → ℕ
unfolding sticky
quotient_coef a b shift =
    let n = a * 10 ^ pos_part shift in let m = b * 10 ^ neg_part shift in sticky (n / m) (n % m)

-- The trailing zeros of an exact quotient go, as far as the ideal exponent is off.
strip : ℕ → Decimal → Decimal
strip zero d = d
strip (suc k) d =
    let rest = strip k (record d { coef = d.coef / 10; exp = d.exp +ℤ pos 1 }) in
    if d.coef % 10 == 0 then rest else d

strip-negative : (k : ℕ) (d : Decimal) → (strip k d).negative ≡ d.negative
unfolding strip
strip-negative zero d = refl
strip-negative (suc k) d =
    ground (arith, strip-negative k (record d { coef = d.coef / 10; exp = d.exp +ℤ pos 1 }))

quotient_shift : Decimal → Decimal → ℤ
quotient_shift a b = pos (num_digits b.coef + default_prec + 1) -ℤ pos (num_digits a.coef)

-- The quotient before it is rounded; one with a remainder ends in a digit that is not zero.
unfoldable pub raw_quotient : Decimal → Decimal → Decimal
unfolding quotient_coef num_digits strip quotient_shift
raw_quotient a b =
    let shift = quotient_shift a b in
    strip (pos_part shift) (record {
      negative = sign_of_product a.negative b.negative;
      coef = quotient_coef a.coef b.coef shift;
      exp = a.exp -ℤ b.exp -ℤ shift;
    })

pub raw_quotient-negative :
    (a b : Decimal) → (raw_quotient a b).negative ≡ sign_of_product a.negative b.negative
unfolding raw_quotient
raw_quotient-negative a b = rw strip-negative

-- `a / b`; the program divides by positive values only, so a division by zero is never reached.
unfoldable pub dec_div : Decimal → Decimal → Decimal
unfolding raw_quotient round_to
dec_div a b = round_to default_prec (raw_quotient a b)

-- `max(Decimal(0), d)` keeps the first of equal values.
unfoldable pub max_zero : Decimal → Decimal
max_zero d = if is_positive d then d else dec_zero

-- `int(d.to_integral_value(rounding=ROUND_DOWN))`, of a value that is not negative.
unfoldable pub whole_part : Decimal → ℕ
whole_part d = d.coef * 10 ^ pos_part d.exp / 10 ^ neg_part d.exp
