-- ===== src/Decimal/Rounding.antt =====
-- Finite decimals, and rounding a coefficient to a number of digits, half to even.
use ibkr_auto_trader.Prelude.{
  ℕ, zero, suc, ◌+◌, ◌-◌, ◌*◌, ◌/◌, ◌%◌, ◌^◌, Bool, ◌&&◌, ◌||◌, ltb, ◌==◌, if◌then◌else◌,
}
use ibkr_auto_trader.Prelude.Int.{ℤ, pos, ◌+ℤ◌}

-- (-1)^negative · coef · 10^exp
pub record Decimal : Type 0 where
  pub negative : Bool
  pub coef : ℕ
  pub exp : ℤ

-- The number of decimal digits, by division on fuel; one digit for 0.
unfoldable pub digits_within : ℕ → ℕ → ℕ
digits_within zero n = 1
digits_within (suc fuel) n =
    let rest = suc (digits_within fuel (n / 10)) in if ltb n 10 then 1 else rest

unfoldable pub num_digits : ℕ → ℕ
unfolding digits_within
num_digits n = digits_within n n

-- Whether dropping the digits below 10^d rounds up, to the nearest and to even from the middle.
unfoldable pub rounds_up : ℕ → ℕ → Bool
rounds_up n d =
    let rest = (n % 10 ^ d) * 2 in ltb (10 ^ d) rest || (rest == 10 ^ d && ((n / 10 ^ d) % 2 == 1))

unfoldable pub cut : ℕ → ℕ → ℕ
unfolding rounds_up
cut n d = if rounds_up n d then n / 10 ^ d + 1 else n / 10 ^ d

-- A coefficient that rounding took to 10^prec has one digit too many, and loses a zero.
unfoldable pub carried : ℕ → Decimal → Decimal
unfolding num_digits
carried prec d =
    if ltb prec (num_digits d.coef)
    then record d { coef = d.coef / 10; exp = d.exp +ℤ pos 1 }
    else d

unfoldable pub round_to : ℕ → Decimal → Decimal
unfolding num_digits cut carried
round_to prec d =
    if ltb prec (num_digits d.coef)
    then (let k = num_digits d.coef - prec in
        carried prec (record d { coef = cut d.coef k; exp = d.exp +ℤ pos k }))
    else d
