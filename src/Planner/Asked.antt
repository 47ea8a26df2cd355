-- ===== src/Planner/Asked.antt =====
-- What an intent asks for, read off its attributes: `plan` of
-- src/ibkr_trader/risk/planner.py up to `requested`.
use mathlib.Core.Path.{subst}
use native.Mathlib.Nat.{mod-lt}
use ibkr_auto_trader.Prelude.{
  ℕ, ◌+◌, ◌-◌, ◌%◌, ◌≤◌, ◌<◌, ◌≡◌, ◌⊎◌, inl, inr, refl, sym, ap, Bool, true, false, Option, String,
  none, some, arith, Bool-cases, if◌then◌else◌,
}
use ibkr_auto_trader.Prelude.Int.{pos, negsuc}
use ibkr_auto_trader.Prelude.Result.{Result, ok, >>=-eq_ok}
use ibkr_auto_trader.Decimal.{
  Decimal, finite, infinite, nan, is_positive, dec_abs, dec_mul, dec_div,
}
use ibkr_auto_trader.Domain.{Side, buy, Error}
use ibkr_auto_trader.Domain.Context.{RiskContext}
use ibkr_auto_trader.Planner.{
  Field, absent, null, value, Raw, IntRead, int, not_integer, overflows, LotSize, falsy, truthy,
  Intent, Inputs, key_of, quoted, or_quoted, decimal, decimal_field, whole, read_lot, round_lot,
  side_of, optional_decimal, wanted, read_intent,
}
use ibkr_auto_trader.Planner.Bounds.{round_lot-bounds}

-- The quantity that is asked for before it is rounded to lots, by an intent's quantity and target
-- weight: the quantity, which counts as nothing if it is negative; without one, the weight's share
-- of the net liquidation value over the price, its sign dropped, in whole units, or nothing without
-- a positive price; or, without either, nothing.
pub data Asks (nlv price : Decimal) : Field IntRead → Field Raw → ℕ → Type 0 where
  quantity : (n : ℕ) (w : Field Raw) → Asks nlv price (value (int (pos n))) w n
  negative : (n : ℕ) (w : Field Raw) → Asks nlv price (value (int (negsuc n))) w 0
  weight :
      (w : Decimal) (f : Field IntRead)
      → (f ≡ absent) ⊎ (f ≡ null)
      → is_positive price ≡ true
      → Asks nlv price f (value (some (finite w))) (whole (dec_div (dec_mul (dec_abs w) nlv) price))
  unpriced :
      (w : Decimal) (f : Field IntRead)
      → (f ≡ absent) ⊎ (f ≡ null)
      → is_positive price ≡ false
      → Asks nlv price f (value (some (finite w))) 0
  nothing : (f : Field IntRead) → (f ≡ absent) ⊎ (f ≡ null) → Asks nlv price f absent 0

-- The lot of an intent: the one it names, and else one unit.
pub data IsLot : Field LotSize → ℕ → Type 0 where
  named : (n : ℕ) → IsLot (value (truthy (int (pos n)))) n
  unnamed : IsLot absent 1
  is_null : IsLot null 1
  is_falsy : IsLot (value falsy) 1

-- A number of whole lots, the most that the quantity asked for holds.
pub record IsAsked (intent : Intent) (nlv price : Decimal) (requested : ℕ) : Type 0 where
  pub asked : ℕ
  pub lot : ℕ
  pub asks : Asks nlv price intent.quantity intent.target_weight asked
  pub is_lot : IsLot intent.lot_size lot
  pub whole_lots : requested % lot ≡ 0
  pub at_most : requested ≤ asked
  pub most : asked < requested + lot

ok_eq : {a b : ℕ} → Path (Result Error ℕ) (ok a) (ok b) → a ≡ b
ok_eq h = ground arith

-- An attribute that is there and is a number, or one that is not there.
abbrev pub IsGiven : Field Raw → Option Decimal → Type 0
IsGiven f none = (f ≡ absent) ⊎ (f ≡ null)
IsGiven f (some d) = f ≡ value (some (finite d))

-- What is read off an intent: its side, by default to buy; its stop; its price, by default the one
-- that the context quotes, and zero without either; and the quantity asked for.
pub record IsRead (intent : Intent) (c : RiskContext) (i : Inputs) : Type 0 where
  pub side : (intent.side ≡ value (some i.side)) ⊎ ((intent.side ≡ absent) × (i.side ≡ buy))
  pub stop : IsGiven intent.stop_price i.stop
  pub given : Option Decimal
  pub price_given : IsGiven intent.price given
  pub price :
      i.price
      ≡ or_quoted given (quoted c.prices (key_of intent.instrument_id intent.con_id intent.symbol))
  pub quantity : IsAsked intent c.net_liquidation i.price i.requested

side_eq : {a b : Side} → Path (Result Error Side) (ok a) (ok b) → a ≡ b
side_eq h = ground arith

option_eq : {a b : Option Decimal} → Path (Result Error (Option Decimal)) (ok a) (ok b) → a ≡ b
option_eq h = ground arith

side_of_lem :
    (f : Field (Option Side)) (s : Side)
    → side_of f ≡ ok s
    → (f ≡ value (some s)) ⊎ ((f ≡ absent) × (s ≡ buy))
side_of_lem absent s h = inr (refl, sym (side_eq h))
side_of_lem null s h = absurd (ground arith)
side_of_lem (value none) s h = absurd (ground arith)
side_of_lem (value (some t)) s h = inl (ap (λ x. value (some x)) (side_eq h))

optional_decimal-IsGiven :
    (f : Field Raw) (label : String) (o : Option Decimal)
    → optional_decimal f label ≡ ok o
    → IsGiven f o
unfolding optional_decimal decimal
optional_decimal-IsGiven absent label o h = subst (IsGiven absent) (option_eq h) (inl refl)
optional_decimal-IsGiven null label o h = subst (IsGiven null) (option_eq h) (inr refl)
optional_decimal-IsGiven (value none) label o h = absurd (ground arith)
optional_decimal-IsGiven (value (some (infinite s))) label o h = absurd (ground arith)
optional_decimal-IsGiven (value (some nan)) label o h = absurd (ground arith)
optional_decimal-IsGiven (value (some (finite d))) label o h =
    subst (IsGiven (value (some (finite d)))) (option_eq h) refl

read_lot-IsLot : (l : Field LotSize) (lot : ℕ) → read_lot l ≡ ok lot → IsLot l lot
unfolding read_lot
read_lot-IsLot absent lot h = subst (IsLot absent) (ok_eq h) unnamed
read_lot-IsLot null lot h = subst (IsLot null) (ok_eq h) is_null
read_lot-IsLot (value falsy) lot h = subst (IsLot (value falsy)) (ok_eq h) is_falsy
read_lot-IsLot (value (truthy (int (pos n)))) lot h =
    subst (IsLot (value (truthy (int (pos n))))) (ground arith) (named n)
read_lot-IsLot (value (truthy (int (negsuc n)))) lot h = absurd (ground arith)
read_lot-IsLot (value (truthy not_integer)) lot h = absurd (ground arith)
read_lot-IsLot (value (truthy overflows)) lot h = absurd (ground arith)

true_branch : (b : Bool) {m n : ℕ} → b ≡ true → (if b then m else 0) ≡ n → m ≡ n
true_branch b p h = ground arith

priced :
    (nlv price : Decimal) (f : Field IntRead) (w : Decimal) (n : ℕ)
    → (f ≡ absent) ⊎ (f ≡ null)
    → (if is_positive price then whole (dec_div (dec_mul (dec_abs w) nlv) price) else 0) ≡ n
    → Asks nlv price f (value (some (finite w))) n
priced nlv price f w n e h = elim (Bool-cases (is_positive price)) [
  | inl p ↦
      subst (Asks nlv price f (value (some (finite w)))) (true_branch (is_positive price) p h)
        (weight w f e p)
  | inr p ↦ subst (Asks nlv price f (value (some (finite w)))) (ground arith) (unpriced w f e p)
]

weighed :
    (nlv price : Decimal) (f : Field IntRead) (r : Raw) (n : ℕ)
    → (f ≡ absent) ⊎ (f ≡ null)
    → wanted f (value r) nlv price ≡ ok n
    → Asks nlv price f (value r) n
unfolding wanted decimal_field decimal
weighed nlv price (value z) r n (inl e) h = absurd (ground arith)
weighed nlv price (value z) r n (inr e) h = absurd (ground arith)
weighed nlv price f none n e h = absurd (ground arith)
weighed nlv price f (some nan) n e h = absurd (ground arith)
weighed nlv price f (some (infinite s)) n e h = absurd (ground arith)
weighed nlv price absent (some (finite w)) n e h = priced nlv price absent w n e (ok_eq h)
weighed nlv price null (some (finite w)) n e h = priced nlv price null w n e (ok_eq h)

wanted-Asks :
    (quantity' : Field IntRead) (weight' : Field Raw) (nlv price : Decimal) (n : ℕ)
    → wanted quantity' weight' nlv price ≡ ok n
    → Asks nlv price quantity' weight' n
unfolding wanted
wanted-Asks (value (int (pos m))) w nlv price n h =
    subst (Asks nlv price (value (int (pos m))) w) (ok_eq h) (quantity m w)
wanted-Asks (value (int (negsuc m))) w nlv price n h =
    subst (Asks nlv price (value (int (negsuc m))) w) (ok_eq h) (negative m w)
wanted-Asks (value not_integer) w nlv price n h = absurd (ground arith)
wanted-Asks (value overflows) w nlv price n h = absurd (ground arith)
wanted-Asks absent absent nlv price n h =
    subst (Asks nlv price absent absent) (ok_eq h) (nothing absent (inl refl))
wanted-Asks null absent nlv price n h =
    subst (Asks nlv price null absent) (ok_eq h) (nothing null (inr refl))
wanted-Asks absent null nlv price n h = absurd (unfold decimal_field in ground arith)
wanted-Asks null null nlv price n h = absurd (unfold decimal_field in ground arith)
wanted-Asks absent (value w) nlv price n h = weighed nlv price absent w n (inl refl) h
wanted-Asks null (value w) nlv price n h = weighed nlv price null w n (inr refl) h

round_lot-most :
    (n : ℕ) (l : Field LotSize) (q lot : ℕ)
    → read_lot l ≡ ok lot
    → 0 < lot
    → round_lot n l ≡ ok q
    → n < q + lot
unfolding round_lot
round_lot-most n l q lot e p h =
    let same : n - n % lot ≡ q = ground arith in omega (arith, same, mod-lt n p)

wanted-IsAsked :
    (intent : Intent) (nlv price : Decimal) (n q : ℕ)
    → wanted intent.quantity intent.target_weight nlv price ≡ ok n
    → round_lot n intent.lot_size ≡ ok q
    → IsAsked intent nlv price q
wanted-IsAsked intent nlv price n q h r =
    let (within, lot, e, p, lots) = round_lot-bounds n intent.lot_size q r in
    record {
      asked = n;
      lot = lot;
      asks = wanted-Asks intent.quantity intent.target_weight nlv price n h;
      is_lot = read_lot-IsLot intent.lot_size lot e;
      whole_lots = lots;
      at_most = within;
      most = round_lot-most n intent.lot_size q lot e p r;
    }

inputs_eq : {a b : Inputs} → Path (Result Error Inputs) (ok a) (ok b) → a ≡ b
inputs_eq h = ground arith

pub read_intent-IsRead :
    (intent : Intent) (c : RiskContext) (i : Inputs)
    → read_intent intent c ≡ ok i
    → IsRead intent c i
unfolding read_intent
read_intent-IsRead intent c i h =
    let (side, hs, h1) = >>=-eq_ok (side_of intent.side) _ h in
    let (stop, ht, h2) = >>=-eq_ok (optional_decimal intent.stop_price "stop_price") _ h1 in
    let (given, hg, h3) = >>=-eq_ok (optional_decimal intent.price "price") _ h2 in
    let (n, hw, h4) =
      >>=-eq_ok (wanted intent.quantity intent.target_weight c.net_liquidation _) _ h3 in
    let (q, hr, h5) = >>=-eq_ok (round_lot n intent.lot_size) _ h4 in
    subst (IsRead intent c) (inputs_eq h5) (record {
      side = side_of_lem intent.side side hs;
      stop = optional_decimal-IsGiven intent.stop_price "stop_price" stop ht;
      given = given;
      price_given = optional_decimal-IsGiven intent.price "price" given hg;
      price = refl;
      quantity = wanted-IsAsked intent c.net_liquidation _ n q hw hr;
    })
