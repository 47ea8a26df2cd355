-- ===== src/Planner/Intents.antt =====
-- What `plan` reads off an intent.
use ibkr_auto_trader.Prelude.{ℕ, ◌-◌, ◌%◌, Option, none, some, String, ◌==◌, if◌then◌else◌, nat_key}
use Prim.Native.String.{◌++◌}
use ibkr_auto_trader.Prelude.Dict.{Dict, lookup}
use ibkr_auto_trader.Prelude.Int.{ℤ, pos, negsuc}
use ibkr_auto_trader.Prelude.Result.{Result, ok, err, ◌>>=◌}
use ibkr_auto_trader.Decimal.{
  Decimal, Number, finite, infinite, nan, dec_zero, is_positive, decimal_of, dec_abs, dec_mul,
  dec_div, whole_part,
}
use ibkr_auto_trader.Domain.{Side, buy, Error, value_error, overflow_error}
use ibkr_auto_trader.Domain.Context.{RiskContext}

-- An attribute read by `_get`.
pub data Field (A : Type 0) : Type 0 where
  absent null : Field A
  value : A → Field A

-- What `Decimal(str(v))` makes of a value: a number, or an exception.
abbrev pub Raw : Type 0
Raw = Option Number

-- What `int(v)` makes of a value.
pub data IntRead : Type 0 where
  int : ℤ → IntRead
  not_integer overflows : IntRead

-- `lot_size or 1` looks at the truth of the value first.
pub data LotSize : Type 0 where
  falsy : LotSize
  truthy : IntRead → LotSize

pub record Intent : Type 0 where
  pub instrument_id : Field ℕ
  pub con_id : Field ℕ
  pub symbol : Field String
  pub side : Field (Option Side)
  pub stop_price : Field Raw
  pub price : Field Raw
  pub quantity : Field IntRead
  pub target_weight : Field Raw
  pub lot_size : Field LotSize
  pub multiplier : Field Raw

pub data InstrumentKey : Type 0 where
  by_id : ℕ → InstrumentKey
  by_symbol : String → InstrumentKey
  no_key : InstrumentKey

-- `str(...)` of a symbol, of an instrument, or of `None`
pub data PlanSymbol : Type 0 where
  named : String → PlanSymbol
  printed : InstrumentKey → PlanSymbol

-- `_decimal`
unfoldable pub decimal : Raw → String → Result Error Decimal
decimal none label = err (value_error (label ++ " is invalid"))
decimal (some (finite d)) label = ok d
decimal (some (infinite s)) label = err (value_error (label ++ " must be finite"))
decimal (some nan) label = err (value_error (label ++ " must be finite"))

-- `_decimal(_get(intent, "multiplier", 1), "multiplier")`; `Decimal("None")` is invalid
unfoldable pub decimal_field : Field Raw → String → Result Error Decimal
unfolding decimal
decimal_field absent label = ok (decimal_of (pos 1))
decimal_field null label = err (value_error (label ++ " is invalid"))
decimal_field (value r) label = decimal r label

-- `_whole`
unfoldable pub whole : Decimal → ℕ
unfolding whole_part
whole d = if d.negative then 0 else whole_part d

-- `int(v)` where an exception is not caught
abbrev pub read_int : IntRead → Result Error ℤ
read_int (int z) = ok z
read_int not_integer = err (value_error "invalid literal for int()")
read_int overflows = err overflow_error

abbrev lot_of : LotSize → Result Error ℤ
lot_of falsy = ok (pos 1)
lot_of (truthy r) = read_int r

-- `int(lot_size or 1)`, with its check
unfoldable pub read_lot : Field LotSize → Result Error ℕ
read_lot absent = ok 1
read_lot null = ok 1
read_lot (value l) = do
  z ← lot_of l
  elim z [
    | pos n ↦ if n == 0 then err (value_error "lot_size must be positive") else ok n
    | negsuc n ↦ err (value_error "lot_size must be positive")
  ]

-- `_round_lot`
unfoldable pub round_lot : ℕ → Field LotSize → Result Error ℕ
unfolding read_lot
round_lot quantity lot_size = do lot ← read_lot lot_size; ok (quantity - quantity % lot)

by_name : Field String → InstrumentKey
by_name (value s) = by_symbol s
by_name _ = no_key

-- `_get(intent, "instrument_id", _get(intent, "con_id"))`, then the symbol
unfoldable pub key_of : Field ℕ → Field ℕ → Field String → InstrumentKey
unfolding by_name
key_of (value n) con_id symbol = by_id n
key_of null con_id symbol = by_name symbol
key_of absent (value n) symbol = by_id n
key_of absent con_id symbol = by_name symbol

abbrev symbol_of : Field String → InstrumentKey → PlanSymbol
symbol_of absent key = printed key
symbol_of null key = printed no_key
symbol_of (value s) key = named s

abbrev pub side_of : Field (Option Side) → Result Error Side
side_of absent = ok buy
side_of (value (some s)) = ok s
side_of _ = err (value_error "not a valid Side")

unfoldable pub optional_decimal : Field Raw → String → Result Error (Option Decimal)
unfolding decimal
optional_decimal (value r) label = do d ← decimal r label; ok (some d)
optional_decimal _ label = ok none

abbrev pub quoted : Dict ℕ Decimal → InstrumentKey → Option Decimal
quoted prices (by_id n) = lookup n prices
quoted prices _ = none

abbrev pub or_quoted : Option Decimal → Option Decimal → Decimal
or_quoted (some p) quote = p
or_quoted none (some p) = p
or_quoted none none = dec_zero

-- The quantity asked for, or the one that the target weight comes to.
unfoldable pub wanted : Field IntRead → Field Raw → Decimal → Decimal → Result Error ℕ
unfolding decimal_field
wanted (value (int (pos n))) weight nlv price = ok n
wanted (value (int (negsuc n))) weight nlv price = ok 0
wanted (value not_integer) weight nlv price = err (value_error "quantity must be an integer")
wanted (value overflows) weight nlv price = err overflow_error
wanted _ absent nlv price = ok 0
wanted _ weight nlv price = do
  w ← decimal_field weight "target_weight"
  ok (if is_positive price then whole (dec_div (dec_mul (dec_abs w) nlv) price) else 0)

pub record Inputs : Type 0 where
  pub key : InstrumentKey
  pub symbol : PlanSymbol
  pub side : Side
  pub stop : Option Decimal
  pub price : Decimal
  pub requested : ℕ

-- The first part of `plan`, up to `requested`.
unfoldable pub read_intent : Intent → RiskContext → Result Error Inputs
unfolding optional_decimal
read_intent intent context = do
  let key = key_of intent.instrument_id intent.con_id intent.symbol
  side ← side_of intent.side
  stop ← optional_decimal intent.stop_price "stop_price"
  given ← optional_decimal intent.price "price"
  let price = or_quoted given (quoted context.prices key)
  n ← wanted intent.quantity intent.target_weight context.net_liquidation price
  requested ← round_lot n intent.lot_size
  ok (record {
    key = key;
    symbol = symbol_of intent.symbol key;
    side = side;
    stop = stop;
    price = price;
    requested = requested;
  })
