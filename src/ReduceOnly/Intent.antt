-- ===== src/ReduceOnly/Intent.antt =====
-- `ApprovedOrderIntent._mint` of domain/models.py: Risk & Sizing's approval, which a latched
-- session grants to reducing orders only.
use ibkr_auto_trader.Prelude.{
  ℕ, ◌≡◌, refl, ◌⊎◌, false, Option, none, some, String, arith, not, if◌then◌else◌,
}
use ibkr_auto_trader.Prelude.Int.{ℤ, pos, ◌+ℤ◌, ◌-ℤ◌, ◌<ℤ◌, ltb_ℤ}
use ibkr_auto_trader.Prelude.Result.{Result, ok, err, ◌>>◌}
use ibkr_auto_trader.Decimal.{Decimal}
use ibkr_auto_trader.Domain.{
  Side, buy, sell, Datetime, Error, value_error, MintAuthority, risk_authority, construct, holds-eq,
}
use ibkr_auto_trader.ReduceOnly.{ReduceOnlyLatch, is_latched, require_permitted}
use ibkr_auto_trader.ReduceOnly.Reducing.{IsReduction, require_permitted_iff}

pub record ApprovedOrderIntent : Type 0 where
  pub symbol : String
  pub side : Side
  pub quantity : ℤ
  pub stop_price : Decimal
  pub approved_at : Datetime
  pub ledger_ref : String

pub record ReduceOnlyArgs : Type 0 where
  pub reduce_only_latch : Option ReduceOnlyLatch
  pub session_date : Option ℕ
  pub current_qty : Option ℤ

abbrev pub resulting_qty : Side → ℤ → ℤ → ℤ
resulting_qty buy current quantity = current +ℤ quantity
resulting_qty sell current quantity = current -ℤ quantity

-- The checks of `_mint` when a latch is given.
check_latched :
    ReduceOnlyLatch → Option ℕ → Option ℤ → ApprovedOrderIntent → Result Error (Unit {0})
check_latched latch none current intent =
    err (value_error "reduce-only mint requires session_date and current_qty")
check_latched latch (some day) none intent =
    err (value_error "reduce-only mint requires session_date and current_qty")
check_latched latch (some day) (some current) intent =
    if not (ltb_ℤ (pos 0) intent.quantity)
    then err (value_error "reduce-only mint quantity must be a positive int")
    else require_permitted latch day current (resulting_qty intent.side current intent.quantity)

abbrev check_latch : ReduceOnlyArgs → ApprovedOrderIntent → Result Error (Unit {0})
check_latch args intent = elim args.reduce_only_latch [
  | none ↦ ok tt
  | some latch ↦ check_latched latch args.session_date args.current_qty intent
]

unfoldable pub mint_intent :
    Option MintAuthority → ReduceOnlyArgs → ApprovedOrderIntent → Result Error ApprovedOrderIntent
unfolding check_latched construct
mint_intent given args intent = do
  check_latch args intent
  construct risk_authority given (ok intent)

-- What the latch leaves to an approval: nothing without a latch; with one, a position, a day and a
-- positive quantity, and in a latched session a strict reduction.
abbrev pub IsWithinLatch : ReduceOnlyArgs → ApprovedOrderIntent → Type 0
IsWithinLatch args intent =
    (latch : ReduceOnlyLatch)
    → args.reduce_only_latch ≡ some latch
    → (day : ℕ) × (current : ℤ) × (args.session_date ≡ some day)
      × (args.current_qty ≡ some current)
      × (pos 0 <ℤ intent.quantity)
      × ((is_latched latch day ≡ false)
          ⊎ IsReduction current (resulting_qty intent.side current intent.quantity))

check_latched-cases :
    (latch : ReduceOnlyLatch) (day? : Option ℕ) (current? : Option ℤ) (intent : ApprovedOrderIntent)
    → check_latched latch day? current? intent ≡ ok tt
    → (day : ℕ) × (current : ℤ) × (day? ≡ some day)
      × (current? ≡ some current)
      × (pos 0 <ℤ intent.quantity)
      × ((is_latched latch day ≡ false)
          ⊎ IsReduction current (resulting_qty intent.side current intent.quantity))
unfolding check_latched
check_latched-cases latch none current intent h = absurd (ground arith)
check_latched-cases latch (some day) none intent h = absurd (ground arith)
check_latched-cases latch (some day) (some current) intent h = (
  day,
  current,
  refl,
  refl,
  ground arith,
  (require_permitted_iff latch day current (resulting_qty intent.side current intent.quantity)).0
      (ground arith),
)

given_latch :
    (args : ReduceOnlyArgs) (intent : ApprovedOrderIntent) (latch : ReduceOnlyLatch)
    → args.reduce_only_latch ≡ some latch
    → check_latch args intent ≡ ok tt
    → check_latched latch args.session_date args.current_qty intent ≡ ok tt
given_latch args intent latch e h = ground arith

mint_intent-parts :
    (given : Option MintAuthority) (args : ReduceOnlyArgs) (intent minted : ApprovedOrderIntent)
    → mint_intent given args intent ≡ ok minted
    → (given ≡ some risk_authority) × (minted ≡ intent) × (check_latch args intent ≡ ok tt)
unfolding mint_intent
mint_intent-parts given args intent minted h = ground (arith, holds-eq risk_authority given)

-- Only risk mints an approval, its fields come through as given, and a latch that is handed in has
-- bound it: in a latched session the resulting position is strictly nearer to zero on the same
-- side.
pub mint_intent-IsWithinLatch :
    (given : Option MintAuthority) (args : ReduceOnlyArgs) (intent minted : ApprovedOrderIntent)
    → mint_intent given args intent ≡ ok minted
    → (given ≡ some risk_authority) × (minted ≡ intent) × IsWithinLatch args intent
mint_intent-IsWithinLatch given args intent minted h =
    let (held, same, checked) = mint_intent-parts given args intent minted h in
    (
      held,
      same,
      λ latch e.
          check_latched-cases latch args.session_date args.current_qty intent
            (given_latch args intent latch e checked),
    )
