-- ===== src/Domain/Holding.antt =====
-- `HoldingValuation`: a signed holding with a broker value and a mark, or with neither.
use ibkr_auto_trader.Prelude.{
  ◌≡◌, Bool, true, false, ◌||◌, Option, none, some, arith, if◌then◌else◌, not,
}
use ibkr_auto_trader.Prelude.Int.{ℤ}
use ibkr_auto_trader.Prelude.Result.{Result, ok, err}
use ibkr_auto_trader.Decimal.{Decimal}
use ibkr_auto_trader.Domain.Time.{Datetime}
use ibkr_auto_trader.Domain.Mint.{Error, value_error}

pub data Side : Type 0 where
  buy sell : Side

pub data ValuationStatus : Type 0 where
  available unavailable : ValuationStatus

abbrev pub is_available : ValuationStatus → Bool
is_available available = true
is_available unavailable = false

pub record HoldingValuation : Type 0 where
  pub quantity : ℤ
  pub status : ValuationStatus
  pub broker_market_value : Option Decimal
  pub mark_available_at : Option Datetime

abbrev pub is_none : {A : Type 0} → Option A → Bool
is_none none = true
is_none (some a) = false

-- `_validate_status`
unfoldable pub validate_status : HoldingValuation → Result Error HoldingValuation
validate_status h =
    if is_available h.status
    then (if is_none h.broker_market_value || is_none h.mark_available_at
        then err
            (value_error "AVAILABLE valuation requires broker_market_value and mark_available_at")
        else ok h)
    else if not (is_none h.broker_market_value) || not (is_none h.mark_available_at)
    then err (value_error "UNAVAILABLE valuation must not carry a market value or mark timestamp")
    else ok h

-- A holding that the validator lets through.
abbrev pub IsValuation : HoldingValuation → Type 0
IsValuation h = validate_status h ≡ ok h

-- The status is available exactly if there is a value, and exactly if there is a mark.
pub IsValuation-available :
    (h : HoldingValuation)
    → IsValuation h
    → (is_none h.broker_market_value ≡ not (is_available h.status))
      × (is_none h.mark_available_at ≡ not (is_available h.status))
unfolding validate_status
IsValuation-available h v = ground arith
