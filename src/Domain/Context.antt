-- ===== src/Domain/Context.antt =====
-- `RiskContext`: the assembler's sealed snapshot, and the validators that its mint runs.
pub mod Sealed
use ibkr_auto_trader.Prelude.{
  ℕ, if◌then◌else◌, Bool, true, false, ◌&&◌, ◌||◌, Option, none, some, String, List, [], ◌∷◌, not,
  Key, nat_key,
}
use ibkr_auto_trader.Prelude.Dict.{Dict, keys, contains}
use ibkr_auto_trader.Prelude.Int.{ℤ}
use ibkr_auto_trader.Prelude.Result.{Result, ok, err, ◌>>=◌, ◌>>◌, raise_if}
use ibkr_auto_trader.Decimal.{Decimal}
use ibkr_auto_trader.Domain.Time.{Datetime, is_utc, is_later}
use ibkr_auto_trader.Domain.Mint.{Error, value_error, MintAuthority, assembler_authority, construct}
use ibkr_auto_trader.Domain.Holding.{HoldingValuation, ValuationStatus, available, unavailable}

pub record RiskContext : Type 0 where
  pub holdings : Dict ℕ HoldingValuation
  pub net_liquidation : Decimal
  pub buying_power : Decimal
  pub maintenance_margin : Decimal
  pub prices : Dict ℕ Decimal
  pub price_basis : Dict ℕ String
  pub data_as_of : Dict ℕ Datetime
  pub account_observed_at : Datetime
  pub as_of : Datetime
  pub context_digest : String
  pub generation : ℕ

-- `_reject_duplicate_holding_ids`, before the pairs become a dict
unfoldable pub has_duplicate : List ℕ → Bool
has_duplicate [] = false
has_duplicate (k ∷ ks) = contains k ks || has_duplicate ks

-- One round of the loop of `_validate_holding_marks`; a holding's own validator has put the mark
-- there, and `assert mark_at is not None` stands for the case that it has not.
mark_error : Datetime → ValuationStatus → Option Datetime → Option Error
unfolding is_utc is_later
mark_error as_of unavailable mark = none
mark_error as_of available none = some (value_error "mark_available_at is missing")
mark_error as_of available (some mark) =
    if not (is_utc mark)
    then some (value_error "mark_available_at must be UTC")
    else if is_later mark as_of
    then some (value_error "mark_available_at is after context as_of")
    else none

unfoldable pub validate_holding_marks : Datetime → Dict ℕ HoldingValuation → Result Error (Unit {0})
unfolding mark_error
validate_holding_marks as_of [] = ok tt
validate_holding_marks as_of ((k, h) ∷ d) =
    let rest = validate_holding_marks as_of d in
    elim (mark_error as_of h.status h.mark_available_at) [ some e ↦ err e | none ↦ rest ]

-- The validators of `RiskContext(...)` in their order: holdings, `as_of`, then the marks.
unfoldable pub validate_context : RiskContext → Result Error RiskContext
unfolding has_duplicate is_utc validate_holding_marks
validate_context c = do
  raise_if (has_duplicate (keys c.holdings)) (value_error "duplicate InstrumentId in holdings")
  raise_if (not (is_utc c.as_of)) (value_error "context as_of must be UTC")
  validate_holding_marks c.as_of c.holdings
  ok c

-- `RiskContext._mint(authority, **fields)`
unfoldable pub mint_context : Option MintAuthority → RiskContext → Result Error RiskContext
unfolding construct validate_context
mint_context given c = construct assembler_authority given (validate_context c)

-- `RiskContext.positions`
unfoldable pub positions : Dict ℕ HoldingValuation → Dict ℕ ℤ
positions [] = []
positions ((k, h) ∷ d) = (k, h.quantity) ∷ positions d
