-- ===== src/Gateway/Broker.antt =====
-- What the broker hands over, and how it is mapped: holdings, the account, the account summary.
use text.Mathlib.Text.{starts_with}
use ibkr_auto_trader.Prelude.{
  ℕ, Bool, true, false, ◌&&◌, Option, none, some, String, List, [], ◌∷◌, not, keep_if,
  if◌then◌else◌, nat_key, text_key,
}
use ibkr_auto_trader.Prelude.Dict.{Dict, lookup, contains}
use ibkr_auto_trader.Prelude.Int.{ℤ}
use ibkr_auto_trader.Prelude.Result.{Result, ok, err, ◌>>=◌}
use ibkr_auto_trader.Decimal.{Number}
use ibkr_auto_trader.Domain.{Datetime, ValuationStatus, available, unavailable, is_none}
use ibkr_auto_trader.Config.{Mode, paper}

pub record HeldPosition : Type 0 where
  pub instrument_id : ℕ
  pub symbol : String
  pub quantity : ℤ
  pub broker_mark : Option Number
  pub broker_market_value : Option Number
  pub mark_available_at : Option Datetime
  pub valuation_status : ValuationStatus

-- `HeldPosition.from_broker`
unfoldable pub from_broker :
    ℕ → String → ℤ → Option Number → Option Number → Option Datetime → HeldPosition
from_broker n s q market_value market_price mark =
    if not (is_none market_value) && not (is_none mark)
    then record {
      instrument_id = n;
      symbol = s;
      quantity = q;
      broker_mark = market_price;
      broker_market_value = market_value;
      mark_available_at = mark;
      valuation_status = available;
    }
    else record {
      instrument_id = n;
      symbol = s;
      quantity = q;
      broker_mark = none;
      broker_market_value = none;
      mark_available_at = none;
      valuation_status = unavailable;
    }

-- The exceptions of the module. The message of an incomplete snapshot names the tags.
pub data GatewayError : Type 0 where
  not_connected : GatewayError
  snapshot_incomplete : List String → GatewayError
  account_resolution paper_assertion : GatewayError

-- `FatalGatewayError`
abbrev pub is_fatal : GatewayError → Bool
is_fatal account_resolution = true
is_fatal paper_assertion = true
is_fatal _ = false

-- A value of the broker's summary: `None`, a blank text, or what `Decimal(str(raw))` makes of it.
pub data SummaryValue : Type 0 where
  null blank : SummaryValue
  raw : Option Number → SummaryValue

pub record AccountSnapshot : Type 0 where
  pub net_liquidation : Number
  pub buying_power : Number
  pub maintenance_margin : Number
  pub held : List HeldPosition
  pub observed_at : Datetime
  pub generation : ℕ

-- The field of one tag, unless the tag is missing, blank or unparseable.
abbrev pub parsed : Option SummaryValue → Option Number
parsed none = none
parsed (some null) = none
parsed (some blank) = none
parsed (some (raw v)) = v

abbrev pub field_of : Dict String SummaryValue → String → Option Number
field_of summary tag = parsed (lookup tag summary)

-- The keys of `SUMMARY_TAG_MAP`, in the alphabetic order of the error message.
abbrev pub required_tags : List String
required_tags = "BuyingPower" ∷ "MaintMarginReq" ∷ "NetLiquidation" ∷ []

abbrev pub missing_tags : Dict String SummaryValue → List String
missing_tags summary = keep_if (λ tag. is_none (field_of summary tag)) required_tags

abbrev pub all_fields :
    Option Number
    → Option Number
    → Option Number
    → List HeldPosition
    → Datetime
    → ℕ
    → List String
    → Result GatewayError AccountSnapshot
all_fields (some nlv) (some bp) (some mm) held at generation missing = ok (record {
  net_liquidation = nlv;
  buying_power = bp;
  maintenance_margin = mm;
  held = held;
  observed_at = at;
  generation = generation;
})
all_fields _ _ _ held at generation missing = err (snapshot_incomplete missing)

unfoldable pub build_account_snapshot :
    Dict String SummaryValue
    → List HeldPosition
    → Datetime
    → ℕ
    → Result GatewayError AccountSnapshot
build_account_snapshot summary held at generation =
    all_fields (field_of summary "NetLiquidation") (field_of summary "BuyingPower")
      (field_of summary "MaintMarginReq") held at generation (missing_tags summary)

abbrev pub is_paper : Mode → Bool
is_paper paper = true
is_paper _ = false

abbrev pub is_blank : String → Bool
is_blank s = text_key.same s ""

-- The last check: under PAPER the account is DU-prefixed.
abbrev pub assert_paper : Mode → String → Result GatewayError String
assert_paper mode a =
    if is_paper mode && not (starts_with a "DU") then err paper_assertion else ok a

abbrev pub sole : List String → Result GatewayError String
sole (a ∷ []) = ok a
sole _ = err account_resolution

-- `if configured:` is false for `None` and for an empty text.
abbrev pub configured_name : Option String → Option String
configured_name none = none
configured_name (some c) = if is_blank c then none else some c

-- `[a for a in available if a]`
abbrev pub named : List String → List String
named offered = keep_if (λ a. not (is_blank a)) offered

unfoldable pub pick : Option String → List String → Result GatewayError String
pick none accounts = sole accounts
pick (some c) accounts = if contains c accounts then ok c else err account_resolution

unfoldable pub resolve_account : Option String → List String → Mode → Result GatewayError String
unfolding pick
resolve_account configured offered mode = do
  resolved ← pick (configured_name configured) (named offered)
  assert_paper mode resolved
