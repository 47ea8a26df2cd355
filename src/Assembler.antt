-- ===== src/Assembler.antt =====
-- src/ibkr_trader/decision/assembler.py: `DecisionContextAssembler.capture`. The account snapshot and
-- the quotes are handed in as the awaited calls returned them, with the generation that the session
-- has when the decision is sealed. The digest over the sealed inputs is a parameter: it is a
-- SHA-256 of their texts. A set's iteration order, telemetry and the domain's rejection of the
-- fields' types are not modelled, but that its decimals are finite is.
pub mod Pricing
pub mod Capture
use ibkr_auto_trader.Prelude.{
  ℕ, ◌==◌, ◌&&◌, Bool, true, false, Option, none, some, String, List, [], ◌∷◌, ◌++◌, not,
  if◌then◌else◌, nat_key,
}
use ibkr_auto_trader.Prelude.Dict.{Dict, lookup, insert, keys}
use ibkr_auto_trader.Prelude.Result.{Result, ok, err, ◌>>=◌}
use ibkr_auto_trader.Decimal.{Decimal, Number, finite, infinite, nan}
use ibkr_auto_trader.Domain.{
  Datetime, as_utc, Error, value_error, HoldingValuation, validate_status, is_available,
  assembler_authority,
}
use ibkr_auto_trader.Domain.Context.{RiskContext, mint_context}
use ibkr_auto_trader.Gateway.{HeldPosition, AccountSnapshot, GatewayError}
use ibkr_auto_trader.MarketData.{QuoteField, QuoteBatch, CausalSelection, select_causal}
use ibkr_auto_trader.Session.{union}

pub data CaptureError : Type 0 where
  from_gateway : GatewayError → CaptureError
  generation_fence invalid_operation : CaptureError
  from_domain : Error → CaptureError

-- The domain's decimal fields refuse NaN and the infinities.
abbrev pub to_finite : Number → Result CaptureError Decimal
to_finite (finite d) = ok d
to_finite _ = err (from_domain (value_error "finite_number"))

abbrev pub to_finite_option : Option Number → Result CaptureError (Option Decimal)
to_finite_option none = ok none
to_finite_option (some v) = to_finite v >>= λ d. ok (some d)

abbrev pub lift : {A : Type 0} → Result Error A → Result CaptureError A
lift (ok a) = ok a
lift (err e) = err (from_domain e)

-- `HoldingValuation(...)` of one held position
unfoldable pub valuation_of : HeldPosition → Result CaptureError HoldingValuation
valuation_of h = do
  value ← to_finite_option h.broker_market_value
  lift (
      validate_status (record {
        quantity = h.quantity;
        status = h.valuation_status;
        broker_market_value = value;
        mark_available_at = h.mark_available_at;
      }))

unfoldable pub holdings_of :
    Dict ℕ HoldingValuation → List HeldPosition → Result CaptureError (Dict ℕ HoldingValuation)
holdings_of out [] = ok out
holdings_of out (h ∷ hs) = valuation_of h >>= λ v. holdings_of (insert h.instrument_id v out) hs

-- `{h.instrument_id: h for h in account.held}`
unfoldable pub held_by_id : Dict ℕ HeldPosition → List HeldPosition → Dict ℕ HeldPosition
held_by_id out [] = out
held_by_id out (h ∷ hs) = held_by_id (insert h.instrument_id h out) hs

-- The broker mark as a candidate, where a holding has an available one.
abbrev mark_of : Bool → Option Number → Option Datetime → List QuoteField
mark_of true (some mark) (some at) =
    record { value = some mark; available_at = at; basis = "BROKER_MARK"; event_at = none } ∷ []
mark_of _ _ _ = []

abbrev mark_field : Option HeldPosition → List QuoteField
mark_field none = []
mark_field (some h) = mark_of (is_available h.valuation_status) h.broker_mark h.mark_available_at

abbrev or_no_fields : Option (List QuoteField) → List QuoteField
or_no_fields none = []
or_no_fields (some fields) = fields

unfoldable pub candidates : Dict ℕ HeldPosition → QuoteBatch → ℕ → List QuoteField
candidates held batch n = mark_field (lookup n held) ++ or_no_fields (lookup n batch.quotes)

-- The three maps that the loop fills.
pub record Prices : Type 0 where
  pub prices : Dict ℕ Number
  pub price_basis : Dict ℕ String
  pub data_as_of : Dict ℕ Datetime

unfoldable pub price_by : Prices → ℕ → Option QuoteField → Result CaptureError Prices
price_by out n none = ok out
price_by out n (some f) = elim f.value [
  | none ↦ err invalid_operation
  | some v ↦ ok (record {
    prices = insert n v out.prices;
    price_basis = insert n f.basis out.price_basis;
    data_as_of = insert n (as_utc f.available_at) out.data_as_of;
  })
]

-- The loop over the decision universe.
unfoldable pub price_all :
    Dict ℕ HeldPosition → QuoteBatch → Datetime → Prices → List ℕ → Result CaptureError Prices
unfolding price_by
price_all held batch at out [] = ok out
price_all held batch at out (n ∷ ns) =
    price_by out n (select_causal (candidates held batch n) at).chosen >>= λ next.
    price_all held batch at next ns

unfoldable pub finite_prices : Dict ℕ Number → Result CaptureError (Dict ℕ Decimal)
finite_prices [] = ok []
finite_prices ((n, v) ∷ d) = to_finite v >>= λ p. finite_prices d >>= λ rest. ok ((n, p) ∷ rest)

abbrev pub Digest : Type 0
Digest = AccountSnapshot → Dict ℕ HoldingValuation → Prices → Datetime → String

-- The fields that `capture` hands to the mint.
abbrev pub gathered :
    Digest
    → AccountSnapshot
    → Dict ℕ HoldingValuation
    → Prices
    → Datetime
    → ℕ
    → Decimal
    → Decimal
    → Decimal
    → Dict ℕ Decimal
    → RiskContext
gathered digest account holdings priced at generation nlv bp mm ps = record {
  holdings = holdings;
  net_liquidation = nlv;
  buying_power = bp;
  maintenance_margin = mm;
  prices = ps;
  price_basis = priced.price_basis;
  data_as_of = priced.data_as_of;
  account_observed_at = account.observed_at;
  as_of = at;
  context_digest = digest account holdings priced at;
  generation = generation;
}

-- `RiskContext._mint(ASSEMBLER_AUTHORITY, ...)` of what was gathered
unfoldable pub seal :
    Digest
    → AccountSnapshot
    → Dict ℕ HoldingValuation
    → Prices
    → Datetime
    → ℕ
    → Result CaptureError RiskContext
seal digest account holdings priced at generation = do
  nlv ← to_finite account.net_liquidation
  bp ← to_finite account.buying_power
  mm ← to_finite account.maintenance_margin
  ps ← finite_prices priced.prices
  lift (
      mint_context (some assembler_authority)
        (gathered digest account holdings priced at generation nlv bp mm ps))

-- `account.generation == quotes.generation == gen_at_seal`
abbrev pub agrees : ℕ → ℕ → ℕ → Bool
agrees a q s = a == q && q == s

abbrev pub universe : List HeldPosition → List ℕ → List ℕ
universe held requested = union (keys (held_by_id [] held)) requested

unfoldable pub assemble :
    Digest → List ℕ → AccountSnapshot → QuoteBatch → Datetime → ℕ → Result CaptureError RiskContext
assemble digest requested account batch at at_seal =
    if not (agrees account.generation batch.generation at_seal)
    then err generation_fence
    else holdings_of [] account.held >>= λ holdings.
        price_all (held_by_id [] account.held) batch at
          (record { prices = []; price_basis = []; data_as_of = [] })
          (universe account.held requested)
        >>= λ priced. seal digest account holdings priced at at_seal

-- `capture`; the feed is asked for the universe only once the account has been read.
unfoldable pub capture :
    Digest
    → List ℕ
    → Result GatewayError AccountSnapshot
    → (List ℕ → QuoteBatch)
    → Datetime
    → ℕ
    → Result CaptureError RiskContext
unfolding assemble
capture digest requested (err e) feed now at_seal = err (from_gateway e)
capture digest requested (ok account) feed now at_seal =
    assemble digest requested account (feed (universe account.held requested)) (as_utc now) at_seal
