-- ===== src/MarketData.antt =====
-- src/ibkr_trader/ibkr/marketdata.py and fake_marketdata.py: candidate fields in their order of
-- precedence, and the causal gate. A field's value is what `Decimal(str(v))` makes of it, which the
-- assembler asks for: a number, or an exception.
pub mod Order
pub mod Causal
use ibkr_auto_trader.Prelude.{
  ℕ, Bool, true, false, Option, none, some, String, List, [], ◌∷◌, ◌++◌, leb, if◌then◌else◌, Key,
  nat_key, text_key,
}
use ibkr_auto_trader.Prelude.Dict.{Dict, lookup, insert}
use ibkr_auto_trader.Decimal.{Number}
use ibkr_auto_trader.Domain.{Datetime, as_utc, not_later}

pub record QuoteField : Type 0 where
  pub value : Option Number
  pub available_at : Datetime
  pub basis : String
  pub event_at : Option Datetime

pub record QuoteBatch : Type 0 where
  pub quotes : Dict ℕ (List QuoteField)
  pub generation : ℕ
  pub collected_at : Datetime

-- The position in `BASIS_PRECEDENCE`, unknown bases last.
abbrev pub rank_of : String → ℕ
rank_of basis =
    if text_key.same basis "BROKER_MARK"
    then 0
    else if text_key.same basis "LAST"
    then 1
    else if text_key.same basis "CLOSE"
    then 2
    else 3

abbrev pub rank : QuoteField → ℕ
rank f = rank_of f.basis

-- `sorted` is stable: a field goes before the first one of a rank that is not lower.
unfoldable pub place : QuoteField → List QuoteField → List QuoteField
place f [] = f ∷ []
place f (g ∷ gs) = if leb (rank f) (rank g) then f ∷ g ∷ gs else g ∷ place f gs

unfoldable pub order_by_precedence : List QuoteField → List QuoteField
unfolding place
order_by_precedence [] = []
order_by_precedence (f ∷ fs) = place f (order_by_precedence fs)

pub record CausalSelection : Type 0 where
  pub chosen : Option QuoteField
  pub withheld : List QuoteField

-- `_as_utc(field.available_at) <= seal`
unfoldable pub is_causal : Datetime → QuoteField → Bool
is_causal seal f = not_later (as_utc f.available_at) seal

abbrev first_of_two : Option QuoteField → QuoteField → Option QuoteField
first_of_two none f = some f
first_of_two (some g) f = some g

-- The body of the loop of `select_causal`, and the loop.
unfoldable pub visit : Datetime → QuoteField → CausalSelection → CausalSelection
visit seal f acc =
    if is_causal seal f
    then record acc { chosen = first_of_two acc.chosen f }
    else record acc { withheld = acc.withheld ++ f ∷ [] }

unfoldable pub scan : Datetime → List QuoteField → CausalSelection → CausalSelection
scan seal [] acc = acc
scan seal (f ∷ fs) acc = scan seal fs (visit seal f acc)

unfoldable pub select_causal : List QuoteField → Datetime → CausalSelection
select_causal fields decision_at =
    scan (as_utc decision_at) (order_by_precedence fields) (record { chosen = none; withheld = [] })

-- `if fields: out[id] = fields`
abbrev keep_fields :
    ℕ → Option (List QuoteField) → Dict ℕ (List QuoteField) → Dict ℕ (List QuoteField)
keep_fields n none out = out
keep_fields n (some []) out = out
keep_fields n (some (f ∷ fs)) out = insert n (f ∷ fs) out

-- `FakeMarketDataFeed._fetch_candidates`
unfoldable pub fetch_candidates :
    Dict ℕ (List QuoteField) → List ℕ → Dict ℕ (List QuoteField) → Dict ℕ (List QuoteField)
fetch_candidates candidates [] out = out
fetch_candidates candidates (n ∷ ns) out =
    fetch_candidates candidates ns (keep_fields n (lookup n candidates) out)

order_all : Dict ℕ (List QuoteField) → Dict ℕ (List QuoteField)
unfolding order_by_precedence
order_all [] = []
order_all ((n, fields) ∷ d) = (n, order_by_precedence fields) ∷ order_all d

-- `_BaseMarketDataFeed.quotes` over the candidates that a feed fetched
unfoldable pub quotes_of : Dict ℕ (List QuoteField) → ℕ → Datetime → QuoteBatch
unfolding order_all
quotes_of raw generation now = record {
  quotes = order_all raw;
  generation = generation;
  collected_at = now;
}
