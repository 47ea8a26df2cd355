-- ===== src/Tests/MarketData.antt =====
-- Quote fields of several bases around a decision.
use ibkr_auto_trader.Prelude.{ℕ, ◌≡◌, ◌≤◌, refl, not, none, some, List, [], ◌∷◌, All, keep_if}
use ibkr_auto_trader.Prelude.Int.{pos, ◌-ℤ◌}
use ibkr_auto_trader.Domain.{Datetime, as_utc, not_later}
use ibkr_auto_trader.MarketData.{
  QuoteField, rank, order_by_precedence, select_causal, is_causal, scan, visit,
}
use ibkr_auto_trader.MarketData.Order.{IsRanked, of_rank, order_by_precedence_lem}
use ibkr_auto_trader.MarketData.Causal.{IsCausal, select_causal_lem}
use ibkr_auto_trader.Decimal.{finite}
use ibkr_auto_trader.Fixtures.{noon, cents}

abbrev later : Datetime
later = record { wall = pos 1001; offset = some (pos 0) }

abbrev close_quote : QuoteField
close_quote = record {
  value = some (finite (cents 9900));
  available_at = noon;
  basis = "CLOSE";
  event_at = none;
}

abbrev last_quote : QuoteField
last_quote = record close_quote { basis = "LAST" }

abbrev late_mark : QuoteField
late_mark = record close_quote { basis = "BROKER_MARK"; available_at = later }

abbrev fields : List QuoteField
fields = close_quote ∷ last_quote ∷ late_mark ∷ []

late_mark_withheld :
    select_causal fields noon ≡ record { chosen = some last_quote; withheld = late_mark ∷ [] }
unfolding select_causal order_by_precedence is_causal as_utc scan visit not_later ◌-ℤ◌
late_mark_withheld = refl

order_by_precedence_lem_example :
    IsRanked (order_by_precedence fields)
    × ((n : ℕ) → of_rank n (order_by_precedence fields) ≡ of_rank n fields)
order_by_precedence_lem_example = order_by_precedence_lem fields

select_causal_lem_example :
    ((f : QuoteField)
      → (select_causal fields noon).chosen ≡ some f
      → IsCausal noon f × All (λ g. IsCausal noon g → rank f ≤ rank g) fields)
    × ((select_causal fields noon).chosen ≡ none → All (λ g. ¬ (IsCausal noon g)) fields)
    × ((select_causal fields noon).withheld
        ≡ keep_if (λ g. not (is_causal (as_utc noon) g)) (order_by_precedence fields))
select_causal_lem_example = select_causal_lem fields noon
