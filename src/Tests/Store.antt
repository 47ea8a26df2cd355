-- ===== src/Tests/Store.antt =====
-- The durable store: positions, session baselines, realized P&L and idempotency keys.
use ibkr_auto_trader.Prelude.{
  ℕ, ◌≡◌, refl, none, some, String, List, [], ◌∷◌, if◌then◌else◌, nat_key, text_key,
}
use ibkr_auto_trader.Prelude.Dict.{contains}
use ibkr_auto_trader.Prelude.Int.{pos, negsuc}
use ibkr_auto_trader.Store.{
  StateStore, upsert_position, position, all_positions, session_start_equity, has_order_key,
  instrument_id_for_symbol, positions_of,
}
use ibkr_auto_trader.Store.Positions.{held_in, all_positions-position, HasUniqueIds}
use ibkr_auto_trader.Store.Ledger.{claims, claims_lem}
use ibkr_auto_trader.Fixtures.{cents}

abbrev tomorrow : ℕ
tomorrow = 20001

abbrev tried : List String
tried = "k2" ∷ "k1" ∷ "k2" ∷ []

-- A legacy row of ABC, and a short position of its own id.
abbrev store : StateStore
store = record {
  rows =
      record { row_id = 1; con_id = none; symbol = "ABC"; quantity = pos 9 }
      ∷ record { row_id = 2; con_id = some 7; symbol = "XYZ"; quantity = negsuc 4 }
      ∷ [];
  daily_pnl = (20000, cents 150) ∷ [];
  session_equity = (20000, cents 1000000) ∷ [];
  order_keys = "k1" ∷ [];
}

legacy_replaced : position (upsert_position store 8 "ABC" (pos 3)) 8 ≡ pos 3
unfolding upsert_position position
legacy_replaced = refl

renamed : instrument_id_for_symbol (upsert_position store 7 "NEW" (pos 3)) "NEW" ≡ some 7
unfolding upsert_position instrument_id_for_symbol
renamed = refl

all_positions-position_example : held_in (all_positions store) 7 ≡ position store 7
all_positions-position_example = all_positions-position store 7

store-HasUniqueIds : HasUniqueIds store
unfolding all_positions positions_of
store-HasUniqueIds = (tt, tt)

next_day_is_fresh : session_start_equity store 20001 ≡ none
unfolding session_start_equity
next_day_is_fresh = refl

claims_lem_example :
    claims store tried "k2"
    ≡ (if has_order_key store "k2" then 0 else if contains "k2" tried then 1 else 0)
claims_lem_example = claims_lem store tried "k2"
