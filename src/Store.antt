-- ===== src/Store.antt =====
-- src/ibkr_trader/state/store.py: the durable state behind the store's methods. Each SQLite table
-- is a list of rows, each method one transaction under the store's lock. A `Decimal` is kept as
-- its text, which reads back as the same value, so the rows hold the value itself. A failing
-- database, the file's location and the migration of older schemas are not modelled.
pub mod Positions
pub mod Ledger
use Prim.Native.Nat.{compare, Ordering}
use ibkr_auto_trader.Prelude.{
  ℕ, ◌+◌, Bool, true, false, ◌&&◌, Option, none, some, String, List, [], ◌∷◌, ◌++◌, max, not, any,
  ◌==◌, if◌then◌else◌, Key, nat_key, text_key, keep_if, find_first, map,
}
use ibkr_auto_trader.Prelude.Dict.{Dict, lookup, insert, contains}
use ibkr_auto_trader.Prelude.Int.{ℤ, pos}
use ibkr_auto_trader.Decimal.{Decimal, dec_zero, add_prec}

-- A row of `positions`; a legacy row has no con_id.
pub record Row : Type 0 where
  pub row_id : ℕ
  pub con_id : Option ℕ
  pub symbol : String
  pub quantity : ℤ

pub record StateStore : Type 0 where
  pub rows : List Row
  pub daily_pnl : Dict ℕ Decimal
  pub session_equity : Dict ℕ Decimal
  pub order_keys : List String

-- `WHERE con_id=?`; NULL equals nothing.
abbrev pub has_id : ℕ → Row → Bool
has_id n r = elim r.con_id [ none ↦ false | some m ↦ n == m ]

-- `WHERE symbol=? AND con_id IS NULL`
abbrev pub is_legacy : String → Row → Bool
is_legacy s r = text_key.same r.symbol s && elim r.con_id [ none ↦ true | some m ↦ false ]

-- SQLite's next `INTEGER PRIMARY KEY`.
abbrev pub next_id : List Row → ℕ
next_id [] = 1
next_id (r ∷ rs) = max (r.row_id + 1) (next_id rs)

abbrev pub update_row : ℕ → String → ℤ → Row → Row
update_row n s q r = if has_id n r then record r { symbol = s; quantity = q } else r

-- `INSERT ... ON CONFLICT(con_id) DO UPDATE`
abbrev pub upsert_row : ℕ → String → ℤ → List Row → List Row
upsert_row n s q rs =
    if any (has_id n) rs
    then map (update_row n s q) rs
    else rs ++ (record { row_id = next_id rs; con_id = some n; symbol = s; quantity = q } ∷ [])

unfoldable pub upsert_position : StateStore → ℕ → String → ℤ → StateStore
upsert_position st n s q = record st {
  rows = upsert_row n s q (keep_if (λ r. not (is_legacy s r)) st.rows);
}

abbrev pub quantity_of : Option Row → ℤ
quantity_of none = pos 0
quantity_of (some r) = r.quantity

unfoldable pub position : StateStore → ℕ → ℤ
position st n = quantity_of (find_first (has_id n) st.rows)

unfoldable pub positions_of : List Row → Dict ℕ ℤ
positions_of [] = []
positions_of (r ∷ rs) = elim r.con_id [
  | none ↦ positions_of rs
  | some n ↦ (n, r.quantity) ∷ positions_of rs
]

unfoldable pub all_positions : StateStore → Dict ℕ ℤ
all_positions st = positions_of st.rows

-- The id of the latest row with the symbol: `ORDER BY row_id DESC LIMIT 1`.
newer : Option Row → Row → Option Row
newer none r = some r
newer (some best) r = elim (compare best.row_id r.row_id) [ Ordering.lt ↦ some r | _ ↦ some best ]

unfoldable pub latest : String → List Row → Option Row → Option Row
unfolding newer
latest s [] best = best
latest s (r ∷ rs) best =
    latest s rs (if text_key.same r.symbol s && not (is_legacy s r) then newer best r else best)

unfoldable pub instrument_id_for_symbol : StateStore → String → Option ℕ
unfolding latest
instrument_id_for_symbol st s = elim (latest s st.rows none) [ none ↦ none | some r ↦ r.con_id ]

unfoldable pub symbol_for_instrument_id : StateStore → ℕ → Option String
symbol_for_instrument_id st n = elim (find_first (has_id n) st.rows) [
  | none ↦ none
  | some r ↦ some r.symbol
]

-- `INSERT OR IGNORE`, then the value that the table now has
unfoldable pub set_session_start_equity : StateStore → ℕ → Decimal → StateStore × Decimal
set_session_start_equity st day equity = elim (lookup day st.session_equity) [
  | none ↦ (record st { session_equity = insert day equity st.session_equity }, equity)
  | some first ↦ (st, first)
]

unfoldable pub session_start_equity : StateStore → ℕ → Option Decimal
session_start_equity st day = lookup day st.session_equity

abbrev pub pnl_prec : ℕ
pnl_prec = 50

abbrev pub or_zero : Option Decimal → Decimal
or_zero none = dec_zero
or_zero (some d) = d

unfoldable pub realized_pnl : StateStore → ℕ → Decimal
realized_pnl st day = or_zero (lookup day st.daily_pnl)

unfoldable pub add_realized_pnl : StateStore → Decimal → ℕ → StateStore × Decimal
unfolding realized_pnl
add_realized_pnl st delta day =
    let total = add_prec pnl_prec (or_zero (lookup day st.daily_pnl)) delta in
    (record st { daily_pnl = insert day total st.daily_pnl }, total)

-- Whether the key was new.
unfoldable pub record_order_key : StateStore → String → StateStore × Bool
record_order_key st key =
    if contains key st.order_keys
    then (st, false)
    else (record st { order_keys = key ∷ st.order_keys }, true)

unfoldable pub has_order_key : StateStore → String → Bool
has_order_key st key = contains key st.order_keys
