-- ===== src/Store/Ledger.antt =====
-- The day-keyed money records and the idempotency keys.
use ibkr_auto_trader.Prelude.{
  ℕ, ◌≡◌, ◌≢◌, refl, true, none, some, String, List, [], ◌∷◌, arith, not, if◌then◌else◌, nat_key,
  text_key, ◌+◌, inl, inr, Option-cases,
}
use ibkr_auto_trader.Prelude.Dict.{lookup, contains, lookup-insert}
use ibkr_auto_trader.Decimal.{Decimal, add_prec}
use ibkr_auto_trader.Store.{
  StateStore, set_session_start_equity, session_start_equity, or_zero, realized_pnl,
  add_realized_pnl, pnl_prec, record_order_key, has_order_key,
}

-- The first baseline of a session stands: a capture returns what is then on record, keeps a value
-- that was there, stores its own only where none was, and touches no other session.
pub set_session_start_equity_lem :
    (st : StateStore) (day other : ℕ) (equity : Decimal)
    → let (st', e0) = set_session_start_equity st day equity in
      (session_start_equity st' day ≡ some e0)
      × ((old : Decimal) → session_start_equity st day ≡ some old → (e0 ≡ old) × (st' ≡ st))
      × (session_start_equity st day ≡ none → e0 ≡ equity)
      × (other ≢ day → session_start_equity st' other ≡ session_start_equity st other)
unfolding set_session_start_equity session_start_equity
set_session_start_equity_lem st day other equity =
    elim (Option-cases (lookup day st.session_equity)) [
      | inl fresh ↦ (
        ground (arith, lookup-insert day day equity st.session_equity),
        λ old e. ground arith,
        λ e. ground arith,
        λ ne. ground (arith, lookup-insert day other equity st.session_equity),
      )
      | inr (first, captured) ↦
          (ground arith, λ old e. ground arith, λ e. ground arith, λ ne. ground arith)
    ]

-- However often a session is captured again, at whatever equity, the baseline is the first one.
pub captures : StateStore → ℕ → List Decimal → StateStore
captures st day [] = st
captures st day (e ∷ es) = captures (set_session_start_equity st day e).0 day es

captures_keep :
    (st : StateStore) (day : ℕ) (es : List Decimal) (old : Decimal)
    → session_start_equity st day ≡ some old
    → session_start_equity (captures st day es) day ≡ some old
unfolding captures
captures_keep st day [] old h = h
captures_keep st day (e ∷ es) old h =
    captures_keep (set_session_start_equity st day e).0 day es old
      (let l = set_session_start_equity_lem st day day e in ground (arith, l.0, l.1 old h))

-- A baseline cannot be re-anchored: after a first capture, any further captures of the session
-- leave it at the first value.
pub captures_first :
    (st : StateStore) (day : ℕ) (e : Decimal) (es : List Decimal)
    → session_start_equity st day ≡ none
    → session_start_equity (captures st day (e ∷ es)) day ≡ some e
unfolding captures
captures_first st day e es h =
    let l = set_session_start_equity_lem st day day e in
    captures_keep (set_session_start_equity st day e).0 day es e (ground (arith, l.0, l.2 h))

-- Adding to a day's realized P&L returns and stores the old total plus the amount, at 50 digits,
-- and no other day's total moves.
pub add_realized_pnl_lem :
    (st : StateStore) (delta : Decimal) (day other : ℕ)
    → let (st', total) = add_realized_pnl st delta day in
      (total ≡ add_prec pnl_prec (realized_pnl st day) delta)
      × (realized_pnl st' day ≡ total)
      × (other ≢ day → realized_pnl st' other ≡ realized_pnl st other)
unfolding add_realized_pnl realized_pnl
add_realized_pnl_lem st delta day other =
    let total = add_prec pnl_prec (or_zero (lookup day st.daily_pnl)) delta in
    (
      refl,
      ground (arith, lookup-insert day day total st.daily_pnl),
      λ ne. ground (arith, lookup-insert day other total st.daily_pnl),
    )

-- After an attempt the key is on record, and no other key is.
has_order_key-record :
    (st : StateStore) (k key : String)
    → has_order_key (record_order_key st k).0 key
      ≡ (if text_key.same key k then true else has_order_key st key)
unfolding record_order_key has_order_key
has_order_key-record st k key = ground (arith, text_key.same_iff key k)

fresh_iff : (st : StateStore) (k : String) → (record_order_key st k).1 ≡ not (has_order_key st k)
unfolding record_order_key has_order_key
fresh_iff st k = ground arith

-- How many of the attempts to record one key were told that it is new, and the store after them.
pub claims : StateStore → List String → String → ℕ
claims st [] key = 0
claims st (k ∷ ks) key =
    let (st', fresh) = record_order_key st k in
    let rest = claims st' ks key in
    if text_key.same k key then (if fresh then 1 + rest else rest) else rest

-- Among any sequence of attempts on any keys, a key is won exactly once if it is tried and was not
-- on record, and never if it was.
pub claims_lem :
    (st : StateStore) (ks : List String) (key : String)
    → claims st ks key ≡ (if has_order_key st key then 0 else if contains key ks then 1 else 0)
unfolding claims
claims_lem st [] key = unfold has_order_key in ground arith
claims_lem st (k ∷ ks) key = ground (
  arith,
  claims_lem (record_order_key st k).0 ks key,
  has_order_key-record st k key,
  fresh_iff st k,
  text_key.same_iff k key,
  text_key.same_iff key k,
)
