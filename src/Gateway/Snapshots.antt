-- ===== src/Gateway/Snapshots.antt =====
-- `snapshot`: the account's fields read in full or refused, then the durable cache reconciled.
use mathlib.Core.Path.{subst}
use ibkr_auto_trader.Prelude.{
  ℕ, ◌≡◌, ◌≢◌, refl, Bool, true, false, not, ◌||◌, Option, none, some, String, List, [], arith, ltb,
  if◌then◌else◌, text_key, Bool-cases, inl, inr, sym, ◌∙◌,
}
use ibkr_auto_trader.Prelude.Dict.{Dict}
use ibkr_auto_trader.Prelude.Int.{ℤ, ◌-ℤ◌, abs}
use ibkr_auto_trader.Prelude.Result.{Result, ok, err}
use ibkr_auto_trader.Decimal.{Number}
use ibkr_auto_trader.Domain.{Datetime, utc_wall, is_none, available, unavailable}
use ibkr_auto_trader.Session.{get_or_zero}
use ibkr_auto_trader.Store.{StateStore, position}
use ibkr_auto_trader.Store.Positions.{HasUniqueIds}
use ibkr_auto_trader.Gateway.{
  GatewayError, not_connected, snapshot_incomplete, SummaryValue, field_of, missing_tags,
  all_fields, build_account_snapshot, AccountSnapshot, HeldPosition, from_broker, Gateway, emit,
  reconcile_stage, clock_skew_stage, snapshot_stage, Stage,
}
use ibkr_auto_trader.Gateway.Reconcile.{reconcile, diverged, reconcile_lem, broker_quantities}

-- A holding counts as available exactly if its value and its mark's time are both there, and an
-- unavailable one keeps neither of them nor a price.
pub from_broker_lem :
    (n : ℕ) (s : String) (q : ℤ) (value price : Option Number) (mark : Option Datetime)
    → let h = from_broker n s q value price mark in
      (h.instrument_id ≡ n)
      × (h.quantity ≡ q)
      × (h.valuation_status ≡ available
          → (h.broker_market_value ≡ value)
            × (value ≢ none)
            × (h.mark_available_at ≡ mark)
            × (mark ≢ none))
      × (h.valuation_status ≡ unavailable
          → (h.broker_market_value ≡ none)
            × (h.broker_mark ≡ none)
            × (h.mark_available_at ≡ none)
            × (is_none value ≡ false → mark ≡ none))
unfolding from_broker
from_broker_lem n s q none price mark =
    (refl, refl, λ e. absurd (ground arith), λ e. (refl, refl, refl, λ p. absurd (ground arith)))
from_broker_lem n s q (some v) price none =
    (refl, refl, λ e. absurd (ground arith), λ e. (refl, refl, refl, λ p. refl))
from_broker_lem n s q (some v) price (some t) = (
  refl,
  refl,
  λ e. (refl, λ p. absurd (ground arith), refl, λ p. absurd (ground arith)),
  λ e. absurd (ground arith),
)

-- Each money field is what its tag parses to.
pub record IsRead (summary : Dict String SummaryValue) (held : List HeldPosition) (at : Datetime)
    (generation : ℕ) (s : AccountSnapshot) : Type 0 where
  pub reads_value : field_of summary "NetLiquidation" ≡ some s.net_liquidation
  pub reads_power : field_of summary "BuyingPower" ≡ some s.buying_power
  pub reads_margin : field_of summary "MaintMarginReq" ≡ some s.maintenance_margin
  pub keeps_held : s.held ≡ held
  pub keeps_time : s.observed_at ≡ at
  pub keeps_generation : s.generation ≡ generation

all_fields_ok :
    (nlv bp mm : Option Number) (held : List HeldPosition) (at : Datetime) (generation : ℕ)
    (missing : List String) (s : AccountSnapshot)
    → all_fields nlv bp mm held at generation missing ≡ ok s
    → (nlv ≡ some s.net_liquidation)
      × (bp ≡ some s.buying_power)
      × (mm ≡ some s.maintenance_margin)
      × (s.held ≡ held)
      × (s.observed_at ≡ at)
      × (s.generation ≡ generation)
all_fields_ok none bp mm held at generation missing s h = absurd (ground arith)
all_fields_ok (some a) none mm held at generation missing s h = absurd (ground arith)
all_fields_ok (some a) (some b) none held at generation missing s h = absurd (ground arith)
all_fields_ok (some a) (some b) (some c) held at generation missing s h =
    (ground arith, ground arith, ground arith, ground arith, ground arith, ground arith)

all_fields_err :
    (nlv bp mm : Option Number) (held : List HeldPosition) (at : Datetime) (generation : ℕ)
    (missing : List String) (e : GatewayError)
    → all_fields nlv bp mm held at generation missing ≡ err e
    → (e ≡ snapshot_incomplete missing) × ((is_none nlv || is_none bp || is_none mm) ≡ true)
all_fields_err none bp mm held at generation missing e h = (ground arith, ground arith)
all_fields_err (some a) none mm held at generation missing e h = (ground arith, ground arith)
all_fields_err (some a) (some b) none held at generation missing e h = (ground arith, ground arith)
all_fields_err (some a) (some b) (some c) held at generation missing e h = absurd (ground arith)

-- A snapshot has every money field as its tag parses to, with the holdings, the time and the
-- generation it was given; it is refused only if a tag is missing or does not parse, by the error
-- that lists all such tags.
pub build_account_snapshot_lem :
    (summary : Dict String SummaryValue) (held : List HeldPosition) (at : Datetime) (generation : ℕ)
    → ((s : AccountSnapshot)
        → build_account_snapshot summary held at generation ≡ ok s
        → IsRead summary held at generation s)
      × ((e : GatewayError)
          → build_account_snapshot summary held at generation ≡ err e
          → (e ≡ snapshot_incomplete (missing_tags summary)) × (missing_tags summary ≢ []))
unfolding build_account_snapshot
build_account_snapshot_lem summary held at generation =
    let nlv = field_of summary "NetLiquidation" in
    let bp = field_of summary "BuyingPower" in
    let mm = field_of summary "MaintMarginReq" in
    (
      λ s h.
          let f = all_fields_ok nlv bp mm held at generation (missing_tags summary) s h in
          record {
            reads_value = f.0;
            reads_power = f.1;
            reads_margin = f.2;
            keeps_held = f.3;
            keeps_time = f.4;
            keeps_generation = f.5;
          },
      λ e h.
          let f = all_fields_err nlv bp mm held at generation (missing_tags summary) e h in
          (f.0, λ none_missing. let m = f.1 in absurd (ground arith)),
    )

-- What one `snapshot` reads from the broker and the clock, and the threshold for the skew, in
-- microseconds.
pub record Reading : Type 0 where
  pub summary : Dict String SummaryValue
  pub held : List HeldPosition
  pub observed_at : Datetime
  pub broker_time : Option Datetime
  pub skew_threshold : ℕ

-- `_check_skew`'s test
unfoldable pub is_skewed : Reading → Bool
is_skewed r = elim r.broker_time [
  | none ↦ false
  | some t ↦ ltb r.skew_threshold (abs (utc_wall t -ℤ utc_wall r.observed_at))
]

abbrev pub emit_if : Bool → Stage → Gateway → Gateway
emit_if b stage g = if b then emit stage g else g

abbrev pub Taken : Type 0
Taken = Result GatewayError AccountSnapshot × (Gateway × StateStore)

-- The rest of `snapshot` once the account is read: reconciling and reporting.
unfoldable pub report : Gateway → StateStore → Reading → Result GatewayError AccountSnapshot → Taken
report g st r (err e) = (err e, (g, st))
report g st r (ok s) =
    let (st', d) = reconcile st r.held in
    (
      ok s,
      (
        emit snapshot_stage
            (emit_if (is_skewed r) clock_skew_stage (emit_if (diverged d) reconcile_stage g)),
        st',
      ),
    )

-- `snapshot` of a gateway with a store
unfoldable pub snapshot : Gateway → StateStore → Reading → Taken
snapshot g st r =
    if not g.connected
    then (err not_connected, (g, st))
    else report g st r (build_account_snapshot r.summary r.held r.observed_at g.generation)

abbrev pub IsTaken : Gateway → StateStore → Reading → Taken → Type 0
IsTaken g st r (result, (g', st')) =
    ((s : AccountSnapshot)
      → result ≡ ok s
      → (g.connected ≡ true)
        × IsRead r.summary r.held r.observed_at g.generation s
        × ((n : ℕ) → position st' n ≡ get_or_zero (broker_quantities [] r.held) n))
    × ((e : GatewayError) → result ≡ err e → (g' ≡ g) × (st' ≡ st))
    × (g'.connected ≡ g.connected)
    × (g'.account ≡ g.account)
    × (g'.generation ≡ g.generation)

emit_if_keeps :
    (b : Bool) (stage : Stage) (g : Gateway)
    → let g' = emit_if b stage g in
      (g'.connected ≡ g.connected) × (g'.account ≡ g.account) × (g'.generation ≡ g.generation)
emit_if_keeps true stage g = (refl, refl, refl)
emit_if_keeps false stage g = (refl, refl, refl)

report-IsTaken :
    (g : Gateway) (st : StateStore) (r : Reading) (result : Result GatewayError AccountSnapshot)
    → HasUniqueIds st
    → g.connected ≡ true
    → build_account_snapshot r.summary r.held r.observed_at g.generation ≡ result
    → IsTaken g st r (report g st r result)
unfolding report
report-IsTaken g st r (err e) us up h =
    (λ s p. absurd (ground arith), λ x p. (refl, refl), refl, refl, refl)
report-IsTaken g st r (ok s) us up h =
    let b = build_account_snapshot_lem r.summary r.held r.observed_at g.generation in
    let g1 = emit_if (diverged (reconcile st r.held).1) reconcile_stage g in
    let k1 = emit_if_keeps (diverged (reconcile st r.held).1) reconcile_stage g in
    let k2 = emit_if_keeps (is_skewed r) clock_skew_stage g1 in
    (
      λ s' p. (up, b.0 s' (h ∙ p), λ n. (reconcile_lem st r.held n us).0),
      λ x p. absurd (ground arith),
      k2.0 ∙ k1.0,
      k2.1 ∙ k1.1,
      k2.2 ∙ k1.2,
    )

-- A snapshot is given only while connected, read in full under the gateway's generation, and then
-- the durable cache holds what the broker reported; a refusal leaves the gateway and the cache as
-- they were, and neither outcome changes the connection, the account or the generation.
-- The store's ids are unique before.
pub snapshot_lem :
    (g : Gateway) (st : StateStore) (r : Reading)
    → HasUniqueIds st
    → IsTaken g st r (snapshot g st r)
unfolding snapshot
snapshot_lem g st r us = elim (Bool-cases g.connected) [
  | inl up ↦
      subst (λ b. IsTaken g st r (if not b then (err not_connected, (g, st)) else read)) (sym up)
        (report-IsTaken g st r _ us up refl)
  | inr down ↦
      subst (λ b. IsTaken g st r (if not b then (err not_connected, (g, st)) else read)) (sym down)
        (λ s p. absurd (ground arith), λ x p. (refl, refl), refl, refl, refl)
]
  where
    read : Taken
    read = report g st r (build_account_snapshot r.summary r.held r.observed_at g.generation)
