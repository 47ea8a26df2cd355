-- ===== src/Gateway/Lifecycle.antt =====
-- The lifecycle over any sequence of calls: a connected gateway has a resolved account, and the
-- generation fences every successful reconnect.
use text.Mathlib.Text.{starts_with}
use ibkr_auto_trader.Prelude.{
  ℕ, ◌+◌, ◌≡◌, refl, true, false, not, Option, none, some, String, List, [], ◌∷◌, arith,
  if◌then◌else◌, Bool-cases, inl, inr, ap, ◌∙◌,
}
use ibkr_auto_trader.Prelude.Result.{Result, ok, err, Result-cases}
use ibkr_auto_trader.Config.{Mode}
use ibkr_auto_trader.Gateway.{
  GatewayError, Gateway, Env, open_session, connect, reconnect, on_disconnect, disconnect, is_paper,
  connect_with_backoff, Outcome, emit, disconnect_stage, connect_stage,
}
use ibkr_auto_trader.Gateway.Accounts.{resolve_account_iff}

-- The calls that a gateway's owner and the broker's events make.
pub data Call : Type 0 where
  connect_call reconnect_call drop_call : Env → Call
  disconnect_call : Call

pub run_call : Gateway → Call → Outcome
run_call g (connect_call env) = connect g env
run_call g (reconnect_call env) = reconnect g env
run_call g (drop_call env) = on_disconnect g env
run_call g disconnect_call = disconnect g

pub run_calls : Gateway → List Call → Gateway
run_calls g [] = g
run_calls g (c ∷ cs) = run_calls (run_call g c).1 cs

-- An account is on record, under PAPER one that starts with DU.
abbrev pub HasAccount : Mode → Option String → Type 0
HasAccount mode none = ⊥
HasAccount mode (some a) = is_paper mode ≡ true → starts_with a "DU" ≡ true

abbrev pub IsHealthy : Gateway → Type 0
IsHealthy g = g.connected ≡ true → HasAccount g.mode g.account

open_session-HasAccount :
    (g : Gateway) (env : Env) (a : String) → open_session g env ≡ ok a → HasAccount g.mode (some a)
unfolding open_session
open_session-HasAccount g env a h =
    elim (Result-cases (connect_with_backoff g env.attempts).result) [
      | inl (u, e) ↦ ((resolve_account_iff g.configured env.accounts g.mode a).0.0 (ground arith)).1
      | inr (x, e) ↦ absurd (ground arith)
    ]

connect_ok :
    (g : Gateway) (env : Env) (a : String)
    → open_session g env ≡ ok a
    → connect g env ≡ (ok tt, emit connect_stage (record g { account = some a; connected = true }))
unfolding connect
connect_ok g env a e = rw (connect, e)

connect_err :
    (g : Gateway) (env : Env) (x : GatewayError)
    → open_session g env ≡ err x
    → connect g env ≡ (err x, g)
unfolding connect
connect_err g env x e = rw (connect, e)

reconnect_ok :
    (g : Gateway) (env : Env) (a : String)
    → open_session g env ≡ ok a
    → reconnect g env ≡ (
      ok tt,
      emit connect_stage
          (record g { account = some a; generation = g.generation + 1; connected = true }),
    )
unfolding reconnect
reconnect_ok g env a e = rw (reconnect, e)

reconnect_err :
    (g : Gateway) (env : Env) (x : GatewayError)
    → open_session g env ≡ err x
    → reconnect g env ≡ (err x, record g { connected = false })
unfolding reconnect
reconnect_err g env x e = rw (reconnect, e)

connect-IsHealthy : (g : Gateway) (env : Env) → IsHealthy g → IsHealthy (connect g env).1
connect-IsHealthy g env h = elim (Result-cases (open_session g env)) [
  | inl (a, e) ↦ rw (connect_ok g env a e) (λ c. open_session-HasAccount g env a e)
  | inr (x, e) ↦ rw (connect_err g env x e) h
]

reconnect-IsHealthy : (g : Gateway) (env : Env) → IsHealthy (reconnect g env).1
reconnect-IsHealthy g env = elim (Result-cases (open_session g env)) [
  | inl (a, e) ↦ rw (reconnect_ok g env a e) (λ c. open_session-HasAccount g env a e)
  | inr (x, e) ↦ rw (reconnect_err g env x e) (λ c. absurd (ground arith))
]

-- What `on_disconnect` leaves before it reconnects.
abbrev pub dropped : Gateway → Gateway
dropped g = emit disconnect_stage (record g { connected = false })

on_disconnect_up :
    (g : Gateway) (env : Env) → g.connected ≡ true → on_disconnect g env ≡ reconnect (dropped g) env
unfolding on_disconnect
on_disconnect_up g env up = ap (λ b. if not b then (ok tt, g) else reconnect (dropped g) env) up

on_disconnect_down :
    (g : Gateway) (env : Env) → g.connected ≡ false → on_disconnect g env ≡ (ok tt, g)
unfolding on_disconnect
on_disconnect_down g env down =
    ap (λ b. if not b then (ok tt, g) else reconnect (dropped g) env) down

run_call-IsHealthy : (g : Gateway) (c : Call) → IsHealthy g → IsHealthy (run_call g c).1
unfolding run_call
run_call-IsHealthy g (connect_call env) h = connect-IsHealthy g env h
run_call-IsHealthy g (reconnect_call env) h = reconnect-IsHealthy g env
run_call-IsHealthy g (drop_call env) h = elim (Bool-cases g.connected) [
  | inl up ↦ rw (on_disconnect_up g env up) (reconnect-IsHealthy (dropped g) env)
  | inr down ↦ rw (on_disconnect_down g env down) h
]
run_call-IsHealthy g disconnect_call h = unfold disconnect in λ c. absurd (ground arith)

-- Over any sequence of connects, reconnects, dropped connections and disconnects, whatever the
-- broker answers, a gateway that is connected has its account resolved, and under PAPER the
-- account's name starts with DU.
-- The gateway that the calls start from is such a one.
pub run_calls-IsHealthy : (g : Gateway) (cs : List Call) → IsHealthy g → IsHealthy (run_calls g cs)
unfolding run_calls
run_calls-IsHealthy g [] h = h
run_calls-IsHealthy g (c ∷ cs) h =
    run_calls-IsHealthy (run_call g c).1 cs (run_call-IsHealthy g c h)

abbrev pub one_if_ok : Result GatewayError String → ℕ
one_if_ok (ok a) = 1
one_if_ok (err e) = 0

-- Whether a call is a reconnect that opens and resolves.
abbrev pub reopens : Gateway → Call → ℕ
reopens g (connect_call env) = 0
reopens g (reconnect_call env) = one_if_ok (open_session g env)
reopens g (drop_call env) = if g.connected then one_if_ok (open_session g env) else 0
reopens g disconnect_call = 0

pub count_reopens : Gateway → List Call → ℕ
count_reopens g [] = 0
count_reopens g (c ∷ cs) = reopens g c + count_reopens (run_call g c).1 cs

reconnect-generation :
    (g : Gateway) (env : Env)
    → (reconnect g env).1.generation ≡ g.generation + one_if_ok (open_session g env)
reconnect-generation g env = elim (Result-cases (open_session g env)) [
  | inl (a, e) ↦ rw (reconnect_ok g env a e, e)
  | inr (x, e) ↦ rw (reconnect_err g env x e, e) (omega arith)
]

connect-generation : (g : Gateway) (env : Env) → (connect g env).1.generation ≡ g.generation
connect-generation g env = elim (Result-cases (open_session g env)) [
  | inl (a, e) ↦ rw (connect_ok g env a e)
  | inr (x, e) ↦ rw (connect_err g env x e)
]

open_session-dropped : (g : Gateway) (env : Env) → open_session (dropped g) env ≡ open_session g env
unfolding open_session connect_with_backoff
open_session-dropped g env = refl

run_call-generation :
    (g : Gateway) (c : Call) → (run_call g c).1.generation ≡ g.generation + reopens g c
unfolding run_call
run_call-generation g (connect_call env) = connect-generation g env ∙ omega arith
run_call-generation g (reconnect_call env) = reconnect-generation g env
run_call-generation g (drop_call env) = elim (Bool-cases g.connected) [
  | inl up ↦ rw (on_disconnect_up g env up) (
      let r = reconnect-generation (dropped g) env in
      let d = open_session-dropped g env in ground arith)
  | inr down ↦ rw (on_disconnect_down g env down) (ground arith)
]
run_call-generation g disconnect_call = unfold disconnect in omega arith

-- Over any sequence of calls the generation grows by exactly the number of reconnects that opened
-- and resolved an account, so an unchanged generation means that there was none.
pub run_calls-generation :
    (g : Gateway) (cs : List Call) → (run_calls g cs).generation ≡ g.generation + count_reopens g cs
unfolding run_calls count_reopens
run_calls-generation g [] = omega arith
run_calls-generation g (c ∷ cs) =
    let h = run_call-generation g c in
    let ih = run_calls-generation (run_call g c).1 cs in omega arith
