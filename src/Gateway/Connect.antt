-- ===== src/Gateway/Connect.antt =====
-- The lifecycle: connecting with bounded backoff, reconnecting, dropping, disconnecting.
use Prim.Native.Nat.{min}
use ibkr_auto_trader.Prelude.{
  ℕ, zero, suc, ◌+◌, ◌*◌, ◌^◌, Bool, true, false, Option, some, String, List, [], ◌∷◌, ◌++◌, not,
  if◌then◌else◌, text_key,
}
use ibkr_auto_trader.Prelude.Result.{Result, ok, err}
use ibkr_auto_trader.Config.{Mode}
use ibkr_auto_trader.Gateway.Broker.{GatewayError, not_connected, resolve_account}

-- What one `_raw_connect` does: it returns, raises a fatal error, or raises anything else.
pub data Attempt : Type 0 where
  opened : Attempt
  fatal : GatewayError → Attempt
  transient : Attempt

-- `backoff_delays`, in milliseconds: `min(cap, base * 2**i)` for each i.
unfoldable pub delays_from : ℕ → ℕ → ℕ → ℕ → List ℕ
delays_from zero i base cap = []
delays_from (suc n) i base cap = min cap (base * 2 ^ i) ∷ delays_from n (i + 1) base cap

unfoldable pub backoff_delays : ℕ → ℕ → ℕ → List ℕ
unfolding delays_from
backoff_delays attempts base cap = delays_from attempts 0 base cap

-- What a run of the retry loop did.
pub record Retry : Type 0 where
  pub result : Result GatewayError (Unit {0})
  pub tried : ℕ
  pub slept : List ℕ

-- A pause follows a failed attempt unless it was the last.
abbrev pub pause : ℕ → List ℕ → List ℕ
pause d [] = []
pause d (e ∷ es) = d ∷ []

abbrev pub then_retry : ℕ → List ℕ → Retry → Retry
then_retry d ds r = record r { tried = r.tried + 1; slept = pause d ds ++ r.slept }

-- The loop of `_connect_with_backoff` over its delays; attempts beyond those that the environment
-- lists fail like a closed socket.
unfoldable pub retry : List ℕ → List Attempt → Retry
retry [] outs = record { result = err not_connected; tried = 0; slept = [] }
retry (d ∷ ds) [] = then_retry d ds (retry ds [])
retry (d ∷ ds) (opened ∷ outs) = record { result = ok tt; tried = 1; slept = [] }
retry (d ∷ ds) (fatal e ∷ outs) = record { result = err e; tried = 1; slept = [] }
retry (d ∷ ds) (transient ∷ outs) = then_retry d ds (retry ds outs)

pub data Stage : Type 0 where
  connect_stage disconnect_stage snapshot_stage reconcile_stage clock_skew_stage : Stage

-- The configuration and state of `_BaseAccountGateway`; the generation is the session's where one
-- is injected, and the gateway's own otherwise.
pub record Gateway : Type 0 where
  pub configured : Option String
  pub mode : Mode
  pub reconnect_attempts : ℕ
  pub backoff_base : ℕ
  pub backoff_max : ℕ
  pub connected : Bool
  pub account : Option String
  pub generation : ℕ
  pub emitted : List Stage

-- What a connect or reconnect meets.
pub record Env : Type 0 where
  pub attempts : List Attempt
  pub accounts : List String

-- `_connect_with_backoff`
unfoldable pub connect_with_backoff : Gateway → List Attempt → Retry
unfolding retry backoff_delays
connect_with_backoff g outs =
    retry (backoff_delays g.reconnect_attempts g.backoff_base g.backoff_max) outs

-- Opening the socket, then resolving the account, which is not retried.
unfoldable pub open_session : Gateway → Env → Result GatewayError String
open_session g env = elim (connect_with_backoff g env.attempts).result [
  | err e ↦ err e
  | ok _ ↦ resolve_account g.configured env.accounts g.mode
]

abbrev pub Outcome : Type 0
Outcome = Result GatewayError (Unit {0}) × Gateway

abbrev pub emit : Stage → Gateway → Gateway
emit stage g = record g { emitted = g.emitted ++ stage ∷ [] }

-- `connect`: a failure leaves the gateway as it was.
unfoldable pub connect : Gateway → Env → Outcome
connect g env = elim (open_session g env) [
  | err e ↦ (err e, g)
  | ok a ↦ (ok tt, emit connect_stage (record g { account = some a; connected = true }))
]

-- `reconnect`: unhealthy first; the generation is bumped only once the account is resolved.
unfoldable pub reconnect : Gateway → Env → Outcome
reconnect g env = elim (open_session g env) [
  | err e ↦ (err e, record g { connected = false })
  | ok a ↦ (
    ok tt,
    emit connect_stage
        (record g { account = some a; generation = g.generation + 1; connected = true }),
  )
]

-- `_on_disconnect`
unfoldable pub on_disconnect : Gateway → Env → Outcome
unfolding reconnect
on_disconnect g env =
    if not g.connected
    then (ok tt, g)
    else reconnect (emit disconnect_stage (record g { connected = false })) env

unfoldable pub disconnect : Gateway → Outcome
disconnect g = (ok tt, emit disconnect_stage (record g { connected = false }))
