-- ===== src/Lease.antt =====
-- collab/tools/lib/handoff_core.py: `ActiveHandoffLease`, one run's grip on the board. Each
-- operation is one step on the lease file, under the lock that serialises them; the instants are
-- those of the injected clock, in milliseconds, which an operation reads once. A torn file reads as
-- no lease. Time stamps that are only shown are left out.
pub mod Exclusion
use ibkr_auto_trader.Prelude.{
  ℕ, ◌-◌, Bool, true, false, ◌&&◌, Option, none, some, String, List, [], ◌∷◌, ◌++◌, not, leb,
  if◌then◌else◌, Key, text_key,
}
use ibkr_auto_trader.Prelude.Result.{Result, ok, err}

pub record LeaseRecord : Type 0 where
  pub run_uid : String
  pub hid : String
  pub pid : ℕ
  pub acquired_epoch : ℕ
  pub heartbeat_epoch : Option ℕ

pub data LeaseEvent : Type 0 where
  reclaim_stale : String → LeaseRecord → LeaseEvent
  release_event : String → String → LeaseEvent

-- The lease file, and the audit file.
pub record Board : Type 0 where
  pub lease : Option LeaseRecord
  pub audit : List LeaseEvent

-- The process that an operation is of.
pub record Run : Type 0 where
  pub run_uid : String
  pub pid : ℕ
  pub ttl : ℕ

pub data LeaseError : Type 0 where
  lease_held : LeaseRecord → LeaseError
  holds_another : String → LeaseError

-- `_is_stale`: `now - heartbeat >= ttl` over floats, which a heartbeat in the future is not.
unfoldable pub is_stale : Run → ℕ → LeaseRecord → Bool
is_stale run now r = elim r.heartbeat_epoch [
  | none ↦ true
  | some beat ↦ leb beat now && leb run.ttl (now - beat)
]

abbrev pub is_own : Run → LeaseRecord → Bool
is_own run r = text_key.same r.run_uid run.run_uid

abbrev pub fresh_lease : Run → String → ℕ → LeaseRecord
fresh_lease run hid now = record {
  run_uid = run.run_uid;
  hid = hid;
  pid = run.pid;
  acquired_epoch = now;
  heartbeat_epoch = some now;
}

abbrev pub audit_event : LeaseEvent → Board → Board
audit_event e b = record b { audit = b.audit ++ e ∷ [] }

abbrev pub write_lease : LeaseRecord → Board → Board
write_lease r b = record b { lease = some r }

abbrev pub acquire_over : Run → String → ℕ → Board → LeaseRecord → Result LeaseError Board
acquire_over run hid now b r =
    if not (is_own run r)
    then (if not (is_stale run now r)
        then err (lease_held r)
        else ok
            (write_lease (fresh_lease run hid now) (audit_event (reclaim_stale run.run_uid r) b)))
    else if not (text_key.same r.hid hid)
    then err (holds_another r.hid)
    else ok (write_lease (record (fresh_lease run hid now) { acquired_epoch = r.acquired_epoch }) b)

unfoldable pub acquire : Run → String → ℕ → Board → Result LeaseError Board
unfolding is_stale
acquire run hid now b = elim b.lease [
  | none ↦ ok (write_lease (fresh_lease run hid now) b)
  | some r ↦ acquire_over run hid now b r
]

-- Whether the run still holds the lease.
unfoldable pub renew : Run → ℕ → Board → Board × Bool
renew run now b = elim b.lease [
  | none ↦ (b, false)
  | some r ↦
      (if is_own run r
        then (write_lease (record r { heartbeat_epoch = some now }) b, true)
        else (b, false))
]

unfoldable pub release : Run → Board → Board × Bool
release run b = elim b.lease [
  | none ↦ (b, false)
  | some r ↦
      (if is_own run r
        then (audit_event (release_event run.run_uid r.hid) (record b { lease = none }), true)
        else (b, false))
]
