-- ===== src/Gateway.antt =====
-- src/ibkr_trader/ibkr/gateway.py: the account gateway. The broker is an environment that a call
-- is handed: what each connect attempt does, and what the fetch hooks return. Awaited steps of one
-- call run without interference. The `Decimal(str(raw))` of a broker value is handed in read.
mod Broker
mod Connect
pub mod Accounts
pub mod Snapshots
pub mod Backoff
pub mod Lifecycle
pub mod Reconcile
unfoldable pub use Broker.*
unfoldable pub use Connect.*
