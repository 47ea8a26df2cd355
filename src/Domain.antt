-- ===== src/Domain.antt =====
-- src/ibkr_trader/domain/models.py: the frozen facts, and the seams that mint the guarded ones.
-- An instrument id (IBKR's conId) and a date are only compared, so they are natural numbers.
mod Time
mod Mint
mod Holding
pub mod Context
unfoldable pub use Time.*
unfoldable pub use Mint.*
unfoldable pub use Holding.*
