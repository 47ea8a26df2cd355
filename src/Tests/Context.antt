-- ===== src/Tests/Context.antt =====
-- The context mint at one book.
use ibkr_auto_trader.Prelude.{◌≡◌, refl, some}
use ibkr_auto_trader.Prelude.Int.{◌-ℤ◌}
use ibkr_auto_trader.Prelude.Result.{ok}
use ibkr_auto_trader.Domain.{assembler_authority}
use ibkr_auto_trader.Domain.Context.{mint_context}
use ibkr_auto_trader.Domain.Context.Sealed.{IsSealed, mint_context-IsSealed}
use ibkr_auto_trader.Fixtures.{context}

minted : mint_context (some assembler_authority) context ≡ ok context
unfolding mint_context ◌-ℤ◌
minted = refl

mint_context-IsSealed_example :
    (some assembler_authority ≡ some assembler_authority) × (context ≡ context) × IsSealed context
mint_context-IsSealed_example =
    mint_context-IsSealed (some assembler_authority) context context minted
