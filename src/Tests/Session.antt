-- ===== src/Tests/Session.antt =====
-- Inventories that are compared and summed.
use ibkr_auto_trader.Prelude.{ℕ, ◌≡◌, refl, false, [], ◌∷◌, arith, nat_key}
use ibkr_auto_trader.Prelude.Dict.{Dict, keys, Distinct}
use ibkr_auto_trader.Prelude.Int.{ℤ, pos, negsuc}
use ibkr_auto_trader.Session.{
  signed_inventory_diff, reconcile_inventory, get_or_zero, aggregate_signed, sorted, diff_over,
  union, nonzero,
}
use ibkr_auto_trader.Session.Inventory.{total_of, aggregate_signed-total}

abbrev portfolio : Dict ℕ ℤ
portfolio = (7, pos 10) ∷ (8, negsuc 2) ∷ (9, pos 0) ∷ []

abbrev ledger : Dict ℕ ℤ
ledger = (8, pos 3) ∷ (7, pos 10) ∷ []

portfolio-Distinct : Distinct (keys portfolio)
portfolio-Distinct = (((omega arith, (omega arith, tt))), ((omega arith, tt), (tt, tt)))

ledger-Distinct : Distinct (keys ledger)
ledger-Distinct = ((omega arith, tt), (tt, tt))

sign_flip_found : reconcile_inventory portfolio ledger ≡ (false, 8 ∷ [])
unfolding reconcile_inventory signed_inventory_diff sorted diff_over union nonzero
sign_flip_found = refl

aggregate_signed-total_example :
    get_or_zero (aggregate_signed ((7, pos 4) ∷ (8, pos 1) ∷ (7, negsuc 5) ∷ [])) 7
    ≡ total_of 7 ((7, pos 4) ∷ (8, pos 1) ∷ (7, negsuc 5) ∷ [])
aggregate_signed-total_example =
    aggregate_signed-total 7 ((7, pos 4) ∷ (8, pos 1) ∷ (7, negsuc 5) ∷ [])
