-- ===== src/Session.antt =====
-- src/ibkr_trader/ibkr/session.py: the pacing counters, the generation, and the comparison of
-- signed inventories. A map from conIds to quantities is a dict with distinct keys.
pub mod Inventory
use ibkr_auto_trader.Prelude.{
  ℕ, ◌+◌, Bool, true, false, Option, none, some, String, List, [], ◌∷◌, leb, if◌then◌else◌, Key,
  nat_key, text_key,
}
use ibkr_auto_trader.Prelude.Dict.{Dict, lookup, insert, keys, add}
use ibkr_auto_trader.Prelude.Int.{ℤ, pos, ◌+ℤ◌, ◌==ℤ◌}

pub record PacingGate : Type 0 where
  pub class_cost : Dict String ℕ
  pub requests : ℕ
  pub accumulated_cost : ℕ
  pub rejections : ℕ

-- `self.class_cost.get(request_class, 1)`
abbrev pub cost_of : PacingGate → String → ℕ
cost_of gate request_class = elim (lookup request_class gate.class_cost) [ none ↦ 1 | some c ↦ c ]

-- `PacingGate.charge`
unfoldable pub charge : PacingGate → String → PacingGate × ℕ
charge gate request_class =
    let cost = cost_of gate request_class in
    (
      record gate { requests = gate.requests + 1; accumulated_cost = gate.accumulated_cost + cost },
      cost,
    )

-- `mapping.get(k, 0)`
abbrev pub get_or_zero : Dict ℕ ℤ → ℕ → ℤ
get_or_zero d n = elim (lookup n d) [ none ↦ pos 0 | some q ↦ q ]

-- `{k: q for k, q in items if q != 0}`
unfoldable pub nonzero : Dict ℕ ℤ → Dict ℕ ℤ
nonzero [] = []
nonzero ((k, q) ∷ d) = if q ==ℤ pos 0 then nonzero d else (k, q) ∷ nonzero d

-- `set(left) | set(right)`
unfoldable pub union : List ℕ → List ℕ → List ℕ
union [] ys = ys
union (x ∷ xs) ys = add x (union xs ys)

pub record InventoryDiff : Type 0 where
  pub left : Dict ℕ ℤ
  pub right : Dict ℕ ℤ
  pub diffs : Dict ℕ (ℤ × ℤ)

unfoldable pub diff_over : Dict ℕ ℤ → Dict ℕ ℤ → List ℕ → Dict ℕ (ℤ × ℤ)
diff_over l r [] = []
diff_over l r (k ∷ ks) =
    let rest = diff_over l r ks in
    if get_or_zero l k ==ℤ get_or_zero r k
    then rest
    else (k, (get_or_zero l k, get_or_zero r k)) ∷ rest

unfoldable pub signed_inventory_diff : Dict ℕ ℤ → Dict ℕ ℤ → InventoryDiff
signed_inventory_diff left right =
    let l = nonzero left in
    let r = nonzero right in
    record { left = l; right = r; diffs = diff_over l r (union (keys l) (keys r)) }

-- `sorted(...)` of conIds
place : ℕ → List ℕ → List ℕ
place x [] = x ∷ []
place x (y ∷ ys) = if leb x y then x ∷ y ∷ ys else y ∷ place x ys

unfoldable pub sorted : List ℕ → List ℕ
unfolding place
sorted [] = []
sorted (x ∷ xs) = place x (sorted xs)

abbrev pub is_empty : List ℕ → Bool
is_empty [] = true
is_empty (x ∷ xs) = false

unfoldable pub reconcile_inventory : Dict ℕ ℤ → Dict ℕ ℤ → Bool × List ℕ
reconcile_inventory portfolio_qty position_qty =
    let mismatched = sorted (keys (signed_inventory_diff portfolio_qty position_qty).diffs) in
    (is_empty mismatched, mismatched)

unfoldable pub aggregate_from : Dict ℕ ℤ → List (ℕ × ℤ) → Dict ℕ ℤ
aggregate_from out [] = out
aggregate_from out ((con_id, qty) ∷ rows) =
    aggregate_from (insert con_id (get_or_zero out con_id +ℤ qty) out) rows

unfoldable pub aggregate_signed : List (ℕ × ℤ) → Dict ℕ ℤ
unfolding aggregate_from
aggregate_signed rows = aggregate_from [] rows
