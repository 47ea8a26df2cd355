-- ===== src/Gateway/Reconcile.antt =====
-- `_reconcile`: the broker's holdings against the durable positions. A dict comprehension over the
-- holdings keeps the last of a repeated conId.
use mathlib.Core.Path.{subst}
use ibkr_auto_trader.Prelude.{
  ℕ, ◌≡◌, refl, Bool, true, false, not, Option, none, some, String, List, [], ◌∷◌, arith, ◌==◌,
  if◌then◌else◌, nat_key, text_key, Bool-cases, inl, inr, sym, ap, ◌∙◌, ◌||◌, ◌&&◌,
}
use ibkr_auto_trader.Prelude.Dict.{
  Dict, lookup, insert, keys, contains, Distinct, All-contains, contains-All,
}
use ibkr_auto_trader.Prelude.Int.{ℤ, pos, ◌==ℤ◌}
use ibkr_auto_trader.Session.{InventoryDiff, signed_inventory_diff, get_or_zero, nonzero}
use ibkr_auto_trader.Store.{
  StateStore, upsert_position, position, all_positions, symbol_for_instrument_id,
}
use ibkr_auto_trader.Session.Inventory.{
  difference, signed_inventory_diff_lem, get-nonzero, get-absent, ==ℤ→eq,
}
use ibkr_auto_trader.Store.Positions.{
  HasUniqueIds, position-upsert_position, all_positions-position,
}
use ibkr_auto_trader.Gateway.{HeldPosition}

unfoldable pub broker_quantities : Dict ℕ ℤ → List HeldPosition → Dict ℕ ℤ
broker_quantities out [] = out
broker_quantities out (h ∷ hs) = broker_quantities (insert h.instrument_id h.quantity out) hs

unfoldable pub broker_symbols : Dict ℕ String → List HeldPosition → Dict ℕ String
broker_symbols out [] = out
broker_symbols out (h ∷ hs) = broker_symbols (insert h.instrument_id h.symbol out) hs

abbrev pub or_empty : Option String → String
or_empty none = ""
or_empty (some s) = s

-- `symbols.setdefault(id, store.symbol_for_instrument_id(id) or "")` for each cached id
unfoldable pub set_defaults : StateStore → Dict ℕ String → List ℕ → Dict ℕ String
set_defaults st symbols [] = symbols
set_defaults st symbols (n ∷ ns) =
    set_defaults st
      (if contains n (keys symbols)
        then symbols
        else insert n (or_empty (symbol_for_instrument_id st n)) symbols)
      ns

-- `for id, quantity in recon.broker.items(): upsert`
unfoldable pub write_all : Dict ℕ String → StateStore → Dict ℕ ℤ → StateStore
write_all symbols st [] = st
write_all symbols st ((n, q) ∷ d) =
    write_all symbols (upsert_position st n (or_empty (lookup n symbols)) q) d

-- `for id in recon.cache: if id not in recon.broker: upsert 0`
unfoldable pub zero_missing : Dict ℕ String → List ℕ → StateStore → List ℕ → StateStore
zero_missing symbols held st [] = st
zero_missing symbols held st (n ∷ ns) =
    zero_missing symbols held
      (if contains n held then st else upsert_position st n (or_empty (lookup n symbols)) (pos 0))
      ns

-- `reconcile_positions`: the cache to the left, the broker to the right
unfoldable pub reconcile_positions : Dict ℕ ℤ → Dict ℕ ℤ → InventoryDiff
reconcile_positions broker cache = signed_inventory_diff cache broker

abbrev pub diverged : InventoryDiff → Bool
diverged d = elim d.diffs [ [] ↦ false | e ∷ es ↦ true ]

-- The store's rewrite under a divergence.
abbrev pub rewrite_store : StateStore → Dict ℕ String → InventoryDiff → StateStore
rewrite_store st symbols d =
    zero_missing symbols (keys d.right) (write_all symbols st d.right) (keys d.left)

-- `_reconcile` with a store
unfoldable pub reconcile : StateStore → List HeldPosition → StateStore × InventoryDiff
reconcile st held =
    let d = reconcile_positions (broker_quantities [] held) (all_positions st) in
    let symbols = set_defaults st (broker_symbols [] held) (keys (all_positions st)) in
    (if diverged d then rewrite_store st symbols d else st, d)

position-write_all :
    (symbols : Dict ℕ String) (st : StateStore) (d : Dict ℕ ℤ) (n : ℕ)
    → Distinct (keys d)
    → position (write_all symbols st d) n
      ≡ (if contains n (keys d) then get_or_zero d n else position st n)
unfolding write_all
position-write_all symbols st [] n u = refl
position-write_all symbols st ((k, q) ∷ d) n u =
    let st' = upsert_position st k (or_empty (lookup k symbols)) q in
    ground (
      arith,
      position-write_all symbols st' d n u.1,
      position-upsert_position st k n (or_empty (lookup k symbols)) q,
      All-contains k (keys d) u.0,
    )

position-zero_missing :
    (symbols : Dict ℕ String) (held : List ℕ) (st : StateStore) (ns : List ℕ) (n : ℕ)
    → position (zero_missing symbols held st ns) n
      ≡ (if contains n ns && not (contains n held) then pos 0 else position st n)
unfolding zero_missing
position-zero_missing symbols held st [] n = refl
position-zero_missing symbols held st (k ∷ ks) n =
    let written = upsert_position st k (or_empty (lookup k symbols)) (pos 0) in
    let p = position-upsert_position st k n (or_empty (lookup k symbols)) (pos 0) in
    elim (Bool-cases (contains k held)) [
      | inl kept ↦
          rw kept (ground (arith, position-zero_missing symbols held st ks n, held_alike k n held))
      | inr missing ↦
          rw missing (
            ground (arith, position-zero_missing symbols held written ks n, p, held_alike k n held))
    ]
  where
    held_alike : (k n : ℕ) (held : List ℕ) → n ≡ k → contains n held ≡ contains k held
    held_alike k n held e = ap (λ x. contains x held) e

contains-insert :
    (k n : ℕ) (q : ℤ) (d : Dict ℕ ℤ)
    → contains n (keys (insert k q d)) ≡ (n == k || contains n (keys d))
contains-insert k n q [] = refl
contains-insert k n q ((j, w) ∷ d) = ground (arith, contains-insert k n q d)

insert-Distinct :
    (k : ℕ) (q : ℤ) (d : Dict ℕ ℤ) → Distinct (keys d) → Distinct (keys (insert k q d))
insert-Distinct k q [] u = (tt, tt)
insert-Distinct k q ((j, w) ∷ d) u = elim (Bool-cases (k == j)) [
  | inl here ↦
      (let e : k ≡ j = ground arith in rw here (subst (λ x. Distinct (x ∷ keys d)) (sym e) u))
  | inr there ↦ rw there (
    contains-All j (keys (insert k q d))
        (let c = contains-insert k j q d in let a = All-contains j (keys d) u.0 in ground arith),
    insert-Distinct k q d u.1,
  )
]

broker_quantities-Distinct :
    (out : Dict ℕ ℤ) (hs : List HeldPosition)
    → Distinct (keys out)
    → Distinct (keys (broker_quantities out hs))
unfolding broker_quantities
broker_quantities-Distinct out [] u = u
broker_quantities-Distinct out (h ∷ hs) u =
    broker_quantities-Distinct (insert h.instrument_id h.quantity out) hs
      (insert-Distinct h.instrument_id h.quantity out u)

contains-nonzero :
    (n : ℕ) (d : Dict ℕ ℤ) → contains n (keys d) ≡ false → contains n (keys (nonzero d)) ≡ false
unfolding nonzero
contains-nonzero n [] h = refl
contains-nonzero n ((k, q) ∷ d) h = ground (arith, contains-nonzero n d)

nonzero-Distinct : (d : Dict ℕ ℤ) → Distinct (keys d) → Distinct (keys (nonzero d))
unfolding nonzero
nonzero-Distinct [] u = tt
nonzero-Distinct ((k, q) ∷ d) u = elim (Bool-cases (q ==ℤ pos 0)) [
  | inl zero_held ↦ rw zero_held (nonzero-Distinct d u.1)
  | inr held ↦ rw held (
    contains-All k (keys (nonzero d)) (contains-nonzero k d (All-contains k (keys d) u.0)),
    nonzero-Distinct d u.1,
  )
]

-- Both rewrites together: what the broker holds of an id, however the cache stood.
position-rewrite_store :
    (st : StateStore) (symbols : Dict ℕ String) (broker : Dict ℕ ℤ) (n : ℕ)
    → HasUniqueIds st
    → Distinct (keys broker)
    → position (rewrite_store st symbols (reconcile_positions broker (all_positions st))) n
      ≡ get_or_zero broker n
unfolding reconcile_positions signed_inventory_diff
position-rewrite_store st symbols broker n us ub =
    let l = nonzero (all_positions st) in
    let r = nonzero broker in
    ground (
      arith,
      position-zero_missing symbols (keys r) (write_all symbols st r) (keys l) n,
      position-write_all symbols st r n (nonzero-Distinct broker ub),
      get-nonzero n broker ub,
      get-nonzero n (all_positions st) us,
      get-absent n r,
      get-absent n l,
      all_positions-position st n,
    )

-- Reconciling makes the durable cache hold exactly what the broker reports, for every id: a row
-- that the broker does not report reads as zero afterwards, and the differences that are reported
-- are those of the cache as it was.
-- The store's ids are unique before.
pub reconcile_lem :
    (st : StateStore) (held : List HeldPosition) (n : ℕ)
    → HasUniqueIds st
    → let (st', d) = reconcile st held in
      let broker = broker_quantities [] held in
      (position st' n ≡ get_or_zero broker n)
      × (lookup n d.diffs ≡ difference (all_positions st) broker n)
unfolding reconcile
reconcile_lem st held n us =
    let broker = broker_quantities [] held in
    let ub = broker_quantities-Distinct [] held tt in
    let d = reconcile_positions broker (all_positions st) in
    let symbols = set_defaults st (broker_symbols [] held) (keys (all_positions st)) in
    let reported : lookup n d.diffs ≡ difference (all_positions st) broker n =
      unfold reconcile_positions in signed_inventory_diff_lem (all_positions st) broker n us ub in
    let cached = all_positions-position st n in
    let rewritten = position-rewrite_store st symbols broker n us ub in
    elim (Bool-cases (diverged d)) [
      | inl differ ↦ (rw differ rewritten, reported)
      | inr agree ↦ (
        rw agree (
            sym cached
            ∙ agree_at (get_or_zero (all_positions st) n) (get_or_zero broker n) d.diffs agree
                reported),
        reported,
      )
    ]
  where
    agree_at :
        (a b : ℤ) (diffs : Dict ℕ (ℤ × ℤ))
        → (elim diffs [ [] ↦ false | e ∷ es ↦ true ]) ≡ false
        → lookup n diffs ≡ (if a ==ℤ b then none else some (a, b))
        → a ≡ b
    agree_at a b [] h e = ==ℤ→eq a b (ground arith)
    agree_at a b (x ∷ xs) h e = absurd (ground arith)
