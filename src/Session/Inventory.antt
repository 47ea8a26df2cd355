-- ===== src/Session/Inventory.antt =====
-- The comparison of two inventories, as a function of what each holds of an id.
use ibkr_auto_trader.Prelude.{
  ℕ, sym, ap, ◌∙◌, not, ◌≡◌, refl, ◌↔◌, Bool, true, false, ◌||◌, Option, none, some, List, [], ◌∷◌,
  arith, ◌==◌, if◌then◌else◌, nat_key, Bool-cases, inl, inr,
}
use ibkr_auto_trader.Prelude.Dict.{
  Dict, lookup, insert, keys, contains, contains-add, lookup-insert, Distinct, All-contains,
}
use ibkr_auto_trader.Prelude.Int.{ℤ, pos, ◌+ℤ◌, ◌==ℤ◌, eq_of_parts, int_laws}
use ibkr_auto_trader.Session.{
  get_or_zero, nonzero, union, diff_over, signed_inventory_diff, place, sorted, reconcile_inventory,
  aggregate_from, aggregate_signed, is_empty,
}

pub ==ℤ→eq : (a b : ℤ) → (a ==ℤ b) ≡ true → a ≡ b
==ℤ→eq a b h = eq_of_parts a b (ground arith)

pub ==ℤ_refl : (a : ℤ) → (a ==ℤ a) ≡ true
==ℤ_refl a = ground arith

pub get-absent : (n : ℕ) (d : Dict ℕ ℤ) → contains n (keys d) ≡ false → get_or_zero d n ≡ pos 0
get-absent n [] h = refl
get-absent n ((k, q) ∷ d) h = ground (arith, get-absent n d)

-- Dropping the zeros keeps what is held of each id.
pub get-nonzero :
    (n : ℕ) (d : Dict ℕ ℤ) → Distinct (keys d) → get_or_zero (nonzero d) n ≡ get_or_zero d n
unfolding nonzero
get-nonzero n [] u = refl
get-nonzero n ((k, q) ∷ d) u =
    ground
      (arith, get-nonzero n d u.1, ==ℤ→eq q (pos 0), get-absent n d, All-contains k (keys d) u.0)

contains-union :
    (n : ℕ) (xs ys : List ℕ) → contains n (union xs ys) ≡ (contains n xs || contains n ys)
unfolding union
contains-union n [] ys = refl
contains-union n (x ∷ xs) ys =
    ground (arith, contains-union n xs ys, contains-add x n (union xs ys))

-- What a dict of differences says of an id, nothing where the two agree.
abbrev pub difference : Dict ℕ ℤ → Dict ℕ ℤ → ℕ → Option (ℤ × ℤ)
difference l r n =
    if get_or_zero l n ==ℤ get_or_zero r n then none else some (get_or_zero l n, get_or_zero r n)

lookup-diff_over :
    (l r : Dict ℕ ℤ) (n : ℕ) (ks : List ℕ)
    → lookup n (diff_over l r ks) ≡ (if contains n ks then difference l r n else none)
unfolding diff_over
lookup-diff_over l r n [] = refl
lookup-diff_over l r n (k ∷ ks) = elim (Bool-cases (n == k)) [
  | inl here ↦
      (let e : n ≡ k = ground arith in
        ground (arith, lookup-diff_over l r n ks, e, ap (get_or_zero l) e, ap (get_or_zero r) e))
  | inr there ↦ ground (arith, lookup-diff_over l r n ks)
]

-- An id that neither inventory lists is held alike, by none.
unlisted :
    (l r : Dict ℕ ℤ) (n : ℕ)
    → contains n (union (keys l) (keys r)) ≡ false
    → difference l r n ≡ none
unlisted l r n h =
    let c = contains-union n (keys l) (keys r) in
    let el : get_or_zero l n ≡ pos 0 = get-absent n l (ground arith) in
    let er : get_or_zero r n ≡ pos 0 = get-absent n r (ground arith) in rw (el, er)

-- The reported differences are exactly the ids whose quantities differ, each with what the left and
-- the right inventory hold, none and a stored zero counting alike.
-- Each inventory lists an id at most once.
pub signed_inventory_diff_lem :
    (left right : Dict ℕ ℤ) (n : ℕ)
    → Distinct (keys left)
    → Distinct (keys right)
    → lookup n (signed_inventory_diff left right).diffs ≡ difference left right n
unfolding signed_inventory_diff
signed_inventory_diff_lem left right n ul ur =
    let l = nonzero left in
    let r = nonzero right in
    let e : difference l r n ≡ difference left right n =
      rw (get-nonzero n left ul, get-nonzero n right ur) in
    elim (Bool-cases (contains n (union (keys l) (keys r)))) [
      | inl listed ↦ lookup-diff_over l r n _ ∙ rw listed e
      | inr missing ↦ lookup-diff_over l r n _ ∙ rw missing (sym (unlisted l r n missing) ∙ e)
    ]

contains-place : (n x : ℕ) (ys : List ℕ) → contains n (place x ys) ≡ (n == x || contains n ys)
unfolding place
contains-place n x [] = refl
contains-place n x (y ∷ ys) = ground (arith, contains-place n x ys)

contains-sorted : (n : ℕ) (xs : List ℕ) → contains n (sorted xs) ≡ contains n xs
unfolding sorted
contains-sorted n [] = refl
contains-sorted n (x ∷ xs) = ground (arith, contains-place n x (sorted xs), contains-sorted n xs)

abbrev pub is_some : Option (ℤ × ℤ) → Bool
is_some none = false
is_some (some d) = true

contains-keys : (n : ℕ) (d : Dict ℕ (ℤ × ℤ)) → contains n (keys d) ≡ is_some (lookup n d)
contains-keys n [] = refl
contains-keys n ((k, v) ∷ d) = ground (arith, contains-keys n d)

not_listed : (n : ℕ) (xs : List ℕ) → is_empty xs ≡ true → contains n xs ≡ false
not_listed n [] h = refl
not_listed n (x ∷ xs) h = cc

empty_of_none : (xs : List ℕ) → ((n : ℕ) → contains n xs ≡ false) → is_empty xs ≡ true
empty_of_none [] h = refl
empty_of_none (x ∷ xs) h = let c = h x in ground arith

module _ (p q : Dict ℕ ℤ) (up : Distinct (keys p)) (uq : Distinct (keys q)) where
  -- The mismatches list exactly the ids that the two inventories hold differently.
  pub contains-reconcile_inventory :
      (n : ℕ) → contains n (reconcile_inventory p q).1 ≡ not (get_or_zero p n ==ℤ get_or_zero q n)
  unfolding reconcile_inventory
  contains-reconcile_inventory n =
      let d = (signed_inventory_diff p q).diffs in
      ground (
        arith,
        contains-sorted n (keys d),
        contains-keys n d,
        signed_inventory_diff_lem p q n up uq,
      )

  first_is_empty : (reconcile_inventory p q).0 ≡ is_empty (reconcile_inventory p q).1
  unfolding reconcile_inventory
  first_is_empty = refl

  -- Two inventories reconcile exactly if they hold the same quantity of every id; an id that only one
  -- of them lists, at zero, is no mismatch.
  -- Each inventory lists an id at most once.
  pub reconcile_inventory_iff :
      ((reconcile_inventory p q).0 ≡ true) ↔ ((n : ℕ) → get_or_zero p n ≡ get_or_zero q n)
  reconcile_inventory_iff = (
    λ h n.
        let c = contains-reconcile_inventory n in
        let e = not_listed n (reconcile_inventory p q).1 (sym first_is_empty ∙ h) in
        ==ℤ→eq (get_or_zero p n) (get_or_zero q n) (ground arith),
    λ same.
        first_is_empty
        ∙ empty_of_none (reconcile_inventory p q).1
            (λ n. contains-reconcile_inventory n ∙ rw (same n, ==ℤ_refl)),
  )

-- The sum of the rows of an id.
pub total_of : ℕ → List (ℕ × ℤ) → ℤ
total_of n [] = pos 0
total_of n ((k, q) ∷ rows) = if n == k then q +ℤ total_of n rows else total_of n rows

get-insert :
    (n k : ℕ) (q : ℤ) (d : Dict ℕ ℤ)
    → get_or_zero (insert k q d) n ≡ (if n == k then q else get_or_zero d n)
get-insert n k q d = ground (arith, lookup-insert k n q d)

aggregate_from-total :
    (n : ℕ) (out : Dict ℕ ℤ) (rows : List (ℕ × ℤ))
    → get_or_zero (aggregate_from out rows) n ≡ get_or_zero out n +ℤ total_of n rows
unfolding aggregate_from total_of
aggregate_from-total n out [] = omega int_laws
aggregate_from-total n out ((k, q) ∷ rows) =
    let ih = aggregate_from-total n (insert k (get_or_zero out k +ℤ q) out) rows in
    let g = get-insert n k (get_or_zero out k +ℤ q) out in
    elim (Bool-cases (n == k)) [
      | inl here ↦
          (let e : n ≡ k = ground arith in
            rw here (ih ∙ rw (g, here) (rw (ap (get_or_zero out) e) (omega int_laws))))
      | inr there ↦ ground (arith, ih, g)
    ]

-- Broker rows that name an id more than once add up.
pub aggregate_signed-total :
    (n : ℕ) (rows : List (ℕ × ℤ)) → get_or_zero (aggregate_signed rows) n ≡ total_of n rows
unfolding aggregate_signed
aggregate_signed-total n rows = aggregate_from-total n [] rows ∙ omega int_laws
