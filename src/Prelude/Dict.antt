-- ===== src/Prelude/Dict.antt =====
-- A Python dict as an association list in insertion order; a set is the list of its members.
use mathlib.Core.Path.{◌≡◌, refl}
use mathlib.Core.Bool.{Bool, true, false, ◌||◌}
use mathlib.Core.Option.{Option, none, some}
use mathlib.Core.List.{List, [], ◌∷◌}
use native.Mathlib.Omega.{arith}
use Prim.Native.Nat.{ℕ}
use mathlib.Core.Logic.{◌≢◌}
use ibkr_auto_trader.Prelude.Lists.{All}
use ibkr_auto_trader.Prelude.Tests.{if◌then◌else◌}
use ibkr_auto_trader.Prelude.Keys.{Key, nat_key}

abbrev pub Dict {ℓ κ} : Type ℓ → Type κ → Type (ℓ ⊔ κ)
Dict K V = List (K × V)

abbrev pub keys {ℓ κ} : {K : Type ℓ} {V : Type κ} → Dict K V → List K
keys [] = []
keys ((k, v) ∷ d) = k ∷ keys d

abbrev pub values {ℓ κ} : {K : Type ℓ} {V : Type κ} → Dict K V → List V
values [] = []
values ((k, v) ∷ d) = v ∷ values d

module _ {ℓ} {K : Type ℓ} ⦃e : Key K⦄ where
  -- `k in xs`
  abbrev pub contains : K → List K → Bool
  contains k [] = false
  contains k (x ∷ xs) = e.same k x || contains k xs

  -- `s.add(k)`
  abbrev pub add : K → List K → List K
  add k s = if contains k s then s else k ∷ s

  -- `s.discard(k)`
  abbrev pub discard : K → List K → List K
  discard k [] = []
  discard k (x ∷ xs) = let rest = discard k xs in if e.same k x then rest else x ∷ rest

  pub contains-discard :
      (k j : K) (s : List K)
      → contains j (discard k s) ≡ (if e.same k j then false else contains j s)
  contains-discard k j [] = ground arith
  contains-discard k j (x ∷ xs) =
      ground (arith, contains-discard k j xs, e.same_iff k x, e.same_iff j x, e.same_iff k j)

  pub contains-add :
      (k j : K) (s : List K) → contains j (add k s) ≡ (if e.same k j then true else contains j s)
  contains-add k j s = ground (arith, e.same_iff k j, e.same_iff j k)

module _ {ℓ κ} {K : Type ℓ} {V : Type κ} ⦃e : Key K⦄ where
  -- `d.get(k)`
  abbrev pub lookup : K → Dict K V → Option V
  lookup k [] = none
  lookup k ((j, v) ∷ d) = if e.same k j then some v else lookup k d

  -- `d[k] = v`
  abbrev pub insert : K → V → Dict K V → Dict K V
  insert k v [] = (k, v) ∷ []
  insert k v ((j, w) ∷ d) = if e.same k j then (k, v) ∷ d else (j, w) ∷ insert k v d

  pub lookup-insert :
      (k j : K) (v : V) (d : Dict K V)
      → lookup j (insert k v d) ≡ (if e.same j k then some v else lookup j d)
  lookup-insert k j v [] = refl
  lookup-insert k j v ((i, w) ∷ d) =
      ground (arith, lookup-insert k j v d, e.same_iff k i, e.same_iff j i, e.same_iff j k)

-- No number stands twice.
abbrev pub Distinct : List ℕ → Type 0
Distinct [] = Unit
Distinct (k ∷ ks) = All (λ j. k ≢ j) ks × Distinct ks

pub contains-All : (k : ℕ) (ks : List ℕ) → contains k ks ≡ false → All (λ j. k ≢ j) ks
contains-All k [] h = tt
contains-All k (j ∷ ks) h = (ground arith, contains-All k ks (ground arith))

pub All-contains : (k : ℕ) (ks : List ℕ) → All (λ j. k ≢ j) ks → contains k ks ≡ false
All-contains k [] h = refl
All-contains k (j ∷ ks) h = ground (arith, All-contains k ks h.1)
