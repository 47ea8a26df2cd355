-- ===== src/Prelude/Sort.antt =====
-- Python's `sorted`: a stable sort, by a Boolean order.
use ibkr_auto_trader.Prelude.{
  Bool, true, List, [], ◌∷◌, ◌≡◌, refl, if◌then◌else◌, All, Bool-cases, inl, inr,
}

module _ {ℓ} {A : Type ℓ} (le : A → A → Bool) where
  unfoldable pub place : A → List A → List A
  place x [] = x ∷ []
  place x (y ∷ ys) = let rest = place x ys in if le x y then x ∷ y ∷ ys else y ∷ rest

  unfoldable pub sort : List A → List A
  sort [] = []
  sort (x ∷ xs) = place x (sort xs)

  abbrev pub IsOrdered : List A → Type ℓ
  IsOrdered [] = Unit
  IsOrdered (x ∷ xs) = All (λ y. le x y ≡ true) xs × IsOrdered xs

  place-first : (x : A) (ys : List A) → All (λ y. le x y ≡ true) ys → place x ys ≡ x ∷ ys
  unfolding place
  place-first x [] h = refl
  place-first x (y ∷ ys) h = rw h.0 refl

  -- What is in order is left as it is.
  pub sort-IsOrdered : (xs : List A) → IsOrdered xs → sort xs ≡ xs
  unfolding sort
  sort-IsOrdered [] h = refl
  sort-IsOrdered (x ∷ xs) h = rw (sort-IsOrdered xs h.1) (place-first x xs h.0)

  All-place : (P : A → Type 0) (x : A) (ys : List A) → P x → All P ys → All P (place x ys)
  unfolding place
  All-place P x [] p a = (p, tt)
  All-place P x (y ∷ ys) p a = elim (Bool-cases (le x y)) [
    | inl first ↦ rw first (p, a)
    | inr later ↦ rw later (a.0, All-place P x ys p a.1)
  ]

  pub All-sort : (P : A → Type 0) (xs : List A) → All P xs → All P (sort xs)
  unfolding sort
  All-sort P [] a = tt
  All-sort P (x ∷ xs) a = All-place P x (sort xs) a.0 (All-sort P xs a.1)
