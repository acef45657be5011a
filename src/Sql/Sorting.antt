-- ===== src/Sql/Sorting.antt =====
-- ORDER BY keeps the rows and puts them in order.
use agents_python_cloudflare.Prelude.{
  ℕ, zero, suc, ◌≡◌, inl, inr, Bool, true, ◌||◌, List, [], ◌∷◌, arith, All, Bool-cases, take,
}
use mathlib.Core.List.{Perm}
use mathlib.Core.List.Perm
use agents_python_cloudflare.Sql.{order_by, place}

-- A row may stand before the first of the others.
abbrev pub Precedes {ℓ} : {A : Type ℓ} → (A → A → Bool) → A → List A → Type 0
Precedes le x [] = Unit
Precedes le x (y ∷ l) = le x y ≡ true

-- Each row may stand before the next one.
abbrev pub IsOrdered {ℓ} : {A : Type ℓ} → (A → A → Bool) → List A → Type 0
IsOrdered le [] = Unit
IsOrdered le (x ∷ l) = Precedes le x l × IsOrdered le l

module _ {ℓ} {A : Type ℓ} (le : A → A → Bool) where
  place-perm : (a : A) (xs : List A) → Perm (place le a xs) (a ∷ xs)
  unfolding place
  place-perm a [] = Perm.refl (a ∷ [])
  place-perm a (x ∷ xs) = elim (Bool-cases (le a x)) [
    | inl before ↦ rw before (Perm.refl (a ∷ x ∷ xs))
    | inr after ↦ rw after (Perm.trans (Perm.cons x (place-perm a xs)) (Perm.swap a x xs))
  ]

  -- Sorting loses no row and invents none.
  pub order_by-perm : (xs : List A) → Perm (order_by le xs) xs
  unfolding order_by
  order_by-perm [] = Perm.refl []
  order_by-perm (x ∷ xs) =
      Perm.trans (place-perm x (order_by le xs)) (Perm.cons x (order_by-perm xs))

  module _ {κ} (P : A → Type κ) where
    All-place : (a : A) (xs : List A) → P a → All P xs → All P (place le a xs)
    unfolding place
    All-place a [] h hs = (h, tt)
    All-place a (x ∷ xs) h hs = elim (Bool-cases (le a x)) [
      | inl before ↦ rw before (h, hs)
      | inr after ↦ rw after (hs.0, All-place a xs h hs.1)
    ]

    pub All-order_by : (xs : List A) → All P xs → All P (order_by le xs)
    unfolding order_by
    All-order_by [] h = tt
    All-order_by (x ∷ xs) h = All-place x (order_by le xs) h.0 (All-order_by xs h.1)

  Precedes-place :
      (x a : A) (xs : List A) → le x a ≡ true → Precedes le x xs → Precedes le x (place le a xs)
  unfolding place
  Precedes-place x a [] h hs = h
  Precedes-place x a (y ∷ ys) h hs = elim (Bool-cases (le a y)) [
    | inl before ↦ rw before h
    | inr after ↦ rw after hs
  ]

  module _ (total : (x y : A) → (le x y || le y x) ≡ true) where
    place-IsOrdered : (a : A) (xs : List A) → IsOrdered le xs → IsOrdered le (place le a xs)
    unfolding place
    place-IsOrdered a [] h = (tt, tt)
    place-IsOrdered a (x ∷ xs) h = elim (Bool-cases (le a x)) [
      | inl before ↦ rw before (before, h)
      | inr after ↦
          rw after (Precedes-place x a xs (ground (arith, total a x)) h.0, place-IsOrdered a xs h.1)
    ]

    pub order_by-IsOrdered : (xs : List A) → IsOrdered le (order_by le xs)
    unfolding order_by
    order_by-IsOrdered [] = tt
    order_by-IsOrdered (x ∷ xs) = place-IsOrdered x (order_by le xs) (order_by-IsOrdered xs)

  pub take-IsOrdered : (n : ℕ) (xs : List A) → IsOrdered le xs → IsOrdered le (take n xs)
  take-IsOrdered zero xs h = tt
  take-IsOrdered (suc n) [] h = tt
  take-IsOrdered (suc n) (x ∷ xs) h = (Precedes-take n xs h.0, take-IsOrdered n xs h.1)
    where
      Precedes-take : (m : ℕ) (ys : List A) → Precedes le x ys → Precedes le x (take m ys)
      Precedes-take zero ys g = tt
      Precedes-take (suc m) [] g = tt
      Precedes-take (suc m) (y ∷ ys) g = g
