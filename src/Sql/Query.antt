-- ===== src/Sql/Query.antt =====
-- A row that an ordered and limited query returns is a row of the table that passes its test.
use agents_python_cloudflare.Prelude.{
  ℕ, zero, suc, ◌≡◌, refl, sym, ◌∙◌, Bool, true, ◌&&◌, ◌||◌, List, [], ◌∷◌, arith, take,
}
use agents_python_cloudflare.Sql.{select, order_by, place, exists}

module _ {ℓ} {A : Type ℓ} where
  exists-select :
      (q p : A → Bool) (xs : List A) → exists q (select p xs) ≡ exists (λ x. q x && p x) xs
  unfolding exists select
  exists-select q p [] = refl
  exists-select q p (x ∷ xs) = ground (arith, exists-select q p xs)

  exists-place :
      (q : A → Bool) (le : A → A → Bool) (a : A) (xs : List A)
      → exists q (place le a xs) ≡ (q a || exists q xs)
  unfolding exists place
  exists-place q le a [] = ground arith
  exists-place q le a (x ∷ xs) = ground (arith, exists-place q le a xs)

  exists-order_by :
      (q : A → Bool) (le : A → A → Bool) (xs : List A) → exists q (order_by le xs) ≡ exists q xs
  unfolding order_by exists
  exists-order_by q le [] = refl
  exists-order_by q le (x ∷ xs) =
      ground (arith, exists-place q le x (order_by le xs), exists-order_by q le xs)

  exists-take :
      (q : A → Bool) (n : ℕ) (xs : List A) → exists q (take n xs) ≡ true → exists q xs ≡ true
  unfolding exists
  exists-take q zero xs h = absurd (cc)
  exists-take q (suc n) [] h = h
  exists-take q (suc n) (x ∷ xs) h = ground (arith, exists-take q n xs)

  pub exists-query :
      (q p : A → Bool) (le : A → A → Bool) (n : ℕ) (xs : List A)
      → exists q (take n (order_by le (select p xs))) ≡ true
      → exists (λ x. q x && p x) xs ≡ true
  exists-query q p le n xs h =
      sym (exists-order_by q le (select p xs) ∙ exists-select q p xs) ∙ exists-take q n _ h
