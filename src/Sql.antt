-- ===== src/Sql.antt =====
-- The SQL statements of the stores as functions on a table: a list of rows. A statement takes its
-- WHERE clause as a test and its SET clause as a function on a row.
pub mod Rows
pub mod Keys
pub mod Sorting
pub mod Query
use agents_python_cloudflare.Prelude.{
  ℕ, suc, ◌≡◌, Bool, true, false, ◌||◌, Option, none, some, List, [], ◌∷◌, if◌then◌else◌,
}

module _ {ℓ} {A : Type ℓ} where
  -- UPDATE … SET f WHERE p
  unfoldable pub update : (A → Bool) → (A → A) → List A → List A
  update p f [] = []
  update p f (x ∷ xs) = (if p x then f x else x) ∷ update p f xs

  -- SELECT changes(), after an UPDATE or a DELETE whose WHERE clause is p
  unfoldable pub changes : (A → Bool) → List A → ℕ
  changes p [] = 0
  changes p (x ∷ xs) = let rest = changes p xs in if p x then suc rest else rest

  -- SELECT … WHERE p
  unfoldable pub select : (A → Bool) → List A → List A
  select p [] = []
  select p (x ∷ xs) = let rest = select p xs in if p x then x ∷ rest else rest

  -- DELETE … WHERE p
  unfoldable pub delete : (A → Bool) → List A → List A
  delete p [] = []
  delete p (x ∷ xs) = let rest = delete p xs in if p x then rest else x ∷ rest

  -- EXISTS (SELECT 1 … WHERE p)
  unfoldable pub exists : (A → Bool) → List A → Bool
  exists p [] = false
  exists p (x ∷ xs) = p x || exists p xs

  -- The first row of SELECT … WHERE p, if there is one
  unfoldable pub first : (A → Bool) → List A → Option A
  first p [] = none
  first p (x ∷ xs) = let rest = first p xs in if p x then some x else rest

  place : (A → A → Bool) → A → List A → List A
  place le a [] = a ∷ []
  place le a (x ∷ xs) = let rest = place le a xs in if le a x then a ∷ x ∷ xs else x ∷ rest

  -- ORDER BY: `le` says which of two rows may stand first
  unfoldable pub order_by : (A → A → Bool) → List A → List A
  unfolding place
  order_by le [] = []
  order_by le (x ∷ xs) = place le x (order_by le xs)
