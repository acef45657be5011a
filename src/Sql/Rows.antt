-- ===== src/Sql/Rows.antt =====
-- What a statement does to the rows that it hits and to those that it does not.
use agents_python_cloudflare.Prelude.{
  ◌≡◌, refl, ap, inl, inr, Bool, true, false, Option, none, some, List, [], ◌∷◌, arith,
  if◌then◌else◌, All, Bool-cases,
}
use agents_python_cloudflare.Sql.{update, changes, select, delete, exists, first}

module _ {ℓ κ} {A : Type ℓ} (P : A → Type κ) where
  -- A property of rows survives an UPDATE that keeps it on the rows it hits.
  pub All-update :
      (p : A → Bool) (f : A → A) (xs : List A)
      → ((x : A) → P x → p x ≡ true → P (f x))
      → All P xs
      → All P (update p f xs)
  unfolding update
  All-update p f [] keep h = tt
  All-update p f (x ∷ xs) keep h = (
    elim (Bool-cases (p x)) [ inl hit ↦ rw hit (keep x h.0 hit) | inr miss ↦ rw miss h.0 ],
    All-update p f xs keep h.1,
  )

  pub All-delete : (p : A → Bool) (xs : List A) → All P xs → All P (delete p xs)
  unfolding delete
  All-delete p [] h = tt
  All-delete p (x ∷ xs) h = elim (Bool-cases (p x)) [
    | inl hit ↦ rw hit (All-delete p xs h.1)
    | inr miss ↦ rw miss (h.0, All-delete p xs h.1)
  ]

  pub All-select : (p : A → Bool) (xs : List A) → ((x : A) → p x ≡ true → P x) → All P (select p xs)
  unfolding select
  All-select p [] h = tt
  All-select p (x ∷ xs) h = elim (Bool-cases (p x)) [
    | inl hit ↦ rw hit (h x hit, All-select p xs h)
    | inr miss ↦ rw miss (All-select p xs h)
  ]

  pub first-All :
      (p : A → Bool) (xs : List A) {a : A} → All P xs → first p xs ≡ some a → P a × (p a ≡ true)
  unfolding first
  first-All p [] h e = absurd (cc)
  first-All p (x ∷ xs) {a} h e = elim (Bool-cases (p x)) [
    | inl hit ↦ found hit (rw hit at e)
    | inr miss ↦ first-All p xs h.1 (rw miss at e)
  ]
    where
      found : p x ≡ true → some x ≡ some a → P a × (p a ≡ true)
      found hit same = let same' : x ≡ a = cc in rw (← same') (h.0, hit)

module _ {ℓ} {A : Type ℓ} where
  -- What an UPDATE makes of the row that a query finds, and what a test says of it.
  abbrev pub updated : (A → Bool) → (A → A) → Option A → Option A
  updated p f none = none
  updated p f (some x) = some (if p x then f x else x)

  abbrev pub passes : (A → Bool) → Option A → Bool
  passes p none = false
  passes p (some x) = p x

  -- A statement that reports no change has made none.
  pub update_none : (p : A → Bool) (f : A → A) (xs : List A) → changes p xs ≡ 0 → update p f xs ≡ xs
  unfolding update changes
  update_none p f [] h = refl
  update_none p f (x ∷ xs) h = elim (Bool-cases (p x)) [
    | inl hit ↦ absurd (ground arith)
    | inr miss ↦ rw miss (ap (λ r. x ∷ r) (update_none p f xs (rw miss at h)))
  ]

  -- A statement on other rows than a query's leaves the query's answer.
  pub select-update_other :
      (q p : A → Bool) (f : A → A) (xs : List A)
      → ((x : A) → p x ≡ true → (q x ≡ false) × (q (f x) ≡ false))
      → select q (update p f xs) ≡ select q xs
  unfolding select update
  select-update_other q p f [] other = refl
  select-update_other q p f (x ∷ xs) other =
      ground (arith, other x, select-update_other q p f xs other)

  pub select-delete_other :
      (q p : A → Bool) (xs : List A)
      → ((x : A) → p x ≡ true → q x ≡ false)
      → select q (delete p xs) ≡ select q xs
  unfolding select delete
  select-delete_other q p [] other = refl
  select-delete_other q p (x ∷ xs) other = ground (arith, other x, select-delete_other q p xs other)

  pub delete_none : (p : A → Bool) (xs : List A) → exists p xs ≡ false → delete p xs ≡ xs
  unfolding delete exists
  delete_none p [] h = refl
  delete_none p (x ∷ xs) h = ground (arith, delete_none p xs)

  pub update_missing :
      (p : A → Bool) (f : A → A) (xs : List A) → exists p xs ≡ false → update p f xs ≡ xs
  unfolding update exists
  update_missing p f [] h = refl
  update_missing p f (x ∷ xs) h = ground (arith, update_missing p f xs)

  -- A row that a test finds is still there after an UPDATE that leaves the test alone.
  pub first-update :
      (q p : A → Bool) (f : A → A) (xs : List A)
      → ((x : A) → p x ≡ true → q (f x) ≡ q x)
      → first q (update p f xs) ≡ updated p f (first q xs)
  unfolding first update
  first-update q p f [] same = refl
  first-update q p f (x ∷ xs) same = ground (arith, same x, first-update q p f xs same)

  pub first-update_hit :
      (q p : A → Bool) (f : A → A) (xs : List A) {a : A}
      → ((x : A) → p x ≡ true → q (f x) ≡ q x)
      → first q xs ≡ some a
      → first q (update p f xs) ≡ some (if p a then f a else a)
  first-update_hit q p f xs same h = rw (first-update q p f xs same, h) refl

  pub exists-update :
      (q p : A → Bool) (f : A → A) (xs : List A)
      → ((x : A) → p x ≡ true → q x ≡ true → q (f x) ≡ true)
      → exists q xs ≡ true
      → exists q (update p f xs) ≡ true
  unfolding exists update
  exists-update q p f [] keep h = h
  exists-update q p f (x ∷ xs) keep h = ground (arith, keep x, exists-update q p f xs keep)

  pub exists-delete :
      (q p : A → Bool) (xs : List A)
      → ((x : A) → q x ≡ true → p x ≡ false)
      → exists q (delete p xs) ≡ exists q xs
  unfolding exists delete
  exists-delete q p [] keep = refl
  exists-delete q p (x ∷ xs) keep = ground (arith, keep x, exists-delete q p xs keep)
