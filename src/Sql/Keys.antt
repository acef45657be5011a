-- ===== src/Sql/Keys.antt =====
-- Tables whose rows have distinct keys, and what a statement on one key does there.
use agents_python_cloudflare.Prelude.{
  ◌∙◌, ◌≡◌, refl, inl, inr, Bool, true, false, none, some, List, [], ◌∷◌, arith, ltb, Bool-cases,
}
use agents_python_cloudflare.Sql.Rows.{passes}
use agents_python_cloudflare.Sql.{update, changes, delete, exists, first}

module _ {ℓ} {A : Type ℓ} where
  -- At most one row passes the test.
  abbrev pub IsUnique : (A → Bool) → List A → Type 0
  IsUnique q [] = Unit
  IsUnique q (x ∷ xs) = (q x ≡ true → exists q xs ≡ false) × IsUnique q xs

  -- No two rows have the same key.
  abbrev pub IsDistinct : (A → A → Bool) → List A → Type 0
  IsDistinct same [] = Unit
  IsDistinct same (x ∷ xs) = (exists (same x) xs ≡ false) × IsDistinct same xs

  -- `_changes` reports a row exactly where one passes the test.
  pub changes-exists : (p : A → Bool) (xs : List A) → ltb 0 (changes p xs) ≡ exists p xs
  unfolding changes exists
  changes-exists p [] = refl
  changes-exists p (x ∷ xs) = ground (arith, changes-exists p xs)

  pub exists_weaken :
      (p q : A → Bool) (xs : List A)
      → ((x : A) → p x ≡ true → q x ≡ true)
      → exists q xs ≡ false
      → exists p xs ≡ false
  unfolding exists
  exists_weaken p q [] le h = refl
  exists_weaken p q (x ∷ xs) le h = ground (arith, le x, exists_weaken p q xs le)

  pub exists-cons :
      (q : A → Bool) (x : A) (xs : List A) → exists q xs ≡ true → exists q (x ∷ xs) ≡ true
  unfolding exists
  exists-cons q x xs h = ground arith

  pub first-none : (q : A → Bool) (xs : List A) → exists q xs ≡ false → first q xs ≡ none
  unfolding exists first
  first-none q [] h = refl
  first-none q (x ∷ xs) h = ground (arith, first-none q xs)

  pub exists_first : (q : A → Bool) (xs : List A) {a : A} → first q xs ≡ some a → exists q xs ≡ true
  unfolding exists first
  exists_first q [] h = absurd (cc)
  exists_first q (x ∷ xs) {a} h = ground (arith, exists_first q xs {a = a})

  pub first_passes : (q : A → Bool) (xs : List A) {a : A} → first q xs ≡ some a → q a ≡ true
  unfolding first
  first_passes q [] h = absurd (cc)
  first_passes q (x ∷ xs) {a} h = ground (arith, first_passes q xs {a = a})

  pub exists-first-none : (q : A → Bool) (xs : List A) → first q xs ≡ none → exists q xs ≡ false
  unfolding exists first
  exists-first-none q [] h = refl
  exists-first-none q (x ∷ xs) h = ground (arith, exists-first-none q xs)

  -- A narrower test that the first row still passes finds that row.
  pub first_narrow :
      (p q : A → Bool) (xs : List A) {a : A}
      → ((x : A) → p x ≡ true → q x ≡ true)
      → first q xs ≡ some a
      → p a ≡ true
      → first p xs ≡ some a
  unfolding first
  first_narrow p q [] le h hit = h
  first_narrow p q (x ∷ xs) {a} le h hit = ground (arith, le x, first_narrow p q xs {a = a} le)

  -- What a test on the row of a key finds: the row of that key decides.
  pub exists_at_key :
      (p q : A → Bool) (xs : List A)
      → ((x : A) → p x ≡ true → q x ≡ true)
      → IsUnique q xs
      → exists p xs ≡ passes p (first q xs)
  unfolding exists first
  exists_at_key p q [] le u = refl
  exists_at_key p q (x ∷ xs) le u =
      ground (arith, le x, u.0, exists_weaken p q xs le, exists_at_key p q xs le u.1)

  pub IsUnique-IsDistinct :
      (same : A → A → Bool) (q : A → Bool) (xs : List A)
      → ((x y : A) → q x ≡ true → q y ≡ true → same x y ≡ true)
      → IsDistinct same xs
      → IsUnique q xs
  IsUnique-IsDistinct same q [] agree h = tt
  IsUnique-IsDistinct same q (x ∷ xs) agree h = (
    λ hit. exists_weaken q (same x) xs (λ y. agree x y hit) h.0,
    IsUnique-IsDistinct same q xs agree h.1,
  )

  exists-update_same :
      (q p : A → Bool) (f : A → A) (xs : List A)
      → ((x : A) → p x ≡ true → q (f x) ≡ q x)
      → exists q (update p f xs) ≡ exists q xs
  unfolding exists update
  exists-update_same q p f [] same = refl
  exists-update_same q p f (x ∷ xs) same = ground (arith, same x, exists-update_same q p f xs same)

  exists-delete-false :
      (q p : A → Bool) (xs : List A) → exists q xs ≡ false → exists q (delete p xs) ≡ false
  unfolding exists delete
  exists-delete-false q p [] h = refl
  exists-delete-false q p (x ∷ xs) h = ground (arith, exists-delete-false q p xs)

  -- An UPDATE that sets no key column keeps the keys distinct.
  pub IsDistinct-update :
      (same : A → A → Bool) (p : A → Bool) (f : A → A) (xs : List A)
      → ((x y : A) → p x ≡ true → same (f x) y ≡ same x y)
      → ((x y : A) → p y ≡ true → same x (f y) ≡ same x y)
      → IsDistinct same xs
      → IsDistinct same (update p f xs)
  unfolding update
  IsDistinct-update same p f [] left right h = tt
  IsDistinct-update same p f (x ∷ xs) left right h = (
    elim (Bool-cases (p x)) [
      | inl hit ↦ rw hit (kept (f x) (λ y. left x y hit) (λ y. right (f x) y))
      | inr miss ↦ rw miss (kept x (λ y. refl) (λ y. right x y))
    ],
    IsDistinct-update same p f xs left right h.1,
  )
    where
      kept :
          (z : A)
          → ((y : A) → same z y ≡ same x y)
          → ((y : A) → p y ≡ true → same z (f y) ≡ same z y)
          → exists (same z) (update p f xs) ≡ false
      kept z eq set =
          rw (exists-update_same (same z) p f xs set)
            (exists_weaken (same z) (same x) xs (λ y e. rw (← eq y) e) h.0)

  pub IsDistinct-delete :
      (same : A → A → Bool) (p : A → Bool) (xs : List A)
      → IsDistinct same xs
      → IsDistinct same (delete p xs)
  unfolding delete
  IsDistinct-delete same p [] h = tt
  IsDistinct-delete same p (x ∷ xs) h = elim (Bool-cases (p x)) [
    | inl hit ↦ rw hit (IsDistinct-delete same p xs h.1)
    | inr miss ↦ rw miss (exists-delete-false (same x) p xs h.0, IsDistinct-delete same p xs h.1)
  ]

  pub first-delete :
      (q p : A → Bool) (xs : List A)
      → ((x : A) → q x ≡ true → p x ≡ false)
      → first q (delete p xs) ≡ first q xs
  unfolding first delete
  first-delete q p [] keep = refl
  first-delete q p (x ∷ xs) keep = ground (arith, keep x, first-delete q p xs keep)

  pub exists-delete_self :
      (q p : A → Bool) (xs : List A)
      → ((x : A) → q x ≡ true → p x ≡ true)
      → exists q (delete p xs) ≡ false
  unfolding exists delete
  exists-delete_self q p [] all = refl
  exists-delete_self q p (x ∷ xs) all = ground (arith, all x, exists-delete_self q p xs all)

  -- An UPDATE that leaves a test alone keeps the one row of the test the only one.
  pub IsUnique-update :
      (q p : A → Bool) (f : A → A) (xs : List A)
      → ((x : A) → q (f x) ≡ q x)
      → IsUnique q xs
      → IsUnique q (update p f xs)
  unfolding update
  IsUnique-update q p f [] same u = tt
  IsUnique-update q p f (x ∷ xs) same u = (
    λ hit. exists-update_same q p f xs (λ y h. same y) ∙ u.0 (ground (arith, same x)),
    IsUnique-update q p f xs same u.1,
  )

  -- To delete the only row of a test is to leave it none.
  pub first-delete_unique :
      (q p : A → Bool) (xs : List A) {a : A}
      → IsUnique q xs
      → first q xs ≡ some a
      → p a ≡ true
      → first q (delete p xs) ≡ none
  unfolding first delete
  first-delete_unique q p [] u h hit = refl
  first-delete_unique q p (x ∷ xs) {a} u h hit = elim (Bool-cases (q x)) [
    | inl found ↦
        let last : exists q xs ≡ false = u.0 found in
        let rest : first q (delete p xs) ≡ none =
          first-none q (delete p xs) (exists-delete-false q p xs last) in
        ground arith
    | inr other ↦ ground (arith, first-delete_unique q p xs {a = a} u.1)
  ]

  exists_found :
      (p q : A → Bool) (xs : List A) {a : A} → first p xs ≡ some a → q a ≡ true → exists q xs ≡ true
  unfolding first exists
  exists_found p q [] h hit = absurd (cc)
  exists_found p q (x ∷ xs) {a} h hit = ground (arith, exists_found p q xs {a = a})

  -- The only row that passes a test is found by it, however it was found before.
  pub first_unique :
      (p q : A → Bool) (xs : List A) {a : A}
      → IsUnique q xs
      → first p xs ≡ some a
      → q a ≡ true
      → first q xs ≡ some a
  unfolding first
  first_unique p q [] u h hit = absurd (cc)
  first_unique p q (x ∷ xs) {a} u h hit =
      ground (arith, u.0, exists_found p q xs {a = a}, first_unique p q xs {a = a} u.1)
