-- ===== src/Prelude/Tests.antt =====
-- Boolean tests on numbers and options, the conditional, and case splits that keep the equation.
use Prim.Native.Nat.{ℕ, compare, Ordering}
use Prim.Native.String.{String}
use mathlib.Core.Path.{◌≡◌, refl}
use mathlib.Core.Logic.{◌⊎◌, inl, inr}
use mathlib.Core.Bool.{Bool, true, false, ◌&&◌}
use mathlib.Core.Option.{Option, none, some}
use native.Mathlib.Omega.{arith}
use text.Mathlib.Text.{◌==◌}
use text.Mathlib.TextEquality.{eq_iff}

abbrev pub ltb : ℕ → ℕ → Bool
ltb a b = elim (compare a b) [ Ordering.lt ↦ true | _ ↦ false ]

abbrev pub leb : ℕ → ℕ → Bool
leb a b = elim (compare a b) [ Ordering.gt ↦ false | _ ↦ true ]

abbrev pub eqb : ℕ → ℕ → Bool
eqb a b = elim (compare a b) [ Ordering.eq ↦ true | _ ↦ false ]

infix 1 if◌then◌else◌
abbrev pub if◌then◌else◌ {ℓ} : {A : Type ℓ} → Bool → A → A → A
if true then x else y = x
if false then x else y = y

abbrev pub is_none {ℓ} : {A : Type ℓ} → Option A → Bool
is_none none = true
is_none (some a) = false

abbrev pub is_some {ℓ} : {A : Type ℓ} → Option A → Bool
is_some none = false
is_some (some a) = true

-- SQL's `column = ?` on a text column that may be NULL: NULL is equal to nothing.
abbrev pub holds : Option String → String → Bool
holds none t = false
holds (some s) t = s == t

-- SQL's `column <= ?` on a number column that may be NULL.
abbrev pub at_most : Option ℕ → ℕ → Bool
at_most none t = false
at_most (some n) t = leb n t

-- SQL's `column < ?` on a number column that may be NULL.
abbrev pub is_before : Option ℕ → ℕ → Bool
is_before none t = false
is_before (some n) t = ltb n t

-- SQL's `coalesce(column, ?)`.
abbrev pub coalesce {ℓ} : {A : Type ℓ} → Option A → A → A
coalesce none d = d
coalesce (some a) d = a

pub Bool-cases : (b : Bool) → (b ≡ true) ⊎ (b ≡ false)
Bool-cases true = inl refl
Bool-cases false = inr refl

pub Option-cases {ℓ} : {A : Type ℓ} (o : Option A) → (o ≡ none) ⊎ ((a : A) × (o ≡ some a))
Option-cases none = inl refl
Option-cases (some a) = inr (a, refl)

pub &&_left : (a b : Bool) → (a && b) ≡ true → a ≡ true
&&_left true b h = refl
&&_left false b h = cc

pub &&_right : (a b : Bool) → (a && b) ≡ true → b ≡ true
&&_right true b h = h
&&_right false b h = cc

-- A text column holds one value at most.
pub holds_unique : (o : Option String) (s t : String) → holds o s ≡ true → holds o t ≡ true → s ≡ t
holds_unique none s t p q = cc
holds_unique (some u) s t p q = ground (arith, eq_iff u s, eq_iff u t)
