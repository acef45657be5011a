-- ===== src/TaskStore/Listing.antt =====
-- The ordered queries return the rows that match, in order.
use mathlib.Core.List.{Perm}
use mathlib.Core.Logic.{◌↔◌}
use agents_python_cloudflare.Prelude.{
  ℕ, ◌≡◌, refl, ◌≤◌, ◌<◌, ◌⊎◌, inl, inr, Bool-cases, eq_iff, ltb, String, true, ◌||◌, Option, none,
  some, List, [], ◌∷◌, arith, take, length, length-take_le,
}
use agents_python_cloudflare.Prelude.Order.{text_leb, text_leb_total}
use agents_python_cloudflare.Sql.{select, order_by}
use agents_python_cloudflare.Sql.Sorting.{IsOrdered, order_by-perm, order_by-IsOrdered}
use agents_python_cloudflare.TaskStore.Rows.{RunState, TaskRunRow, TaskStore}
use agents_python_cloudflare.TaskStore.Queries.{
  by_newest, by_settled, is_listed, list, same_state, state_in, no_states,
}

by_newest_total : (a b : TaskRunRow) → (by_newest a b || by_newest b a) ≡ true
unfolding by_newest
by_newest_total a b =
    ground (arith, text_leb_total a.run_id b.run_id, text_leb_total b.run_id a.run_id)

pub by_settled_total : (a b : TaskRunRow) → (by_settled a b || by_settled b a) ≡ true
unfolding by_settled
by_settled_total a b =
    ground (arith, text_leb_total a.run_id b.run_id, text_leb_total b.run_id a.run_id)

-- A run is of the asked definition, and in one of the asked states; without an answer to either
-- question every run is.
abbrev pub IsOf : Option String → TaskRunRow → Type 0
IsOf none r = Unit
IsOf (some definition) r = r.definition ≡ definition

abbrev pub IsIn : List RunState → RunState → Type 0
IsIn [] state = ⊥
IsIn (x ∷ xs) state = (x ≡ state) ⊎ IsIn xs state

abbrev pub IsInAny : List RunState → RunState → Type 0
IsInAny [] state = Unit
IsInAny (x ∷ xs) state = IsIn (x ∷ xs) state

-- A run is newer than another, or as new with no lesser id.
abbrev pub IsNewer : TaskRunRow → TaskRunRow → Type 0
IsNewer a b =
    (b.created_at < a.created_at)
    ⊎ ((b.created_at ≡ a.created_at) × (text_leb b.run_id a.run_id ≡ true))

abbrev pub Descends : List TaskRunRow → Type 0
Descends [] = Unit
Descends (a ∷ []) = Unit
Descends (a ∷ b ∷ l) = IsNewer a b × Descends (b ∷ l)

ordered-Descends : (l : List TaskRunRow) → IsOrdered by_newest l → Descends l
unfolding by_newest
ordered-Descends [] h = tt
ordered-Descends (a ∷ []) h = tt
ordered-Descends (a ∷ b ∷ l) h = (newer a b h.0, ordered-Descends (b ∷ l) h.1)
  where
    newer : (a b : TaskRunRow) → by_newest a b ≡ true → IsNewer a b
    newer a b e = elim (Bool-cases (ltb b.created_at a.created_at)) [
      | inl later ↦ inl (ground arith)
      | inr other ↦ inr (ground arith, ground arith)
    ]

same_state_iff : (x y : RunState) → (same_state x y ≡ true) ↔ (x ≡ y)
same_state_iff x y = (same x y, λ e. rw e (refl_state y))
  where
    refl_state : (x : RunState) → same_state x x ≡ true
    refl_state RunState.pending = refl
    refl_state RunState.running = refl
    refl_state RunState.waiting = refl
    refl_state RunState.completed = refl
    refl_state RunState.failed = refl
    refl_state RunState.cancelled = refl

    same : (x y : RunState) → same_state x y ≡ true → x ≡ y
    same x y h = ground arith

state_in-IsIn : (xs : List RunState) (x : RunState) → (state_in xs x ≡ true) ↔ IsIn xs x
state_in-IsIn [] x = (λ h. absurd (cc), λ h. absurd h)
state_in-IsIn (y ∷ ys) x = (
  (λ h. elim (Bool-cases (same_state y x)) [
    | inl e ↦ inl ((same_state_iff y x).0 e)
    | inr n ↦ inr ((state_in-IsIn ys x).0 (ground arith))
  ]),
  (λ h. elim h [
    | inl e ↦ (let s = (same_state_iff y x).1 e in ground arith)
    | inr i ↦ (let s = (state_in-IsIn ys x).1 i in ground arith)
  ]),
)

listed_state :
    (states : List RunState) (x : RunState)
    → ((no_states states || state_in states x) ≡ true) ↔ IsInAny states x
listed_state [] x = (λ h. tt, λ h. refl)
listed_state (y ∷ ys) x = state_in-IsIn (y ∷ ys) x

is_listed_iff :
    (definition : Option String) (states : List RunState) (r : TaskRunRow)
    → (is_listed definition states r ≡ true) ↔ (IsOf definition r × IsInAny states r.state)
is_listed_iff none states r =
    let (to, from) = listed_state states r.state in ((λ h. (tt, to h)), (λ h. from h.1))
is_listed_iff (some definition) states r =
    let (to, from) = listed_state states r.state in
    (
      (λ h. ((eq_iff r.definition definition).0 (ground arith), to (ground arith))),
      (λ h. let e = (eq_iff r.definition definition).1 h.0 in let f = from h.1 in ground arith),
    )

-- A listing is the first `limit` rows of all the runs that are listed, newest first and those of one
-- time by descending id. A run is listed exactly where it has the asked definition, if one is asked
-- for, and one of the asked states, if any are.
pub list_correct :
    (definition : Option String) (states : List RunState) (limit : ℕ) (s : TaskStore)
    → ((l : List TaskRunRow) × (list definition states limit s ≡ take limit l)
        × Perm l (select (is_listed definition states) s.runs)
        × Descends l)
      × ((r : TaskRunRow)
          → (is_listed definition states r ≡ true) ↔ (IsOf definition r × IsInAny states r.state))
      × (length (list definition states limit s) ≤ limit)
unfolding list
list_correct definition states limit s = (
  (
    sorted,
    refl,
    order_by-perm by_newest (select (is_listed definition states) s.runs),
    ordered-Descends sorted ordered,
  ),
  is_listed_iff definition states,
  length-take_le limit sorted,
)
  where
    sorted : List TaskRunRow
    sorted = order_by by_newest (select (is_listed definition states) s.runs)

    ordered : IsOrdered by_newest sorted
    ordered =
        order_by-IsOrdered by_newest by_newest_total (select (is_listed definition states) s.runs)
