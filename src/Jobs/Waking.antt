-- ===== src/Jobs/Waking.antt =====
-- The alarm forgets no job, and never asks for a time that has passed.
use Prim.Native.Nat.{max}
use mathlib.Core.List.{Perm, Memᴰ}
use mathlib.Core.Logic.{◌↔◌}
use agents_python_cloudflare.Prelude.{
  ◌⊎◌, ℕ, ◌+◌, ◌≡◌, refl, ◌≤◌, ◌<◌, Bool, true, ◌||◌, Option, none, some, [], ◌∷◌, arith, All,
  Bool-cases, Option-cases, inl, inr, map, sym, ◌∙◌, leb, List, is_some, false, ◌&&◌,
}
use agents_python_cloudflare.Sql.{select}
use agents_python_cloudflare.Sql.Sorting.{IsOrdered, order_by-perm, order_by-IsOrdered}
use agents_python_cloudflare.Jobs.Rows.{JobRow, Wire}
use agents_python_cloudflare.Jobs.Validation.{max_sqlite_integer}
use agents_python_cloudflare.Jobs.Queue.{Table, by_time, valid_exclusive_time}
use agents_python_cloudflare.Jobs.Execution.{is_due, due}
use agents_python_cloudflare.Jobs.Alarm.{
  min_of, min_or, recheck_at, is_ready, is_in_flight, earlier, ready_time, recheck_time, any_row,
  after, ordinary_alarm, exclusive_alarm, next_alarm_time, is_exclusive,
}

-- A time that is at most a bound.
abbrev pub IsBy : Option ℕ → ℕ → Type 0
IsBy none bound = ⊥
IsBy (some a) bound = a ≤ bound

IsBy-min_or : (a bound : ℕ) (m : Option ℕ) → IsBy m bound → min_or a m ≤ bound
IsBy-min_or a bound none h = absurd h
IsBy-min_or a bound (some b) h = omega arith

min_or-le : (a : ℕ) (m : Option ℕ) → min_or a m ≤ a
min_or-le a none = omega arith
min_or-le a (some b) = omega arith

-- The least of the selected values is at most each of them.
min_of_selected :
    (value : JobRow → ℕ) (p : JobRow → Bool) (t : Table) (r : JobRow)
    → Memᴰ r t
    → p r ≡ true
    → IsBy (min_of (map value (select p t))) (value r)
unfolding min_of select
min_of_selected value p [] r m hit = elim m [ ]
min_of_selected value p (x ∷ xs) r (Memᴰ.head e) hit =
    rw (← e, hit) (min_or-le (value r) (min_of (map value (select p xs))))
min_of_selected value p (x ∷ xs) r (Memᴰ.tail m) hit = elim (Bool-cases (p x)) [
  | inl also ↦ rw also (
      IsBy-min_or (value x) (value r) (min_of (map value (select p xs)))
        (min_of_selected value p xs r m hit))
  | inr miss ↦ rw miss (min_of_selected value p xs r m hit)
]

IsBy-more : (a bound : ℕ) (m : Option ℕ) → a ≤ bound → IsBy m a → IsBy m bound
IsBy-more a bound none le h = absurd h
IsBy-more a bound (some b) le h = omega (arith, le, h)

min_or_above :
    (v low : ℕ) (m : Option ℕ) → low < v → ((b : ℕ) → m ≡ some b → low < b) → low < min_or v m
min_or_above v low none h f = h
min_or_above v low (some b) h f = omega (arith, f b refl)

min_of_above :
    (value : JobRow → ℕ) (p : JobRow → Bool) (low a : ℕ) (t : Table)
    → ((r : JobRow) → p r ≡ true → low < value r)
    → min_of (map value (select p t)) ≡ some a
    → low < a
unfolding min_of select
min_of_above value p low a [] above h = absurd (cc)
min_of_above value p low a (x ∷ xs) above h = elim (Bool-cases (p x)) [
  | inl hit ↦
      let least : low < min_or (value x) (min_of (map value (select p xs))) =
        min_or_above (value x) low (min_of (map value (select p xs))) (above x hit)
          (λ b e. min_of_above value p low b xs above e) in
      let same : some (min_or (value x) (min_of (map value (select p xs)))) ≡ some a =
        rw hit at h in
      ground arith
  | inr miss ↦ min_of_above value p low a xs above (rw miss at h)
]

IsBy-after :
    (time bound : ℕ) (m : Option ℕ) → IsBy m bound → IsBy (after time m) (max bound (time + 1))
IsBy-after time bound none h = absurd h
IsBy-after time bound (some a) h = omega arith

IsBy-earlier_left : (a b : Option ℕ) (bound : ℕ) → IsBy a bound → IsBy (earlier a b) bound
IsBy-earlier_left none b bound h = absurd h
IsBy-earlier_left (some a) none bound h = h
IsBy-earlier_left (some a) (some b) bound h = omega arith

IsBy-earlier_right : (a b : Option ℕ) (bound : ℕ) → IsBy b bound → IsBy (earlier a b) bound
IsBy-earlier_right a none bound h = absurd h
IsBy-earlier_right none (some b) bound h = h
IsBy-earlier_right (some a) (some b) bound h = omega arith

-- The least of the selected values is the value of a selected row.
min_of_member :
    (value : JobRow → ℕ) (p : JobRow → Bool) (a : ℕ) (t : Table)
    → min_of (map value (select p t)) ≡ some a
    → (r : JobRow) × Memᴰ r t × (p r ≡ true) × (value r ≡ a)
unfolding min_of select
min_of_member value p a [] h = absurd (cc)
min_of_member value p a (x ∷ xs) h = elim (Bool-cases (p x)) [
  | inr miss ↦
      let (r, m, hit, at) = min_of_member value p a xs (rw miss at h) in (r, Memᴰ.tail m, hit, at)
  | inl hit ↦
      from (min_of (map value (select p xs))) (λ b. min_of_member value p b xs) hit (rw hit at h)
]
  where
    from :
        (m : Option ℕ)
        → ((b : ℕ) → m ≡ some b → (r : JobRow) × Memᴰ r xs × (p r ≡ true) × (value r ≡ b))
        → p x ≡ true
        → some (min_or (value x) m) ≡ some a
        → (r : JobRow) × Memᴰ r (x ∷ xs) × (p r ≡ true) × (value r ≡ a)
    from none e hit h = (x, Memᴰ.head refl, hit, cc)
    from (some b) e hit h = elim (Bool-cases (leb (value x) b)) [
      | inl first ↦ (x, Memᴰ.head refl, hit, ground arith)
      | inr later ↦
          let at : b ≡ a = ground arith in
          let (r, m, hit', at') = e b refl in (r, Memᴰ.tail m, hit', at' ∙ at)
    ]

-- A row is not held back: no exclusive row can be read, or the row is exclusive itself.
abbrev pub IsLet : Option ℕ → JobRow → Type 0
IsLet none r = Unit
IsLet (some exclusive_time) r = r.exclusive ≡ 1

-- What an alarm owes a row: it is set no later than the row's time or the next millisecond,
-- whichever is later; or the row is a running single-flight job that does not count as hung yet, and
-- the alarm is set no later than when it does.
abbrev pub IsCovered : ℕ → Option ℕ → JobRow → Type 0
IsCovered time alarm r =
    IsBy alarm (max r.time (time + 1))
    ⊎ ((r.singleflight ≡ 1) × (r.running ≡ 1) × (time < recheck_at r) × IsBy alarm (recheck_at r))

module _ (time : ℕ) (t : Table) (r : JobRow) (m : Memᴰ r t) (fits : r.time ≤ max_sqlite_integer)
    (single : r.singleflight ≤ 1) (run : r.running ≤ 1) where
  ordinary_alarm-covers : IsCovered time (ordinary_alarm time t) r
  unfolding ordinary_alarm ready_time recheck_time
  ordinary_alarm-covers = elim (Bool-cases (is_ready time r)) [
    | inl ready ↦ inl (
        IsBy-earlier_left (after time _) _ _
          (IsBy-after time r.time _ (min_of_selected (λ x. x.time) (is_ready time) t r m ready)))
    | inr waiting ↦
        let flying : is_in_flight time r ≡ true = ground arith in
        inr (
          ground arith,
          ground arith,
          ground arith,
          IsBy-earlier_right (after time _) _ _
              (min_of_selected recheck_at (is_in_flight time) t r m flying),
        )
  ]

  exclusive_alarm-covers : r.exclusive ≡ 1 → IsCovered time (exclusive_alarm time t) r
  unfolding exclusive_alarm ready_time recheck_time
  exclusive_alarm-covers alone = elim (Bool-cases (is_ready time r)) [
    | inl ready ↦ inl (
        IsBy-earlier_left _ _ _ (
          IsBy-more r.time (max r.time (time + 1)) _ (omega arith) (
            min_of_selected (λ x. x.time) (λ x. is_exclusive x && is_ready time x) t r m
              (ground arith))))
    | inr waiting ↦
        let flying : is_in_flight time r ≡ true = ground arith in
        inr (
          ground arith,
          ground arith,
          ground arith,
          IsBy-earlier_right _ _ _ (
              min_of_selected recheck_at (λ x. is_exclusive x && is_in_flight time x) t r m
                (ground arith)),
        )
  ]

  -- `next_alarm_time` forgets no job that may run. Let a row have a storable time and flags of 0 or 1,
  -- and be exclusive itself where an exclusive row can be read. Then an alarm is set, no later than the
  -- row's time or the next millisecond, whichever is later; or the row is a running single-flight job
  -- that does not count as hung yet, and the alarm is set no later than when it does. No sum of a
  -- start and a timeout in the table is over the greatest time.
  pub next_alarm_time-covers :
      {J : Type 0} (w : Wire J)
      → All (λ x. recheck_at x ≤ max_sqlite_integer) t
      → IsLet (valid_exclusive_time w t) r
      → IsCovered time (next_alarm_time w time t) r
  unfolding next_alarm_time
  next_alarm_time-covers w small free = elim (Option-cases (valid_exclusive_time w t)) [
    | inl ordinary ↦ rw (ordinary, next_alarm_time) ordinary_alarm-covers
    | inr (e, exclusive) ↦
        rw (exclusive, next_alarm_time) (exclusive_alarm-covers (rw exclusive at free))
  ]

ordinary_alarm-later : (time a : ℕ) (t : Table) → ordinary_alarm time t ≡ some a → time < a
unfolding ordinary_alarm recheck_time
ordinary_alarm-later time a t h =
    later (ready_time any_row time t) (min_of (map recheck_at (select (is_in_flight time) t)))
      (λ b e. min_of_above recheck_at (is_in_flight time) time b t (λ r f. ground arith) e) h
  where
    later :
        (x y : Option ℕ)
        → ((b : ℕ) → y ≡ some b → time < b)
        → earlier (after time x) y ≡ some a
        → time < a
    later none none f e = absurd (cc)
    later none (some y) f e = ground (arith, f y refl)
    later (some x) none f e = ground arith
    later (some x) (some y) f e = ground (arith, f y refl)

-- An alarm at the time of an exclusive row.
abbrev pub IsExclusiveTime : Table → ℕ → Type 0
IsExclusiveTime t a = (r : JobRow) × Memᴰ r t × (r.exclusive ≡ 1) × (r.time ≡ a)

exclusive_alarm-later :
    (time a : ℕ) (t : Table) → exclusive_alarm time t ≡ some a → (time < a) ⊎ IsExclusiveTime t a
unfolding exclusive_alarm ready_time recheck_time
exclusive_alarm-later time a t h =
    later
      (min_of (map (λ (r : JobRow). r.time) (select (λ r. is_exclusive r && is_ready time r) t)))
      (min_of (map recheck_at (select (λ r. is_exclusive r && is_in_flight time r) t)))
      (λ b e.
        let (r, m, hit, at) = min_of_member (λ (r : JobRow). r.time) _ b t e in
        (r, m, ground arith, at))
      (λ b e. min_of_above recheck_at _ time b t (λ r f. ground arith) e) h
  where
    later :
        (x y : Option ℕ)
        → ((b : ℕ) → x ≡ some b → IsExclusiveTime t b)
        → ((b : ℕ) → y ≡ some b → time < b)
        → earlier x y ≡ some a
        → (time < a) ⊎ IsExclusiveTime t a
    later none none g f e = absurd (cc)
    later none (some y) g f e = inl (ground (arith, f y refl))
    later (some x) none g f e = let e' : x ≡ a = cc in inr (rw (sym e') (g x refl))
    later (some x) (some y) g f e = elim (Bool-cases (leb x y)) [
      | inl first ↦ (let e' : x ≡ a = ground arith in inr (rw (sym e') (g x refl)))
      | inr second ↦ inl (ground (arith, f y refl))
    ]

-- An alarm is set for a later time than the present, unless an exclusive row can be read: then it may
-- also be the very time of an exclusive row, which may have passed.
pub next_alarm_time-later :
    {J : Type 0} (w : Wire J) (time a : ℕ) (t : Table)
    → next_alarm_time w time t ≡ some a
    → (time < a) ⊎ ((is_some (valid_exclusive_time w t) ≡ true) × IsExclusiveTime t a)
unfolding next_alarm_time
next_alarm_time-later w time a t h = elim (Option-cases (valid_exclusive_time w t)) [
  | inl ordinary ↦ inl (ordinary_alarm-later time a t (rw (ordinary, next_alarm_time) at h))
  | inr (e, exclusive) ↦
      elim (exclusive_alarm-later time a t (rw (exclusive, next_alarm_time) at h)) [
        | inl late ↦ inl late
        | inr at ↦ inr (rw exclusive refl, at)
      ]
]

-- In the order of times.
abbrev pub Ascends : List JobRow → Type 0
Ascends [] = Unit
Ascends (x ∷ []) = Unit
Ascends (x ∷ y ∷ l) = (x.time ≤ y.time) × Ascends (y ∷ l)

ordered-Ascends : (l : List JobRow) → IsOrdered by_time l → Ascends l
unfolding by_time
ordered-Ascends [] h = tt
ordered-Ascends (x ∷ []) h = tt
ordered-Ascends (x ∷ y ∷ l) h = (let e = h.0 in ground arith, ordered-Ascends (y ∷ l) h.1)

by_time_total : (a b : JobRow) → (by_time a b || by_time b a) ≡ true
unfolding by_time
by_time_total a b = ground arith

-- The due jobs are those rows of the table whose time has come, and that are exclusive where only
-- those are asked for: all of them, each as often as it is stored, in the order of their times.
pub due_correct :
    (time : ℕ) (exclusive_only : Bool) (t : Table)
    → Perm (due time exclusive_only t) (select (is_due time exclusive_only) t)
      × ((r : JobRow)
          → (is_due time exclusive_only r ≡ true)
            ↔ ((r.time ≤ time) × (exclusive_only ≡ true → r.exclusive ≡ 1)))
      × Ascends (due time exclusive_only t)
unfolding due
due_correct time exclusive_only t = (
  order_by-perm by_time _,
  (λ r. ((λ h. (ground arith, λ e. ground arith)), (λ h. wanted r exclusive_only h.0 h.1))),
  ordered-Ascends _ (order_by-IsOrdered by_time by_time_total _),
)
  where
    wanted :
        (r : JobRow) (b : Bool)
        → r.time ≤ time
        → (b ≡ true → r.exclusive ≡ 1)
        → is_due time b r ≡ true
    wanted r true le f = let e = f refl in ground arith
    wanted r false le f = ground arith
