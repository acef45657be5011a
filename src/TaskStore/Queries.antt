-- ===== src/TaskStore/Queries.antt =====
-- The ordered queries of agents/_task_store.py.
use agents_python_cloudflare.Prelude.{
  ℕ, String, Bool, true, false, ◌&&◌, ◌||◌, Option, none, some, List, [], ◌∷◌, map, ◌==◌, eqb, ltb,
  is_some, coalesce, if◌then◌else◌, take,
}
use agents_python_cloudflare.Prelude.Order.{text_leb}
use agents_python_cloudflare.Sql.{select, order_by}
use agents_python_cloudflare.TaskStore.Rows.{RunState, TaskRunRow, TaskStore, is_live, is_terminal}

abbrev pub same_state : RunState → RunState → Bool
same_state RunState.pending RunState.pending = true
same_state RunState.running RunState.running = true
same_state RunState.waiting RunState.waiting = true
same_state RunState.completed RunState.completed = true
same_state RunState.failed RunState.failed = true
same_state RunState.cancelled RunState.cancelled = true
same_state _ _ = false

-- state IN (?, …)
abbrev pub state_in : List RunState → RunState → Bool
state_in [] x = false
state_in (y ∷ ys) x = same_state y x || state_in ys x

-- ORDER BY run_id
unfoldable pub by_id : TaskRunRow → TaskRunRow → Bool
by_id a b = text_leb a.run_id b.run_id

unfoldable pub non_terminal_deadlines : TaskStore → List (String × ℕ)
non_terminal_deadlines s =
    map (λ (r : TaskRunRow). (r.run_id, coalesce r.next_at 0))
      (order_by by_id (select (λ (r : TaskRunRow). is_live r.state && is_some r.next_at) s.runs))

-- ORDER BY created_at DESC, run_id DESC
unfoldable pub by_newest : TaskRunRow → TaskRunRow → Bool
by_newest a b =
    if ltb b.created_at a.created_at
    then true
    else if eqb b.created_at a.created_at
    then text_leb b.run_id a.run_id
    else false

abbrev pub no_states : List RunState → Bool
no_states [] = true
no_states (x ∷ xs) = false

abbrev pub is_listed : Option String → List RunState → TaskRunRow → Bool
is_listed none states r = no_states states || state_in states r.state
is_listed (some definition) states r =
    r.definition == definition && (no_states states || state_in states r.state)

unfoldable pub list : Option String → List RunState → ℕ → TaskStore → List TaskRunRow
list definition states limit s =
    take limit (order_by by_newest (select (is_listed definition states) s.runs))

-- `rest` decides between runs that settled at one time; NULL comes first.
abbrev pub earlier_settled : Option ℕ → Option ℕ → Bool → Bool
earlier_settled none none rest = rest
earlier_settled none (some n) rest = true
earlier_settled (some m) none rest = false
earlier_settled (some m) (some n) rest = if ltb m n then true else if eqb m n then rest else false

-- ORDER BY settled_at ASC, run_id ASC
unfoldable pub by_settled : TaskRunRow → TaskRunRow → Bool
by_settled a b = earlier_settled a.settled_at b.settled_at (text_leb a.run_id b.run_id)

unfoldable pub unretained_terminal_runs : TaskStore → List TaskRunRow
unretained_terminal_runs s =
    order_by by_settled (select (λ r. eqb r.retain 0 && is_terminal r.state) s.runs)
