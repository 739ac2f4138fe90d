-- ===== src/Loop/Calls.antt =====
-- src/simloom/_loop.py and src/simloom/_buggify.py: what a callback can ask of the loop that runs it.
use simloom.Prelude.{
  ℕ, zero, suc, ◌+◌, String, Bool, true, false, not, ◌&&◌, ◌||◌, none, some, List, [], ◌∷◌, ◌++◌,
  ltb, leb, ◌==◌, str_eq, str_le, get_elem?, if◌then◌else◌, ok, err, Action, pure, raise, ◌>>◌,
  texts,
}
use text.Mathlib.Text.{starts_with}
use simloom.Tape.{Prng}
use simloom.Loop.{
  LoopError, runtime_error, type_error, escaped, Method, step, wakeup, method_named, Callable,
  task_method, function, partial, coroutine_function, not_callable, Body, Timer, Task, Cause, woken,
  tried_to_escape, Loop, emit, is_among,
}

-- `_task_label`
unfoldable pub task_label : Task → String
task_label t = if starts_with t.name "Task-" then t.coro else t.name

unfoldable pub label_at : List Task → ℕ → String
unfolding task_label
label_at tasks order = elim (get_elem? tasks order) [ none ↦ "<future>" | some t ↦ task_label t ]

method_kind : Method → String
method_kind step = "step"
method_kind wakeup = "wakeup"
method_kind (method_named name) = name

-- `describe_callback`
unfoldable pub describe_callback : List Task → Callable → String
unfolding label_at method_kind
describe_callback tasks (task_method order method) =
    texts (label_at tasks order ∷ "." ∷ method_kind method ∷ [])
describe_callback tasks (function name) = name
describe_callback tasks (partial inner) = describe_callback tasks inner
describe_callback tasks coroutine_function = "coroutine"
describe_callback tasks not_callable = "object"

-- `_check_callback`
unfoldable pub is_acceptable : Callable → Bool
is_acceptable coroutine_function = false
is_acceptable not_callable = false
is_acceptable callable = true

-- `_task_sort_key`
pub sort_key : List Task → ℕ → String × ℕ
unfolding label_at
sort_key tasks order = (label_at tasks order, order)

pub key_le : String × ℕ → String × ℕ → Bool
key_le (a, i) (b, j) = if str_eq a b then leb i j else str_le a b

unfoldable pub insert_task : List Task → ℕ → List ℕ → List ℕ
unfolding sort_key key_le
insert_task tasks order [] = order ∷ []
insert_task tasks order (o ∷ os) =
    let rest = insert_task tasks order os in
    if key_le (sort_key tasks order) (sort_key tasks o) then order ∷ o ∷ os else o ∷ rest

-- `sorted(tasks, key=self._task_sort_key)`
unfoldable pub sort_tasks : List Task → List ℕ → List ℕ
unfolding insert_task
sort_tasks tasks [] = []
sort_tasks tasks (o ∷ os) = insert_task tasks o (sort_tasks tasks os)

unfoldable pub is_done : List Task → ℕ → Bool
is_done tasks order = elim (get_elem? tasks order) [ none ↦ true | some t ↦ t.done ]

unfoldable pub mark_done : ℕ → List Task → List Task
mark_done order [] = []
mark_done zero (t ∷ ts) = record t { done = true } ∷ ts
mark_done (suc order) (t ∷ ts) = t ∷ mark_done order ts

-- `if id(task) not in self._crashed_ids and not task.done(): …`, one task after the other.
unfoldable pub crash_each : List Task → List ℕ → List ℕ → List ℕ
unfolding is_done
crash_each tasks [] crashed = crashed
crash_each tasks (o ∷ os) crashed =
    crash_each tasks os
      (if not (is_among o crashed) && not (is_done tasks o) then crashed ++ o ∷ [] else crashed)

module _ {W : Type 0} where
  -- `heapq.heappush`: the tuples are compared by time, then by number.
  unfoldable pub push_timer : Timer W → List (Timer W) → List (Timer W)
  push_timer t [] = t ∷ []
  push_timer t (u ∷ us) =
      let rest = push_timer t us in
      if ltb t.when u.when || (t.when == u.when && ltb t.seq u.seq) then t ∷ u ∷ us else u ∷ rest

module _ {W : Type 0} {p : Prng} where
  unfoldable pub check_closed : Action (Loop W p) LoopError (Unit {0})
  check_closed s = if s.closed then (err (runtime_error "event loop is closed"), s) else (ok tt, s)

  unfoldable pub check_callback : Callable → Action (Loop W p) LoopError (Unit {0})
  unfolding is_acceptable
  check_callback callable = if is_acceptable callable then pure tt else raise type_error

  -- `if self._causal: self._handle_cause[handle] = (self._current_step, via)`
  unfoldable pub note_cause : String → ℕ → Loop W p → List (ℕ × Cause)
  note_cause via id s =
      if s.causal then (id, woken s.current_step via) ∷ s.handle_cause else s.handle_cause

  unfoldable pub push_ready : Callable → Body W → Action (Loop W p) LoopError ℕ
  unfolding note_cause
  push_ready callable body s = (
    ok s.next_id,
    record s {
      next_id = suc s.next_id;
      handle_cause = note_cause "soon" s.next_id s;
      ready = s.ready ++ record { id = s.next_id; callable = callable; body = body } ∷ [];
    },
  )

  unfoldable pub call_soon : Callable → Body W → Action (Loop W p) LoopError ℕ
  unfolding check_closed check_callback push_ready
  call_soon callable body = do check_closed; check_callback callable; push_ready callable body

  unfoldable pub push_scheduled : ℕ → Callable → Body W → Action (Loop W p) LoopError ℕ
  unfolding note_cause push_timer
  push_scheduled when callable body s = (
    ok s.next_id,
    record s {
      next_id = suc s.next_id;
      handle_cause = note_cause "timer" s.next_id s;
      timer_seq = suc s.timer_seq;
      scheduled =
          push_timer
            (record {
              when = when;
              seq = suc s.timer_seq;
              handle = record { id = s.next_id; callable = callable; body = body };
            })
            s.scheduled;
    },
  )

  unfoldable pub call_at : ℕ → Callable → Body W → Action (Loop W p) LoopError ℕ
  unfolding check_closed check_callback push_scheduled
  call_at when callable body = do
    check_closed
    check_callback callable
    push_scheduled when callable body

  unfoldable pub call_later : ℕ → Callable → Body W → Action (Loop W p) LoopError ℕ
  unfolding call_at
  call_later delay callable body s = call_at (s.now + delay) callable body s

  -- `_escape`
  unfoldable pub escape : {A : Type 0} → String → Action (Loop W p) LoopError A
  unfolding emit
  escape api s = (err (escaped api), emit (tried_to_escape api) s)

  unfoldable pub call_soon_threadsafe : Bool → Callable → Body W → Action (Loop W p) LoopError ℕ
  unfolding escape call_soon
  call_soon_threadsafe foreign callable body s =
      if s.running && foreign
      then escape "loop.call_soon_threadsafe" s
      else call_soon callable body s
