-- ===== src/Loop.antt =====
-- src/simloom/_loop.py: the event loop. Here its data, its state and its log; the operations and what
-- they satisfy are in the children.
pub mod Calls
pub mod Requests
pub mod Waiting
pub mod Step
pub mod Teardown
pub mod Timers
pub mod Due
pub mod Waited
pub mod Chosen
pub mod Timely
pub mod Ran
pub mod Livelock
pub mod Deadlock
pub mod Moves
pub mod Heap
pub mod Crashed
pub mod Kept
pub mod Erased
pub mod Passing
pub mod Unseen
pub mod Unwatched
pub mod Unmonitored
mod Examples
pub mod Effects
pub mod Performed
use simloom.Prelude.{
  ℕ, zero, suc, ◌+◌, String, Bool, true, false, not, ◌&&◌, ◌||◌, Option, none, some, List, [], ◌∷◌,
  ◌++◌, ltb, leb, ◌==◌, str_eq, any, keep, length, if◌then◌else◌, Result, ok, err, Action, Dict,
  lookup, put, texts,
}
use simloom.Tape.{Prng, Exception, Tape}
use simloom.Monitors.{InvariantViolation, MonitorSet, new_monitors}
use simloom.Sched.{Handle, task_step, ownerless, partial_of, Pct}

-- What a loop raises: the tape's errors, the verdicts on a run, and the errors of its own methods.
pub data LoopError : Type 0 where
  tape_error : Exception → LoopError
  deadlock : (pending : List String) → LoopError
  livelock : (steps : ℕ) → LoopError
  violated : InvariantViolation → LoopError
  runtime_error : String → LoopError
  type_error index_error : LoopError
  escaped : (api : String) → LoopError

-- The callable in a handle: a method of a task, which is known by its creation order; a function by
-- its qualified name; a `functools.partial`; or what `_check_callback` refuses.
pub data Method : Type 0 where
  step wakeup : Method
  method_named : String → Method

pub data Callable : Type 0 where
  task_method : (order : ℕ) → Method → Callable
  function : String → Callable
  partial : Callable → Callable
  coroutine_function not_callable : Callable

-- The callable as `_entity` of the scheduler sees it.
unfoldable pub seen : Callable → Handle
seen (task_method order method) = task_step order
seen (function name) = ownerless
seen (partial inner) = partial_of (seen inner)
seen coroutine_function = ownerless
seen not_callable = ownerless

-- What a callback does when it runs: it calls the loop and goes on by the reply, until it returns or
-- raises. `W` is the state of the program under test.
mutual
  pub data Body (W : Type 0) : Type 0 where
    return : Body W
    raises : (error : String) → Body W
    ask : Request W → (Result LoopError ℕ → Body W) → Body W

  pub data Request (W : Type 0) : Type 0 where
    ask_call_soon : Callable → Body W → Request W
    ask_call_soon_threadsafe : (foreign : Bool) → Callable → Body W → Request W
    ask_call_later : (delay : ℕ) → Callable → Body W → Request W
    ask_call_at : (when : ℕ) → Callable → Body W → Request W
    ask_cancel : (id : ℕ) → Request W
    ask_create_task : (name host : Option String) → (coro : String) → Body W → Request W
    ask_finish : (order : ℕ) → (outcome : String) → Request W
    ask_on_task_done : (order : ℕ) → (outcome : String) → Request W
    ask_time : Request W
    ask_draw : String → ℕ → Request W
    ask_sometimes : String → (percent : ℕ) → Request W
    ask_reached : String → Request W
    ask_observe : (name value : String) → Request W
    ask_escape : (api : String) → Request W
    ask_look : (W → ℕ) → Request W
    ask_update : (W → W) → Request W
    ask_crash_tasks : List ℕ → Request W
    ask_stop : Request W

-- `asyncio.Handle`: an object with an identity, its callable and what that does.
pub record LoopHandle (W : Type 0) : Type 0 where
  pub id : ℕ
  pub callable : Callable
  pub body : Body W

-- `(when, seq, handle)`
pub record Timer (W : Type 0) : Type 0 where
  pub when : ℕ
  pub seq : ℕ
  pub handle : LoopHandle W

-- A task, at the place of its creation order.
pub record Task : Type 0 where
  pub name : String
  pub coro : String
  pub host : Option String
  pub done : Bool

-- The edge that `_cause_fields` puts in the log.
pub data Cause : Type 0 where
  unrecorded root : Cause
  woken : (by : Option ℕ) → (via : String) → Cause

pub data Event : Type 0 where
  clock_jumped : Event
  stepped : (choice ready : ℕ) → (ran : String) → Cause → Event
  invariant_broken : InvariantViolation → Event
  garbage_collected : Event
  deadlocked : (pending : List String) → Event
  task_created : (task coro : String) → Event
  task_ended : (task outcome : String) → Event
  unhandled_exception : (error : String) → Event
  tried_to_escape : (api : String) → Event
  observed : (name value : String) → (at : Option ℕ) → Event
  host_crashed : (host : String) → Event
  host_restarted : (host : String) → (generation : ℕ) → Event

-- `{"seq": …, "kind": …, "t": …, **fields}`
pub record Entry : Type 0 where
  pub number : ℕ
  pub t : ℕ
  pub event : Event

pub data Scheduler : Type 0 where
  random_walk : Scheduler
  pct : Pct → Scheduler

pub record Loop (W : Type 0) (p : Prng) : Type 0 where
  pub tape : Tape p
  pub scheduler : Scheduler
  pub log : List Entry
  pub now : ℕ
  pub ready : List (LoopHandle W)
  -- the heap, smallest first
  pub scheduled : List (Timer W)
  pub timer_seq : ℕ
  pub task_name_seq : ℕ
  pub step_seq : ℕ
  pub causal : Bool
  pub current_step : Option ℕ
  pub handle_cause : List (ℕ × Cause)
  pub gc_interval : ℕ
  pub closed : Bool
  pub running : Bool
  pub stopping : Bool
  pub unhandled : List String
  pub tasks : List Task
  pub crashed_tasks : List ℕ
  pub parked : List (LoopHandle W)
  pub coverage : Dict ℕ
  pub monitors : MonitorSet W
  pub evaluating_monitors : Bool
  pub monitoring_enabled : Bool
  pub max_steps_per_instant : ℕ
  pub instant_time : ℕ
  pub instant_steps : ℕ
  -- what stands outside the object: the identities given out, the handles that were cancelled, the
  -- program's own state
  pub next_id : ℕ
  pub cancelled : List ℕ
  pub world : W

-- `SimLoop(tape, epoch=…, gc_interval=…, scheduler=…, max_steps_per_instant=…, causal=…)`
unfoldable pub new_loop :
    {W : Type 0} {p : Prng} → Tape p → Scheduler → ℕ → ℕ → ℕ → Bool → W → Loop W p
new_loop tape scheduler epoch gc_interval max_steps causal world = record {
  tape = tape;
  scheduler = scheduler;
  log = [];
  now = epoch;
  ready = [];
  scheduled = [];
  timer_seq = 0;
  task_name_seq = 0;
  step_seq = 0;
  causal = causal;
  current_step = none;
  handle_cause = [];
  gc_interval = gc_interval;
  closed = false;
  running = false;
  stopping = false;
  unhandled = [];
  tasks = [];
  crashed_tasks = [];
  parked = [];
  coverage = [];
  monitors = new_monitors;
  evaluating_monitors = false;
  monitoring_enabled = true;
  max_steps_per_instant = max_steps;
  instant_time = epoch;
  instant_steps = 0;
  next_id = 0;
  cancelled = [];
  world = world;
}

abbrev pub is_among : ℕ → List ℕ → Bool
is_among n ns = any (λ m. m == n) ns

module _ {W : Type 0} where
  -- `handle.cancelled()`
  unfoldable pub is_cancelled : List ℕ → LoopHandle W → Bool
  is_cancelled cancelled h = is_among h.id cancelled

  -- The owner is the `__self__` of the callable itself, not of one inside a partial.
  unfoldable pub is_crashed_owned : List ℕ → LoopHandle W → Bool
  is_crashed_owned crashed h = elim h.callable [
    | task_method order method ↦ is_among order crashed
    | _ ↦ false
  ]

module _ {W : Type 0} {p : Prng} where
  -- `EventLog.emit`, at the loop's time.
  unfoldable pub emit_at : ℕ → Event → Loop W p → Loop W p
  emit_at t event s = record s {
    log = s.log ++ record { number = length s.log; t = t; event = event } ∷ [];
  }

  unfoldable pub emit : Event → Loop W p → Loop W p
  unfolding emit_at
  emit event s = emit_at s.now event s

  unfoldable pub handle_is_dead : Loop W p → LoopHandle W → Bool
  unfolding is_cancelled is_crashed_owned
  handle_is_dead s h = is_cancelled s.cancelled h || is_crashed_owned s.crashed_tasks h
