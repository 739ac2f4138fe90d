-- ===== src/Loop/Requests.antt =====
-- src/simloom/_loop.py and src/simloom/_buggify.py: the requests of a callback, and `handle._run()`.
use simloom.Prelude.{
  ℕ, suc, ◌+◌, String, true, false, Option, none, some, List, [], ◌∷◌, ◌++◌, ltb, length,
  if◌then◌else◌, Result, ok, err, Action, ◌>>=◌, ◌>>◌, lookup, put, texts, decimal,
}
use simloom.Tape.{Prng, Exception, value_error, Tape, draw}
use simloom.Loop.{
  LoopError, tape_error, runtime_error, step, task_method, function, Body, return, raises, ask,
  Request, ask_call_soon, ask_call_soon_threadsafe, ask_call_later, ask_call_at, ask_cancel,
  ask_create_task, ask_finish, ask_on_task_done, ask_time, ask_draw, ask_sometimes, ask_reached,
  ask_observe, ask_escape, ask_look, ask_update, ask_crash_tasks, ask_stop, task_created,
  task_ended, unhandled_exception, observed, Loop, emit,
}
use simloom.Loop.Calls.{
  label_at, sort_tasks, crash_each, mark_done, check_closed, push_ready, call_soon, call_at,
  call_later, escape, call_soon_threadsafe,
}

module _ {W : Type 0} {p : Prng} where
  -- `name is None` stands for the default name, "Task-" and a number, that asyncio gives.
  unfoldable pub chosen_name : Option String → Option String → Loop W p → String
  chosen_name (some name) host s = name
  chosen_name none none s = texts ("task-" ∷ decimal s.task_name_seq ∷ [])
  chosen_name none (some host) s = texts (host ∷ "/" ∷ "task-" ∷ decimal s.task_name_seq ∷ [])

  unfoldable pub register_task :
      Option String → Option String → String → Action (Loop W p) LoopError ℕ
  unfolding chosen_name emit
  register_task name host coro s =
      let given = chosen_name name host s in
      (
        ok (length s.tasks),
        emit (task_created given coro) (record s {
          tasks = s.tasks ++ record { name = given; coro = coro; host = host; done = false } ∷ [];
          task_name_seq = elim name [ none ↦ suc s.task_name_seq | some n ↦ s.task_name_seq ];
        }),
      )

  -- `create_task` with no task factory; `asyncio.Task` schedules the first step of the coroutine.
  unfoldable pub create_task :
      Option String → Option String → String → Body W → Action (Loop W p) LoopError ℕ
  unfolding check_closed push_ready register_task
  create_task name host coro body s =
      (do
        check_closed
        push_ready (task_method (length s.tasks) step) body
        register_task name host coro)
        s

  -- `_on_task_done`
  unfoldable pub on_task_done : ℕ → String → Action (Loop W p) LoopError ℕ
  unfolding label_at emit
  on_task_done order outcome s = (ok 0, emit (task_ended (label_at s.tasks order) outcome) s)

  -- A task ends: `asyncio.Task` schedules the callback that `create_task` added.
  unfoldable pub finish_task : ℕ → String → Action (Loop W p) LoopError ℕ
  unfolding mark_done call_soon
  finish_task order outcome s =
      call_soon (function "SimLoop._on_task_done")
        (ask (ask_on_task_done order outcome) (λ r. return))
        (record s { tasks = mark_done order s.tasks })

  unfoldable pub on_tape : Result Exception ℕ × Tape p → Loop W p → Result LoopError ℕ × Loop W p
  on_tape (ok value, t) s = (ok value, record s { tape = t })
  on_tape (err e, t) s = (err (tape_error e), record s { tape = t })

  -- `record_coverage`
  unfoldable pub record_coverage : String → Loop W p → Loop W p
  unfolding put lookup
  record_coverage label s = record s {
    coverage = put label (elim (lookup label s.coverage) [ none ↦ 1 | some n ↦ n + 1 ]) s.coverage;
  }

  -- `_forbid_in_monitor`
  unfoldable pub forbid_in_monitor : Action (Loop W p) LoopError (Unit {0})
  forbid_in_monitor s =
      if s.evaluating_monitors
      then (err (runtime_error "cannot be called from inside a property monitor"), s)
      else (ok tt, s)

  -- `draw` of the program under test
  unfoldable pub program_draw : String → ℕ → Action (Loop W p) LoopError ℕ
  unfolding forbid_in_monitor on_tape draw
  program_draw label bound = do forbid_in_monitor; (λ s. on_tape (draw label bound s.tape) s)

  unfoldable pub note_fired : String → ℕ → ℕ → Action (Loop W p) LoopError ℕ
  unfolding record_coverage
  note_fired label percent value s =
      if ltb value percent then (ok 1, record_coverage label s) else (ok 0, s)

  -- `sometimes`, inside a simulation: 1 when it fires.
  unfoldable pub sometimes : String → ℕ → Action (Loop W p) LoopError ℕ
  unfolding program_draw note_fired
  sometimes label percent s =
      if ltb 100 percent
      then (err (tape_error value_error), s)
      else (program_draw (texts ("buggify." ∷ label ∷ [])) 100 >>= note_fired label percent) s

  -- `reached`
  unfoldable pub reached : String → Action (Loop W p) LoopError ℕ
  unfolding record_coverage
  reached label s = (ok 0, record_coverage label s)

  -- `observe`
  unfoldable pub observe_value : String → String → Action (Loop W p) LoopError ℕ
  unfolding emit
  observe_value name value s =
      if s.causal then (ok 0, emit (observed name value s.current_step) s) else (ok 0, s)

  -- `_crash_tasks`
  unfoldable pub crash_tasks : List ℕ → Loop W p → Loop W p
  unfolding crash_each sort_tasks
  crash_tasks orders s = record s {
    crashed_tasks = crash_each s.tasks (sort_tasks s.tasks orders) s.crashed_tasks;
  }

  -- `call_exception_handler`, with no handler set.
  unfoldable pub call_exception_handler : String → Loop W p → Loop W p
  unfolding emit
  call_exception_handler error s =
      let logged = emit (unhandled_exception error) s in
      record logged { unhandled = logged.unhandled ++ error ∷ [] }

  unfoldable pub perform : Request W → Action (Loop W p) LoopError ℕ
  unfolding call_soon call_soon_threadsafe call_later call_at create_task finish_task on_task_done
      program_draw sometimes reached observe_value escape crash_tasks
  perform (ask_call_soon callable body) = call_soon callable body
  perform (ask_call_soon_threadsafe foreign callable body) =
      call_soon_threadsafe foreign callable body
  perform (ask_call_later delay callable body) = call_later delay callable body
  perform (ask_call_at when callable body) = call_at when callable body
  perform (ask_cancel id) = λ s. (ok 0, record s { cancelled = id ∷ s.cancelled })
  perform (ask_create_task name host coro body) = create_task name host coro body
  perform (ask_finish order outcome) = finish_task order outcome
  perform (ask_on_task_done order outcome) = on_task_done order outcome
  perform ask_time = λ s. (ok s.now, s)
  perform (ask_draw label bound) = program_draw label bound
  perform (ask_sometimes label percent) = sometimes label percent
  perform (ask_reached label) = reached label
  perform (ask_observe name value) = observe_value name value
  perform (ask_escape api) = escape api
  perform (ask_look f) = λ s. (ok (f s.world), s)
  perform (ask_update f) = λ s. (ok 0, record s { world = f s.world })
  perform (ask_crash_tasks orders) = λ s. (ok 0, crash_tasks orders s)
  perform ask_stop = λ s. (ok 0, record s { stopping = true })

  -- `handle._run()`: what the callback raises goes to the exception handler.
  unfoldable pub run_body : Body W → Loop W p → Loop W p
  unfolding perform call_exception_handler
  run_body return s = s
  run_body (raises error) s = call_exception_handler error s
  run_body (ask request next) s = let (reply, s') = perform request s in run_body (next reply) s'
