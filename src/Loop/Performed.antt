-- ===== src/Loop/Performed.antt =====
-- What each request of a callback does to the loop.
use simloom.Prelude.{
  ℕ, ◌+◌, ◌∷◌, [], Option, Result, ok, err, String, Bool-cases, inl, inr, ltb, ◌&&◌, Action,
  and_then, if◌then◌else◌, Bool, true, false, length, texts, ◌>>=◌, ◌>>◌,
}
use simloom.Tape.{value_error, Prng, Exception, Tape, draw}
use simloom.Loop.{
  function, task_method, step, tape_error, LoopError, runtime_error, observed, Body, Request,
  return, raises, ask, Loop, emit, emit_at, Callable, ask_call_soon, ask_call_soon_threadsafe,
  ask_call_later, ask_call_at, ask_cancel, ask_create_task, ask_finish, ask_on_task_done, ask_time,
  ask_draw, ask_sometimes, ask_reached, ask_observe, ask_escape, ask_look, ask_update,
  ask_crash_tasks, ask_stop,
}
use simloom.Loop.Calls.{
  sort_tasks, check_closed, check_callback, is_acceptable, push_ready, push_scheduled, call_soon,
  call_at, call_later, escape, call_soon_threadsafe,
}
use simloom.Loop.Requests.{
  register_task, create_task, on_task_done, finish_task, on_tape, record_coverage,
  forbid_in_monitor, program_draw, note_fired, sometimes, reached, observe_value, crash_tasks,
  call_exception_handler, perform, run_body,
}
use simloom.Loop.Effects.{
  Effect, drifted, pushed, timed, cancelled_one, crashed_some, followed, stays, emits,
}

module _ {W : Type 0} {p : Prng} where
  abbrev Acts : {A : Type 0} → Action (Loop W p) LoopError A → Type 0
  Acts m = (s : Loop W p) → Effect s (m s).1

  bind-Acts :
      {A B : Type 0} (m : Action (Loop W p) LoopError A) (f : A → Action (Loop W p) LoopError B)
      → Acts m
      → ((a : A) → Acts (f a))
      → Acts (m >>= f)
  bind-Acts {A = A} {B = B} m f hm hf s = on_result (m s) (hm s)
    where
      on_result :
          (r : Result LoopError A × Loop W p)
          → Effect s r.1
          → Effect s (let (x, t) = r in and_then x f t).1
      on_result (ok a, t) h = followed h (hf a t)
      on_result (err e, t) h = h

  if-Acts :
      {A : Type 0} (b : Bool) (m n : Action (Loop W p) LoopError A) (s : Loop W p)
      → Effect s (m s).1
      → Effect s (n s).1
      → Effect s (if b then m s else n s).1
  if-Acts true m n s hm hn = hm
  if-Acts false m n s hm hn = hn

  pure_tt : Action (Loop W p) LoopError (Unit {0})
  pure_tt t = (ok tt, t)

  check_closed-Acts : Acts check_closed
  unfolding check_closed pure_tt
  check_closed-Acts s =
      if-Acts s.closed (λ t. (err (runtime_error "event loop is closed"), t)) pure_tt s (stays s)
        (stays s)

  check_callback-Acts : (callable : Callable) → Acts (check_callback callable)
  unfolding check_callback
  check_callback-Acts callable s = elim (Bool-cases (is_acceptable callable)) [
    | inl e ↦ rw e (stays s)
    | inr e ↦ rw e (stays s)
  ]

  guarded-Acts :
      {A : Type 0} (callable : Callable) (m : Action (Loop W p) LoopError A)
      → Acts m
      → Acts (check_closed >> (check_callback callable >> m))
  guarded-Acts callable m hm =
      bind-Acts check_closed (λ u. check_callback callable >> m) check_closed-Acts
        (λ u. bind-Acts (check_callback callable) (λ v. m) (check_callback-Acts callable) (λ v. hm))

  push_ready-Acts : (callable : Callable) (body : Body W) → Acts (push_ready callable body)
  unfolding push_ready
  push_ready-Acts callable body s = pushed callable body _

  call_soon-Acts : (callable : Callable) (body : Body W) → Acts (call_soon callable body)
  unfolding call_soon
  call_soon-Acts callable body =
      guarded-Acts callable (push_ready callable body) (push_ready-Acts callable body)

  push_scheduled-Acts :
      (when : ℕ) (callable : Callable) (body : Body W) → Acts (push_scheduled when callable body)
  unfolding push_scheduled
  push_scheduled-Acts when callable body s = timed when callable body _

  call_at-Acts :
      (when : ℕ) (callable : Callable) (body : Body W) → Acts (call_at when callable body)
  unfolding call_at
  call_at-Acts when callable body =
      guarded-Acts callable (push_scheduled when callable body)
        (push_scheduled-Acts when callable body)

  escape-Acts : (api : String) → Acts (escape {A = ℕ} api)
  unfolding escape
  escape-Acts api s = emits _ s

  on_tape-Acts : (r : Result Exception ℕ × Tape p) (s : Loop W p) → Effect s (on_tape r s).1
  unfolding on_tape
  on_tape-Acts (ok a, t) s =
      drifted t s.log s.tasks s.task_name_seq s.coverage s.unhandled s.world s.stopping
  on_tape-Acts (err e, t) s =
      drifted t s.log s.tasks s.task_name_seq s.coverage s.unhandled s.world s.stopping

  forbid-Acts : Acts forbid_in_monitor
  unfolding forbid_in_monitor pure_tt
  forbid-Acts s =
      if-Acts s.evaluating_monitors
        (λ t. (err (runtime_error "cannot be called from inside a property monitor"), t)) pure_tt s
        (stays s) (stays s)

  program_draw-Acts : (label : String) (bound : ℕ) → Acts (program_draw label bound)
  unfolding program_draw
  program_draw-Acts label bound =
      bind-Acts _ _ forbid-Acts (λ u s. on_tape-Acts (draw label bound s.tape) s)

  covers : (label : String) (s : Loop W p) → Effect s (record_coverage label s)
  unfolding record_coverage
  covers label s = drifted s.tape s.log s.tasks s.task_name_seq _ s.unhandled s.world s.stopping

  note_fired-Acts : (label : String) (percent value : ℕ) → Acts (note_fired label percent value)
  unfolding note_fired
  note_fired-Acts label percent value s =
      if-Acts (ltb value percent) (λ t. (ok 1, record_coverage label t)) (λ t. (ok 0, t)) s
        (covers label s) (stays s)

  sometimes-Acts : (label : String) (percent : ℕ) → Acts (sometimes label percent)
  unfolding sometimes
  sometimes-Acts label percent s =
      if-Acts (ltb 100 percent) (λ t. (err (tape_error value_error), t))
        (λ t. (program_draw (texts ("buggify." ∷ label ∷ [])) 100 >>= note_fired label percent) t) s
        (stays s)
        (bind-Acts (program_draw (texts ("buggify." ∷ label ∷ [])) 100) (note_fired label percent)
          (program_draw-Acts _ 100) (note_fired-Acts label percent) s)

  register_task-Acts :
      (name host : Option String) (coro : String) → Acts (register_task name host coro)
  unfolding register_task emit emit_at
  register_task-Acts name host coro t =
      drifted t.tape _ _ _ t.coverage t.unhandled t.world t.stopping

  create_task-Acts :
      (name host : Option String) (coro : String) (body : Body W)
      → Acts (create_task name host coro body)
  unfolding create_task
  create_task-Acts name host coro body s =
      bind-Acts check_closed
        (λ u. push_ready (task_method (length s.tasks) step) body >> register_task name host coro)
        check_closed-Acts
        (λ u.
          bind-Acts (push_ready (task_method (length s.tasks) step) body)
            (λ v. register_task name host coro) (push_ready-Acts _ body)
            (λ v. register_task-Acts name host coro))
        s

  finish_task-Acts : (order : ℕ) (outcome : String) → Acts (finish_task order outcome)
  unfolding finish_task
  finish_task-Acts order outcome s =
      followed (drifted s.tape s.log _ s.task_name_seq s.coverage s.unhandled s.world s.stopping) (
        call_soon-Acts (function "SimLoop._on_task_done")
          (ask (ask_on_task_done order outcome) (λ r. return)) _)

  observe_value-Acts : (name value : String) → Acts (observe_value name value)
  unfolding observe_value
  observe_value-Acts name value s =
      if-Acts s.causal (λ t. (ok 0, emit (observed name value t.current_step) t)) (λ t. (ok 0, t)) s
        (emits _ s) (stays s)

  perform-Acts : (r : Request W) → Acts (perform r)
  unfolding perform call_soon_threadsafe call_later on_task_done reached crash_tasks
  perform-Acts (ask_call_soon callable body) = call_soon-Acts callable body
  perform-Acts (ask_call_soon_threadsafe foreign callable body) = λ s.
      if-Acts (s.running && foreign) (escape _) (call_soon callable body) s (escape-Acts _ s)
        (call_soon-Acts callable body s)
  perform-Acts (ask_call_later delay callable body) =
      λ s. call_at-Acts (s.now + delay) callable body s
  perform-Acts (ask_call_at when callable body) = call_at-Acts when callable body
  perform-Acts (ask_cancel id) = λ s. cancelled_one id
  perform-Acts (ask_create_task name host coro body) = create_task-Acts name host coro body
  perform-Acts (ask_finish order outcome) = finish_task-Acts order outcome
  perform-Acts (ask_on_task_done order outcome) = λ s. emits _ s
  perform-Acts ask_time = stays
  perform-Acts (ask_draw label bound) = program_draw-Acts label bound
  perform-Acts (ask_sometimes label percent) = sometimes-Acts label percent
  perform-Acts (ask_reached label) = covers label
  perform-Acts (ask_observe name value) = observe_value-Acts name value
  perform-Acts (ask_escape api) = escape-Acts api
  perform-Acts (ask_look f) = stays
  perform-Acts (ask_update f) =
      λ s. drifted s.tape s.log s.tasks s.task_name_seq s.coverage s.unhandled _ s.stopping
  perform-Acts (ask_crash_tasks orders) = λ s. crashed_some (sort_tasks s.tasks orders)
  perform-Acts ask_stop =
      λ s. drifted s.tape s.log s.tasks s.task_name_seq s.coverage s.unhandled s.world _

  pub run_body-Effect : (body : Body W) (s : Loop W p) → Effect s (run_body body s)
  unfolding run_body call_exception_handler emit emit_at
  run_body-Effect return s = stays s
  run_body-Effect (raises error) s =
      drifted s.tape _ s.tasks s.task_name_seq s.coverage _ s.world s.stopping
  run_body-Effect (ask request next) s =
      followed (perform-Acts request s)
        (run_body-Effect (next (perform request s).0) (perform request s).1)
