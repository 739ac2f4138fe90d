-- ===== src/Loop/Erased.antt =====
-- The requests of a callback of src/simloom/_loop.py, made of the loop without its monitors.
use simloom.Prelude.{
  ◌≡◌, refl, ap, ap₂, ◌∙◌, none, some, ℕ, ◌+◌, ◌∷◌, [], Option, Result, ok, err, String, Bool-cases,
  inl, inr, ltb, ◌&&◌, Action, and_then, if◌then◌else◌, Bool, true, false, length, texts, ◌>>=◌,
  ◌>>◌,
}
use simloom.Tape.{value_error, Prng, Exception, Tape, draw}
use simloom.Loop.{
  emit_at, function, task_method, step, tape_error, LoopError, runtime_error, observed, Body,
  Request, return, raises, ask, Loop, emit, Callable, ask_call_soon, ask_call_soon_threadsafe,
  ask_call_later, ask_call_at, ask_cancel, ask_create_task, ask_finish, ask_on_task_done, ask_time,
  ask_draw, ask_sometimes, ask_reached, ask_observe, ask_escape, ask_look, ask_update,
  ask_crash_tasks, ask_stop,
}
use simloom.Loop.Calls.{
  note_cause, mark_done, check_closed, check_callback, is_acceptable, push_ready, push_scheduled,
  call_soon, call_at, call_later, escape, call_soon_threadsafe,
}
use simloom.Loop.Requests.{
  chosen_name, register_task, create_task, on_task_done, finish_task, on_tape, record_coverage,
  forbid_in_monitor, program_draw, note_fired, sometimes, reached, observe_value, crash_tasks,
  call_exception_handler, perform, run_body,
}

module _ {W : Type 0} {p : Prng} where
  -- The loop with no monitors.
  abbrev pub erase : Loop W p → Loop W p
  erase s = record s { monitors = record { always = []; eventually = []; leads_to = [] } }

  abbrev pub erased : {A : Type 0} → Result LoopError A × Loop W p → Result LoopError A × Loop W p
  erased (r, s) = (r, erase s)

  abbrev pub Commutes : {A : Type 0} → Action (Loop W p) LoopError A → Type 0
  Commutes m = (s : Loop W p) → m (erase s) ≡ erased (m s)

  pub bind-Commutes :
      {A B : Type 0} (m : Action (Loop W p) LoopError A) (f : A → Action (Loop W p) LoopError B)
      → Commutes m
      → ((a : A) → Commutes (f a))
      → Commutes (m >>= f)
  bind-Commutes {A = A} {B = B} m f hm hf s = ap (λ x. and_then x.0 f x.1) (hm s) ∙ on_result (m s)
    where
      on_result :
          (r : Result LoopError A × Loop W p)
          → and_then (erased r).0 f (erased r).1 ≡ erased (and_then r.0 f r.1)
      on_result (ok a, t) = hf a t
      on_result (err e, t) = refl

  pub if-erased :
      {A : Type 0} (b : Bool) (x y : Result LoopError A × Loop W p)
      → (if b then erased x else erased y) ≡ erased (if b then x else y)
  if-erased true x y = refl
  if-erased false x y = refl

  check_closed-Commutes : Commutes check_closed
  unfolding check_closed
  check_closed-Commutes s =
      if-erased s.closed (err (runtime_error "event loop is closed"), s) (ok tt, s)

  check_callback-Commutes : (callable : Callable) → Commutes (check_callback callable)
  unfolding check_callback
  check_callback-Commutes callable s = elim (Bool-cases (is_acceptable callable)) [
    | inl e ↦ rw e refl
    | inr e ↦ rw e refl
  ]

  guarded-Commutes :
      {A : Type 0} (callable : Callable) (m : Action (Loop W p) LoopError A)
      → Commutes m
      → Commutes (check_closed >> (check_callback callable >> m))
  guarded-Commutes callable m hm =
      bind-Commutes check_closed (λ u. check_callback callable >> m) check_closed-Commutes
        (λ u.
          bind-Commutes (check_callback callable) (λ v. m) (check_callback-Commutes callable)
            (λ v. hm))

  push_ready-Commutes : (callable : Callable) (body : Body W) → Commutes (push_ready callable body)
  unfolding push_ready note_cause
  push_ready-Commutes callable body s = refl

  call_soon-Commutes : (callable : Callable) (body : Body W) → Commutes (call_soon callable body)
  unfolding call_soon
  call_soon-Commutes callable body =
      guarded-Commutes callable (push_ready callable body) (push_ready-Commutes callable body)

  push_scheduled-Commutes :
      (when : ℕ) (callable : Callable) (body : Body W)
      → Commutes (push_scheduled when callable body)
  unfolding push_scheduled note_cause
  push_scheduled-Commutes when callable body s = refl

  call_at-Commutes :
      (when : ℕ) (callable : Callable) (body : Body W) → Commutes (call_at when callable body)
  unfolding call_at
  call_at-Commutes when callable body =
      guarded-Commutes callable (push_scheduled when callable body)
        (push_scheduled-Commutes when callable body)

  escape-Commutes : (api : String) → Commutes (escape {A = ℕ} api)
  unfolding escape emit emit_at
  escape-Commutes api s = refl

  pub on_tape-erased :
      (r : Result Exception ℕ × Tape p) (s : Loop W p) → on_tape r (erase s) ≡ erased (on_tape r s)
  unfolding on_tape
  on_tape-erased (ok a, t) s = refl
  on_tape-erased (err e, t) s = refl

  forbid-Commutes : Commutes forbid_in_monitor
  unfolding forbid_in_monitor
  forbid-Commutes s =
      if-erased s.evaluating_monitors
        (err (runtime_error "cannot be called from inside a property monitor"), s) (ok tt, s)

  program_draw-Commutes : (label : String) (bound : ℕ) → Commutes (program_draw label bound)
  unfolding program_draw
  program_draw-Commutes label bound =
      bind-Commutes forbid_in_monitor (λ u s. on_tape (draw label bound s.tape) s) forbid-Commutes
        (λ u s. on_tape-erased (draw label bound s.tape) s)

  note_fired-Commutes :
      (label : String) (percent value : ℕ) → Commutes (note_fired label percent value)
  unfolding note_fired record_coverage
  note_fired-Commutes label percent value s =
      if-erased (ltb value percent) (ok 1, record_coverage label s) (ok 0, s)

  sometimes-Commutes : (label : String) (percent : ℕ) → Commutes (sometimes label percent)
  unfolding sometimes
  sometimes-Commutes label percent s =
      ap (λ x. if ltb 100 percent then (err (tape_error value_error), erase s) else x)
        (bind-Commutes (program_draw (texts ("buggify." ∷ label ∷ [])) 100)
          (note_fired label percent) (program_draw-Commutes _ 100)
          (note_fired-Commutes label percent) s)
      ∙ if-erased (ltb 100 percent) (err (tape_error value_error), s) _

  register_task-Commutes :
      (name host : Option String) (coro : String) → Commutes (register_task name host coro)
  unfolding register_task emit emit_at chosen_name
  register_task-Commutes (some name) host coro s = refl
  register_task-Commutes none none coro s = refl
  register_task-Commutes none (some host) coro s = refl

  create_task-Commutes :
      (name host : Option String) (coro : String) (body : Body W)
      → Commutes (create_task name host coro body)
  unfolding create_task
  create_task-Commutes name host coro body s =
      bind-Commutes check_closed
        (λ u. push_ready (task_method (length s.tasks) step) body >> register_task name host coro)
        check_closed-Commutes
        (λ u.
          bind-Commutes (push_ready (task_method (length s.tasks) step) body)
            (λ v. register_task name host coro) (push_ready-Commutes _ body)
            (λ v. register_task-Commutes name host coro))
        s

  finish_task-Commutes : (order : ℕ) (outcome : String) → Commutes (finish_task order outcome)
  unfolding finish_task
  finish_task-Commutes order outcome s =
      call_soon-Commutes (function "SimLoop._on_task_done")
        (ask (ask_on_task_done order outcome) (λ r. return))
        (record s { tasks = mark_done order s.tasks })

  observe_value-Commutes : (name value : String) → Commutes (observe_value name value)
  unfolding observe_value emit emit_at
  observe_value-Commutes name value s =
      if-erased s.causal (ok 0, emit (observed name value s.current_step) s) (ok 0, s)

  perform-Commutes : (r : Request W) → Commutes (perform r)
  unfolding perform call_soon_threadsafe call_later on_task_done reached crash_tasks record_coverage
      emit emit_at
  perform-Commutes (ask_call_soon callable body) = call_soon-Commutes callable body
  perform-Commutes (ask_call_soon_threadsafe foreign callable body) = λ s.
      ap₂ (λ x y. if s.running && foreign then x else y) (escape-Commutes _ s)
        (call_soon-Commutes callable body s)
      ∙ if-erased (s.running && foreign) _ _
  perform-Commutes (ask_call_later delay callable body) =
      λ s. call_at-Commutes (s.now + delay) callable body s
  perform-Commutes (ask_call_at when callable body) = call_at-Commutes when callable body
  perform-Commutes (ask_cancel id) = λ s. refl
  perform-Commutes (ask_create_task name host coro body) = create_task-Commutes name host coro body
  perform-Commutes (ask_finish order outcome) = finish_task-Commutes order outcome
  perform-Commutes (ask_on_task_done order outcome) = λ s. refl
  perform-Commutes ask_time = λ s. refl
  perform-Commutes (ask_draw label bound) = program_draw-Commutes label bound
  perform-Commutes (ask_sometimes label percent) = sometimes-Commutes label percent
  perform-Commutes (ask_reached label) = λ s. refl
  perform-Commutes (ask_observe name value) = observe_value-Commutes name value
  perform-Commutes (ask_escape api) = escape-Commutes api
  perform-Commutes (ask_look f) = λ s. refl
  perform-Commutes (ask_update f) = λ s. refl
  perform-Commutes (ask_crash_tasks orders) = λ s. refl
  perform-Commutes ask_stop = λ s. refl

  pub run_body-erase :
      (body : Body W) (s : Loop W p) → run_body body (erase s) ≡ erase (run_body body s)
  unfolding run_body call_exception_handler emit emit_at
  run_body-erase return s = refl
  run_body-erase (raises error) s = refl
  run_body-erase (ask request next) s =
      ap (λ x. run_body (next x.0) x.1) (perform-Commutes request s)
      ∙ run_body-erase (next (perform request s).0) (perform request s).1
