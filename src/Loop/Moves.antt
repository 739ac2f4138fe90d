-- ===== src/Loop/Moves.antt =====
-- A run of the loop as a sequence of moves: the picks of its turns, what callbacks do, and the bookkeeping.
use simloom.Prelude.{
  ℕ, zero, suc, Bool, true, false, Option, none, some, List, After, Result, ok, err, Action,
  and_then, ◌>>=◌, ◌>>◌, if◌then◌else◌, ltb, ◌==◌, not, ◌&&◌,
}
use Prim.Native.Nat.{◌%◌}
use simloom.Tape.{Prng}
use simloom.Monitors.{InvariantViolation, MonitorSet, after_step}
use simloom.Loop.{LoopError, livelock, LoopHandle, Loop, Entry, emit, emit_at, garbage_collected}
use simloom.Loop.Waiting.{settle, check_step, no_monitors}
use simloom.Loop.Requests.{run_body}
use simloom.Loop.Step.{
  begin_step, detect_livelock, collect_garbage, run_callback, run_handle, run_chosen, choose_next,
  run_once,
}
use simloom.Loop.Teardown.{turns}
use simloom.Loop.Effects.{Effect, emits, stays}
use simloom.Loop.Performed.{run_body-Effect}
use simloom.Loop.Chosen.{Chosen, Failed, choose_next-Chosen}

module _ {W : Type 0} {p : Prng} where
  pub data Moves : Loop W p → Loop W p → Type 0 where
    chosen : {s t : Loop W p} {c : Option (LoopHandle W)} → Chosen s c t → Moves s t
    failed : {s t : Loop W p} {e : LoopError} → Failed s e t → Moves s t
    acted : {s t : Loop W p} → Effect s t → Moves s t
    counted_step :
        {s : Loop W p} (current_step : Option ℕ) (step_seq instant_time instant_steps : ℕ)
        → Moves s (record s {
          current_step = current_step;
          step_seq = step_seq;
          instant_time = instant_time;
          instant_steps = instant_steps;
        })
    monitored :
        {s : Loop W p} (ms : MonitorSet W) (log : List Entry)
        → Moves s (record s { monitors = ms; evaluating_monitors = false; log = log })
    joined : {s t u : Loop W p} → Moves s t → Moves t u → Moves s u

  abbrev Makes : {A : Type 0} → Action (Loop W p) LoopError A → Type 0
  Makes m = (s : Loop W p) → Moves s (m s).1

  bind-Makes :
      {A B : Type 0} (m : Action (Loop W p) LoopError A) (f : A → Action (Loop W p) LoopError B)
      → Makes m
      → ((a : A) → Makes (f a))
      → Makes (m >>= f)
  bind-Makes {A = A} m f hm hf s = on_result (m s) (hm s)
    where
      on_result :
          (r : Result LoopError A × Loop W p)
          → Moves s r.1
          → Moves s (let (x, t) = r in and_then x f t).1
      on_result (ok a, t) h = joined h (hf a t)
      on_result (err e, t) h = h

  after-Moves :
      {A : Type 0} (s : Loop W p) (c : A → Option (LoopHandle W))
      (r : Result LoopError A × Loop W p)
      → After (λ a t. Chosen s (c a) t) (Failed s) r
      → Moves s r.1
  after-Moves s c (ok a, t) h = chosen h
  after-Moves s c (err e, t) h = failed h

  choose_next-Makes : Makes choose_next
  choose_next-Makes s = after-Moves s (λ c. c) (choose_next s) (choose_next-Chosen s)

  settle-Moves :
      (r : Option InvariantViolation × MonitorSet W) (s : Loop W p) → Moves s (settle r s).1
  unfolding settle emit_at
  settle-Moves (none, ms) s = monitored ms s.log
  settle-Moves (some v, ms) s = monitored ms _

  detect_livelock-Makes : Makes detect_livelock
  unfolding detect_livelock
  detect_livelock-Makes s = on_test (ltb s.max_steps_per_instant steps)
    where
      steps : ℕ
      steps = if s.now == s.instant_time then suc s.instant_steps else 1

      t : Loop W p
      t = record s { instant_time = s.now; instant_steps = steps }

      on_test :
          (b : Bool)
          → Moves s
              (if◌then◌else◌ {A = Result LoopError (Unit {0}) × Loop W p} b
                (err (livelock steps), t)
                (ok tt, t)).1
      on_test true = counted_step s.current_step s.step_seq s.now steps
      on_test false = counted_step s.current_step s.step_seq s.now steps

  collect_garbage-Moves : (s : Loop W p) → Moves s (collect_garbage s)
  unfolding collect_garbage
  collect_garbage-Moves s = on_test (not (s.gc_interval == 0) && (s.step_seq % s.gc_interval == 0))
    where
      on_test : (b : Bool) → Moves s (if b then emit garbage_collected s else s)
      on_test true = acted (emits _ s)
      on_test false = acted (stays s)

  run_callback-Makes : (h : LoopHandle W) → Makes (run_callback h)
  unfolding run_callback check_step
  run_callback-Makes h s = on_test (t.monitoring_enabled && not (no_monitors t.monitors))
    where
      t : Loop W p
      t = run_body h.body (collect_garbage s)

      ran : Moves s t
      ran = joined (collect_garbage-Moves s) (acted (run_body-Effect h.body (collect_garbage s)))

      on_test : (b : Bool) → Moves s (if b then check_step t else (ok tt, t)).1
      on_test true = joined ran (settle-Moves (after_step t.now t.world t.monitors) t)
      on_test false = ran

  run_handle-Makes : (h : LoopHandle W) → Makes (run_handle h)
  unfolding run_handle begin_step
  run_handle-Makes h s =
      joined (counted_step (some s.step_seq) (suc s.step_seq) s.instant_time s.instant_steps) (
        bind-Makes detect_livelock (λ u. run_callback h) detect_livelock-Makes
          (λ u. run_callback-Makes h) (begin_step s))

  run_chosen-Makes : (c : Option (LoopHandle W)) → Makes (run_chosen c)
  unfolding run_chosen
  run_chosen-Makes none s = acted (stays s)
  run_chosen-Makes (some h) s = run_handle-Makes h s

  pub run_once-Makes : (s : Loop W p) → Moves s (run_once s).1
  unfolding run_once
  run_once-Makes = bind-Makes choose_next run_chosen choose_next-Makes run_chosen-Makes

  pub turns-Makes : (n : ℕ) (s : Loop W p) → Moves s (turns n s).1
  unfolding turns
  turns-Makes zero s = acted (stays s)
  turns-Makes (suc n) s =
      on_test s.stopping (bind-Makes run_once (λ u. turns n) run_once-Makes (λ u. turns-Makes n) s)
    where
      on_test :
          (b : Bool)
          → Moves s ((run_once >> turns n) s).1
          → Moves s (let rest = (run_once >> turns n) s in if b then (ok true, s) else rest).1
      on_test true h = acted (stays s)
      on_test false h = h
