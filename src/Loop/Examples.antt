-- ===== src/Loop/Examples.antt =====
-- A loop with a tick, a cancelled handle, a crashed task and two timers, and the theorems at it.
use simloom.Prelude.{
  ℕ, zero, suc, ◌+◌, ◌≤◌, ◌<◌, true, false, none, some, List, [], ◌∷◌, ◌++◌, ◌≡◌, refl, arith,
  Result, err, map, After, lookup, put, decimal, All, inl, ◌↔◌, ltb, ◌==◌,
}
use simloom.Fixtures.{counting}
use simloom.Tape.{generate, draw, randrange}
use simloom.Monitors.{
  new_monitors, after_step, fire_due, next_deadline, check_always, observe, arm, earlier,
  earliest_eventually, earliest_leads_to, scan_on, scan, scan_then, scan_both, fire_eventually,
  fire_leads_to,
}
use simloom.Loop.Erased.{erase}
use simloom.Loop.Unwatched.{Unwatched, turns-Unwatched}
use simloom.Loop.{
  LoopError, deadlock, livelock, Callable, task_method, function, step, wakeup, Body, return, ask,
  ask_update, ask_call_soon, ask_call_later, LoopHandle, Timer, Loop, random_walk, new_loop, emit,
  emit_at, is_cancelled, is_crashed_owned, handle_is_dead, seen,
}
use simloom.Loop.Calls.{
  task_label, label_at, describe_callback, is_acceptable, sort_tasks, is_done, mark_done,
  crash_each, push_timer, check_closed, check_callback, note_cause, push_ready, call_soon,
  push_scheduled, call_at, call_later, escape, call_soon_threadsafe,
}
use simloom.Loop.Requests.{
  chosen_name, register_task, create_task, on_task_done, finish_task, on_tape, record_coverage,
  forbid_in_monitor, program_draw, note_fired, sometimes, reached, observe_value, crash_tasks,
  call_exception_handler, perform, run_body,
}
use simloom.Loop.Waiting.{
  pending_from, drop_cancelled, no_monitors, compact_ready, compact, report_deadlock, settle,
  check_step, check_due, finalize_monitors, watched_deadline, jump, wait_until, await_event, place,
  take_due,
}
use simloom.Loop.Step.{
  found_cause, on_pct, pick, cause_fields, popped_at, pop_handle, next_handle, detect_livelock,
  collect_garbage, begin_step, run_callback, run_handle, take_ready, take_next, unless_over,
  choose_next, run_chosen, run_once,
}
use simloom.Loop.Teardown.{
  revive_crashed, drain_ready, check_running, turns, ended, run_forever, close,
}
use simloom.Sched.{walk_pick}
use simloom.Loop.Timely.{RanTimely, choose_next-RanTimely}
use simloom.Loop.Livelock.{turns-IsProgress}
use simloom.Loop.Deadlock.{ends_in_deadlock, Quiescent, run_once-Quiescent}
use simloom.Loop.Heap.{IsHeap, turns-IsHeap}
use simloom.Loop.Crashed.{picked_handles, picked_handles-IsIsolated}
use simloom.Loop.Kept.{HoldsOf, Held, Awaited, choose_next_keeps}

everything : Unit {0}
unfolding walk_pick lookup put decimal generate draw randrange new_monitors after_step fire_due
    next_deadline check_always observe arm earlier earliest_eventually earliest_leads_to scan_on
    scan scan_then scan_both fire_eventually fire_leads_to new_loop emit emit_at is_cancelled
    is_crashed_owned handle_is_dead seen task_label label_at describe_callback is_acceptable
    sort_tasks is_done mark_done crash_each push_timer check_closed check_callback note_cause
    push_ready call_soon push_scheduled call_at call_later escape call_soon_threadsafe chosen_name
    register_task create_task on_task_done finish_task on_tape record_coverage forbid_in_monitor
    program_draw note_fired sometimes reached observe_value crash_tasks call_exception_handler
    perform run_body pending_from drop_cancelled no_monitors compact_ready compact report_deadlock
    settle check_step check_due finalize_monitors watched_deadline jump wait_until await_event place
    take_due found_cause on_pct pick cause_fields popped_at pop_handle next_handle detect_livelock
    collect_garbage begin_step run_callback run_handle take_ready take_next unless_over choose_next
    run_chosen run_once revive_crashed drain_ready check_running turns ended run_forever close
    picked_handles
everything = tt

-- It counts, and comes again 5 ticks later.
abbrev tick : Body ℕ
tick =
    ask (ask_update (λ n. n + 1))
      (λ r. ask (ask_call_later 5 (function "tick") return) (λ r. return))

abbrev fresh : Loop ℕ counting
fresh = new_loop (generate counting 3) random_walk 0 1009 4 false 0

abbrev handle : ℕ → Callable → LoopHandle ℕ
handle id callable = record { id = id; callable = callable; body = tick }

abbrev at : ℕ → ℕ → LoopHandle ℕ → Timer ℕ
at when seq h = record { when = when; seq = seq; handle = h }

-- Handle 1 is cancelled; task 0 is crashed, and owns handles 0 and 3; the timers are of handles 2 and 3.
abbrev busy : Loop ℕ counting
busy = record fresh {
  tasks = record { name = "worker"; coro = "work"; host = some "a"; done = false } ∷ [];
  crashed_tasks = 0 ∷ [];
  cancelled = 1 ∷ [];
  ready = handle 0 (task_method 0 wakeup) ∷ handle 1 (function "late") ∷ [];
  scheduled = at 3 1 (handle 3 (task_method 0 step)) ∷ at 7 2 (handle 2 (function "tick")) ∷ [];
  timer_seq = 2;
  next_id = 4;
}

-- The time, the state, and the identities that are ready, scheduled and parked.
abbrev summary :
    {A : Type 0} → Result LoopError A × Loop ℕ counting → (ℕ × ℕ) × (List ℕ × (List ℕ × List ℕ))
summary (r, s) = (
  (s.now, s.world),
  (
    map (λ h. LoopHandle.id h) s.ready,
    (map (λ t. LoopHandle.id (Timer.handle t)) s.scheduled, map (λ h. LoopHandle.id h) s.parked),
  ),
)

-- The crashed task's timer moves the clock, and is parked.
turn_1 : summary (run_once busy) ≡ ((3, 0), ([], (2 ∷ [], 0 ∷ 3 ∷ [])))
unfolding everything
turn_1 = refl

turn_2 : summary (turns 2 busy) ≡ ((7, 1), ([], (4 ∷ [], 0 ∷ 3 ∷ [])))
unfolding everything
turn_2 = refl

turn_4 : (turns 4 busy).0 ≡ err (deadlock [])
unfolding everything
turn_4 = refl

-- The turn that runs the tick runs it at its time, 7.
abbrev later : Loop ℕ counting
later = record busy { scheduled = at 7 2 (handle 2 (function "tick")) ∷ []; ready = [] }

choose_next-RanTimely_example :
    After (RanTimely (λ h. 1 < h.id) later) (λ e t. later.now ≤ t.now) (choose_next later)
unfolding everything
choose_next-RanTimely_example = choose_next-RanTimely (λ h. 1 < h.id) later (tt, tt)

choose_next_keeps_example :
    After
      (λ c t. HoldsOf (λ h. h.id < 4) c → Held (λ h. h.id < 4) t → Awaited (λ h. h.id < 4) busy)
      (λ e t. Held (λ h. h.id < 4) t → Awaited (λ h. h.id < 4) busy)
      (choose_next busy)
choose_next_keeps_example = choose_next_keeps (λ h. h.id < 4) busy

turns-IsHeap_example : IsHeap (turns 2 busy).1
turns-IsHeap_example =
    turns-IsHeap 2 busy (((inl (omega arith), tt), (tt, tt)), (omega arith, (omega arith, tt)))

picked_handles-IsIsolated_example :
    All (λ h. is_crashed_owned (0 ∷ []) h ≡ false) (picked_handles 3 busy)
picked_handles-IsIsolated_example = picked_handles-IsIsolated 3 busy

picks : map (λ h. LoopHandle.id h) (picked_handles 3 busy) ≡ 2 ∷ 4 ∷ []
unfolding everything
picks = refl

-- A callback that schedules itself at once is stopped behind the fourth step.
spin : ℕ → Body ℕ
spin zero = return
spin (suc n) = ask (ask_call_soon (function "spin") (spin n)) (λ r. return)

abbrev spinning : Loop ℕ counting
spinning = record fresh {
  ready = record { id = 0; callable = function "spin"; body = spin 9 } ∷ [];
}

spins : (turns 9 spinning).0 ≡ err (livelock 5)
unfolding everything spin
spins = refl

turns-IsProgress_example :
    After (λ b t. (0 ≤ t.now) × (t.now ≡ 0 → t.step_seq ≤ 4)) (λ e t. 0 ≤ t.now) (turns 3 spinning)
unfolding everything
turns-IsProgress_example = turns-IsProgress 3 spinning (omega arith)

-- Only dead handles are left.
abbrev stuck : Loop ℕ counting
stuck = record busy {
  scheduled = [];
  tasks = busy.tasks ++ record { name = "main"; coro = "main"; host = none; done = false } ∷ [];
}

stuck_tasks : (run_once stuck).0 ≡ err (deadlock ("main" ∷ []))
unfolding everything
stuck_tasks = refl

run_once-Quiescent_example : (ends_in_deadlock (run_once stuck) ≡ true) ↔ Quiescent stuck
run_once-Quiescent_example = run_once-Quiescent stuck

-- The state stays small; a goal has a deadline before the timer, at which it is met; and the tick at 7 is
-- answered by the next.
abbrev watched : Loop ℕ counting
watched = record later {
  scheduled = at 7 1 (handle 2 (function "tick")) ∷ at 9 2 (handle 3 (function "tick")) ∷ [];
  monitoring_enabled = true;
  monitors = record {
    always = record { label = "small"; predicate = λ n. ltb n 9 } ∷ [];
    eventually =
        record { label = "idle"; predicate = λ n. ltb n 1; deadline = 5; satisfied = false } ∷ [];
    leads_to =
        record {
          label = "answered";
          trigger = λ n. n == 1;
          response = λ n. n == 2;
          within = 9;
          armed_deadline = none;
        }
        ∷ [];
  };
}

waits : summary (turns 1 watched) ≡ ((5, 0), ([], (2 ∷ 3 ∷ [], [])))
unfolding everything
waits = refl

passes : summary (turns 3 watched) ≡ ((9, 2), ([], (4 ∷ 5 ∷ [], [])))
unfolding everything
passes = refl

-- Without monitors these are two turns.
passes_alone : summary (turns 2 (erase watched)) ≡ ((9, 2), ([], (4 ∷ 5 ∷ [], [])))
unfolding everything
passes_alone = refl

turns-Unwatched_example :
    After (λ b t. Unwatched (erase watched) 3 b t) (λ e t. Unit {0}) (turns 3 watched)
unfolding new_loop
turns-Unwatched_example = turns-Unwatched 3 watched refl
