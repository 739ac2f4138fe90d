-- ===== src/Loop/Effects.antt =====
-- What a callback does to the loop, whatever it asks for, as a relation of its states before and after.
use simloom.Prelude.{◌≡◌, refl, ◌∙◌, ℕ, suc, Bool, ◌∷◌, [], ◌++◌, List, String, Dict}
use simloom.Monitors.{MonitorSet}
use simloom.Tape.{Prng, Tape}
use simloom.Loop.{Body, Loop, emit, emit_at, Entry, Event, Task, Callable, Cause}
use simloom.Loop.Calls.{crash_each, push_timer}

-- What no callback changes: the clock, the counters of the steps and the monitors.
pub record Frame (W : Type 0) : Type 0 where
  pub now : ℕ
  pub step_seq : ℕ
  pub instant_time : ℕ
  pub instant_steps : ℕ
  pub max_steps_per_instant : ℕ
  pub monitors : MonitorSet W
  pub monitoring_enabled : Bool
  pub evaluating_monitors : Bool

module _ {W : Type 0} {p : Prng} where
  -- A callback draws, logs, names tasks, counts coverage and changes the program's state; it adds handles
  -- and timers with new numbers; it cancels handles and crashes tasks.
  pub data Effect : Loop W p → Loop W p → Type 0 where
    drifted :
        {s : Loop W p} (tape : Tape p) (log : List Entry) (tasks : List Task) (task_name_seq : ℕ)
        (coverage : Dict ℕ) (unhandled : List String) (world : W) (stopping : Bool)
        → Effect s (record s {
          tape = tape;
          log = log;
          tasks = tasks;
          task_name_seq = task_name_seq;
          coverage = coverage;
          unhandled = unhandled;
          world = world;
          stopping = stopping;
        })
    pushed :
        {s : Loop W p} (callable : Callable) (body : Body W) (causes : List (ℕ × Cause))
        → Effect s (record s {
          next_id = suc s.next_id;
          handle_cause = causes;
          ready = s.ready ++ record { id = s.next_id; callable = callable; body = body } ∷ [];
        })
    timed :
        {s : Loop W p} (when : ℕ) (callable : Callable) (body : Body W) (causes : List (ℕ × Cause))
        → Effect s (record s {
          next_id = suc s.next_id;
          handle_cause = causes;
          timer_seq = suc s.timer_seq;
          scheduled =
              push_timer
                (record {
                  when = when;
                  seq = suc s.timer_seq;
                  handle = record { id = s.next_id; callable = callable; body = body };
                })
                s.scheduled;
        })
    cancelled_one : {s : Loop W p} (id : ℕ) → Effect s (record s { cancelled = id ∷ s.cancelled })
    crashed_some :
        {s : Loop W p} (orders : List ℕ)
        → Effect s (record s { crashed_tasks = crash_each s.tasks orders s.crashed_tasks })
    followed : {s t u : Loop W p} → Effect s t → Effect t u → Effect s u

  pub stays : (s : Loop W p) → Effect s s
  stays s = drifted s.tape s.log s.tasks s.task_name_seq s.coverage s.unhandled s.world s.stopping

  pub emits : (e : Event) (s : Loop W p) → Effect s (emit e s)
  unfolding emit emit_at
  emits e s = drifted s.tape _ s.tasks s.task_name_seq s.coverage s.unhandled s.world s.stopping

  abbrev pub frame : Loop W p → Frame W
  frame s = record {
    now = s.now;
    step_seq = s.step_seq;
    instant_time = s.instant_time;
    instant_steps = s.instant_steps;
    max_steps_per_instant = s.max_steps_per_instant;
    monitors = s.monitors;
    monitoring_enabled = s.monitoring_enabled;
    evaluating_monitors = s.evaluating_monitors;
  }

  pub Effect-frame : {s t : Loop W p} → Effect s t → frame t ≡ frame s
  Effect-frame (drifted tape log tasks n coverage unhandled world stopping) = refl
  Effect-frame (pushed callable body causes) = refl
  Effect-frame (timed when callable body causes) = refl
  Effect-frame (cancelled_one id) = refl
  Effect-frame (crashed_some orders) = refl
  Effect-frame (followed e f) = Effect-frame f ∙ Effect-frame e
