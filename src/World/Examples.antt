-- ===== src/World/Examples.antt =====
-- Two hosts, a crash and a restart, and the theorems of World at them.
use simloom.Prelude.{
  ℕ, Bool, true, false, Option, none, some, [], ◌∷◌, ◌≡◌, refl, err, map, After, lookup, put, All,
}
use simloom.Fixtures.{counting}
use simloom.Tape.{generate}
use simloom.Monitors.{new_monitors}
use simloom.Loop.{
  return, runtime_error, LoopHandle, Task, Loop, random_walk, new_loop, emit, emit_at,
  is_crashed_owned,
}
use simloom.Loop.Calls.{
  task_label, label_at, insert_task, sort_tasks, is_done, crash_each, check_closed, push_ready,
  note_cause,
}
use simloom.Loop.Requests.{chosen_name, register_task, create_task, crash_tasks}
use simloom.Loop.Crashed.{picked_handles}
use simloom.World.{
  Host, entry_of, target_of, live_from, live_tasks, new_host, registered, entry_name, next_task_seq,
  spawn_on, spawn, after_cut, switch_off, crash, has_raw, spawn_each, switch_on, restart, host,
}
use simloom.World.Isolated.{crash-IsIsolated}
use simloom.World.Restarted.{Restarted, restart-Restarted}

program : Unit {0}
unfolding lookup put generate new_monitors new_loop emit emit_at is_crashed_owned task_label
    label_at insert_task sort_tasks is_done crash_each check_closed push_ready note_cause
    chosen_name register_task create_task crash_tasks entry_of target_of live_from live_tasks
    new_host registered entry_name next_task_seq spawn_on spawn after_cut switch_off has_raw
    spawn_each switch_on restart host
program = tt

abbrev fresh : Loop ℕ counting
fresh = new_loop (generate counting 3) random_walk 0 1009 1000 false 0

-- Host "a" has two entries, of which the first is done; task 1 is of no host.
abbrev a : Host ℕ
a = record (new_host "a") {
  entries = some return ∷ some return ∷ [];
  spawned = 0 ∷ 2 ∷ [];
  task_seq = 2;
}

abbrev task : Option ℕ → Bool → Task
task n done = record { name = "worker"; coro = "work"; host = none; done = done }

abbrev three_tasks : Loop ℕ counting
three_tasks = record fresh { tasks = task none true ∷ task none false ∷ task none false ∷ [] }

live : live_tasks a three_tasks.tasks ≡ 2 ∷ []
unfolding program
live = refl

crash-IsIsolated_example :
    All (λ g. is_crashed_owned (2 ∷ []) g ≡ false) (picked_handles 5 (crash (a, three_tasks)).1.1)
unfolding program
crash-IsIsolated_example = crash-IsIsolated a three_tasks 2 5 refl refl

abbrev down : Host ℕ
down = record a { crashed = true; spawned = []; registered_from = 3 }

restart-Restarted_example :
    After (λ u x. Restarted down three_tasks x.0 x.1) (λ e x. ⊥) (restart none (down, three_tasks))
unfolding program
restart-Restarted_example = restart-Restarted none down three_tasks refl refl refl

abbrev after_restart : Host ℕ × Loop ℕ counting
after_restart = (restart none (down, three_tasks)).1

restarted_host : after_restart.0.spawned ≡ 3 ∷ 4 ∷ []
unfolding program
restarted_host = refl

restarted_loop : map (λ g. LoopHandle.id g) after_restart.1.ready ≡ 0 ∷ 1 ∷ []
unfolding program
restarted_loop = refl

restart_up : (restart none (a, three_tasks)).0 ≡ err (runtime_error "host is not crashed")
unfolding program
restart_up = refl

spawn-down :
    (spawn (target_of return) none none (down, three_tasks)).0
    ≡ err (runtime_error "host is crashed; restart() it first")
unfolding program
spawn-down = refl

-- An entry that a task of host "b" spawns on host "a" is live on both.
abbrev spawned_from_b : Host ℕ × Loop ℕ counting
spawned_from_b = (spawn (target_of return) none (some "b") (new_host "a", fresh)).1

live_on_a : live_tasks spawned_from_b.0 spawned_from_b.1.tasks ≡ 0 ∷ []
unfolding program
live_on_a = refl

live_on_b : live_tasks {W = ℕ} (new_host "b") spawned_from_b.1.tasks ≡ 0 ∷ []
unfolding program
live_on_b = refl
