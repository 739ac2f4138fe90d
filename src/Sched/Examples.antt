-- ===== src/Sched/Examples.antt =====
-- Schedulers at a few callbacks, and the theorems of Sched at them.
use simloom.Prelude.{List, [], ◌∷◌, ok, ◌≡◌, refl, pos, negsuc}
use simloom.Fixtures.{counting}
use simloom.Tape.{Tape, fallback, zero_random, replay_with, draw, randrange}
use simloom.Tape.Drawing.{drawn}
use simloom.Sched.{
  Handle, task_step, ownerless, partial_of, entity, walk_pick, Pct, found_priority, set_priority,
  highest, demote, keep_rank, priority, keys_of, highest_of, choose, pct_pick,
}
use simloom.Sched.Floor.{IsStacked, pct_pick-IsStacked}

program : Unit {0}
unfolding entity walk_pick found_priority set_priority highest demote keep_rank priority keys_of
    highest_of choose pct_pick draw randrange replay_with
program = tt

-- Steps of the tasks 0 and 1, and a callback of the loop.
abbrev ready : List Handle
ready = task_step 0 ∷ partial_of (task_step 1) ∷ ownerless ∷ []

abbrev tape : Tape counting
tape =
    replay_with {p = counting} (drawn "pct.prio" 5 1024 ∷ drawn "pct.prio" 9 1024 ∷ []) fallback 0
      zero_random

abbrev fresh : Pct
fresh = record { priorities = []; floor = negsuc 0; steps = 0; change_points = 0 ∷ [] }

-- Task 1 has the highest priority; it is picked, and demoted at the change point 0.
abbrev picked : Pct
picked = record {
  priorities =
      (pos 0, (pos 5, pos 0)) ∷ (pos 1, (negsuc 0, negsuc 0)) ∷ (negsuc 0, (pos 0, pos 1)) ∷ [];
  floor = negsuc 1;
  steps = 1;
  change_points = 0 ∷ [];
}

pick-first : (pct_pick ready (fresh, tape)).0 ≡ ok 1
unfolding program
pick-first = refl

pick-state : (pct_pick ready (fresh, tape)).1.0 ≡ picked
unfolding program
pick-state = refl

abbrev walking : Tape counting
walking = replay_with {p = counting} (drawn "sched.pick" 2 3 ∷ []) fallback 0 zero_random

walk-ready : (walk_pick ready walking).0 ≡ ok 2
unfolding program
walk-ready = refl

fresh-IsStacked : IsStacked fresh
fresh-IsStacked = record { negative = refl; above = tt }

pct_pick-IsStacked_example : IsStacked (pct_pick ready (fresh, tape)).1.0
pct_pick-IsStacked_example = pct_pick-IsStacked ready fresh tape fresh-IsStacked

abbrev ranked : Pct
ranked = record fresh { priorities = (pos 0, (pos 5, pos 0)) ∷ (pos 1, (pos 9, negsuc 0)) ∷ [] }

ranked-IsStacked : IsStacked ranked
ranked-IsStacked = record { negative = refl; above = (refl, (refl, tt)) }
