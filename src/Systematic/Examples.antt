-- ===== src/Systematic/Examples.antt =====
-- Campaigns over small programs, and the theorems of Systematic at them.
use simloom.Prelude.{◌≡◌, refl, true, false, none, some, List, [], ◌∷◌, ok, arith, inl}
use simloom.Fixtures.{counting, two_picks, race, pick, race_lost}
use simloom.Tape
use simloom.Tape.{
  Draw, fallback_rng, draw, randrange, replay_with, is_replay, replay_exact, program_error,
}
use simloom.Run.{Verdict, passed, raised, replay}
use simloom.Run.Trace.{complete}
use simloom.Systematic.{SystematicResult, explore_systematic, proven_correct, next_plan, delays}
use simloom.Systematic.Order.{Later, IsAllowed, Planned}
use simloom.Systematic.Covers.{next_plan-Planned, explore_systematic-proves}
use simloom.Systematic.Advances.{next_plan-advances}

program : Unit {0}
unfolding replay Tape.replay fallback_rng draw randrange replay_with is_replay replay_exact complete
    explore_systematic next_plan delays proven_correct
program = tt

abbrev proof : SystematicResult
proof = record {
  schedules = 3;
  failures = [];
  max_delays = 2;
  exhaustive = true;
  first_failure_at = none;
  first_failure_delays = none;
  first = none;
}

-- The three schedules of `two_picks` are run, and pass.
two_picks-proof : explore_systematic counting two_picks 2 100 256 true ≡ ok proof
unfolding program
two_picks-proof = refl

abbrev deviations : List Draw
deviations = pick 1 2 ∷ pick 1 2 ∷ []

deviations-IsAllowed : IsAllowed 2 256 deviations
unfolding delays
deviations-IsAllowed = record {
  within = omega arith;
  narrow = ((λ _. omega arith), ((λ _. omega arith), tt));
}

explore_systematic-proves_example : ◌≡◌ {A = Verdict} passed passed
unfolding proven_correct
explore_systematic-proves_example =
    explore_systematic-proves counting two_picks 2 100 256 true proof deviations passed
      two_picks-proof refl ((refl, refl, omega arith), ((refl, refl, omega arith), refl))
      deviations-IsAllowed

-- The race is found in the fifth schedule, with two delays, and in no schedule of one delay.
abbrev race_found : SystematicResult
race_found = record {
  schedules = 5;
  failures = record { seed = 5; error = program_error "AssertionError" "lost update" } ∷ [];
  max_delays = 2;
  exhaustive = false;
  first_failure_at = some 5;
  first_failure_delays = some 2;
  first = some (record {
    verdict = raised (program_error "AssertionError" "lost update");
    seed = none;
    tape = race_lost;
  });
}

race-found : explore_systematic counting race 2 100 256 true ≡ ok race_found
unfolding program
race-found = refl

race_one_delay :
    explore_systematic counting race 1 100 256 true
    ≡ ok (record proof { schedules = 4; max_delays = 1 })
unfolding program
race_one_delay = refl

abbrev first_schedule : List Draw
first_schedule = pick 0 2 ∷ []

first_schedule-IsAllowed : IsAllowed 2 256 first_schedule
unfolding delays
first_schedule-IsAllowed = record { within = omega arith; narrow = ((λ _. omega arith), tt) }

next_plan-first : next_plan 2 256 first_schedule ≡ some (pick 1 2 ∷ [])
unfolding next_plan
next_plan-first = refl

next_plan-Planned_example : Planned 2 256 two_picks first_schedule deviations
next_plan-Planned_example =
    next_plan-Planned 256 two_picks 2 first_schedule deviations passed passed
      ((refl, refl, omega arith), refl)
      ((refl, refl, omega arith), ((refl, refl, omega arith), refl)) deviations-IsAllowed
      (inl (omega arith))

next_plan-advances_example :
    Later first_schedule (complete two_picks (pick 1 2 ∷ []))
    × IsAllowed 2 256 (complete two_picks (pick 1 2 ∷ []))
next_plan-advances_example =
    next_plan-advances two_picks 2 256 first_schedule (pick 1 2 ∷ []) passed
      ((refl, refl, omega arith), refl) first_schedule-IsAllowed next_plan-first
