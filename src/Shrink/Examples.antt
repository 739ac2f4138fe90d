-- ===== src/Shrink/Examples.antt =====
-- Shrinks of small failures, and the theorems of Shrink at them.
use simloom.Prelude.{Bool, true, false, none, ◌≡◌, refl, [], ◌∷◌, ok, err, arith}
use simloom.Fixtures.{counting, race, pick, race_lost}
use simloom.Tape
use simloom.Tape.{
  Exception, value_error, program_error, misalignment, strict, fallback, zero_random, fallback_rng,
  draw, randrange, generate, replay_with, is_replay, replay_exact, force_fallback,
}
use simloom.Run.{passed, raised, RunResult, run, replay, execute}
use simloom.Run.Zero.{fallback_rng-zero}
use simloom.Shrink.{
  ShrinkResult, shrink, report, final, rounds, round, minimize_pass, zero_pass, delete_pass,
  from_half, coarse_to_fine, minimize_values, try_values, zero_chunks, delete_chunks, attempt,
  try_accept, judge, start, rerun, fails_alike, chosen_test, descend, key_lt, values_lt, deviations,
}
use simloom.Shrink.Reduction.{shrink-replay}
use simloom.Shrink.Minimal.{LowestFrom}
use simloom.Shrink.Lowest.{shrink-Lowest}

program : Unit {0}
unfolding run replay Tape.replay fallback_rng draw randrange generate replay_with is_replay
    replay_exact force_fallback rerun execute
program = tt

shrinker : Unit {0}
unfolding shrink report final rounds round minimize_pass zero_pass delete_pass from_half
    coarse_to_fine minimize_values try_values zero_chunks delete_chunks attempt try_accept judge
    start fails_alike chosen_test descend key_lt values_lt deviations
shrinker = tt

abbrev same_error : Exception → Exception → Bool
same_error (program_error a b) (program_error c d) = true
same_error a b = false

-- The race lost by the larger pick of three.
abbrev lost : RunResult
lost = record {
  verdict = raised (program_error "AssertionError" "lost update");
  seed = none;
  tape = pick 1 2 ∷ pick 2 3 ∷ [];
}

abbrev shrunk_race : ShrinkResult
shrunk_race = record {
  tape = race_lost;
  result = record lost { tape = race_lost };
  runs_used = 13;
  initial_length = 2;
  initial_deviations = 2;
}

shrink-race : shrink counting race same_error lost 100 none ≡ ok shrunk_race
unfolding program shrinker
shrink-race = refl

shrink-passed :
    shrink counting race same_error (record lost { verdict = passed }) 100 none ≡ err value_error
unfolding shrinker
shrink-passed = refl

replay-lost : replay counting race lost.tape strict 0 "zero" ≡ ok (record lost { seed = none })
unfolding program
replay-lost = refl

shrink-replay_example :
    replay counting race shrunk_race.tape strict 0 "zero"
    ≡ ok (record shrunk_race.result { seed = none })
shrink-replay_example =
    shrink-replay counting race same_error lost 100 none shrunk_race strict 0 "zero" zero_random
      (omega arith, (omega arith, tt)) (fallback_rng-zero counting 0) replay-lost shrink-race

shrink-Lowest_example :
    LowestFrom
      (rerun counting race)
      (chosen_test same_error (program_error "AssertionError" "lost update") none)
      0
      race_lost
shrink-Lowest_example =
    shrink-Lowest counting race same_error lost 100 none
      (program_error "AssertionError" "lost update") shrunk_race (omega arith, (omega arith, tt))
      refl shrink-race (omega arith)

abbrev test : RunResult → Bool
test = chosen_test same_error (program_error "AssertionError" "lost update") none
