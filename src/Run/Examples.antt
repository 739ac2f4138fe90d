-- ===== src/Run/Examples.antt =====
-- Runs of small programs, and the theorems of Run at them.
use simloom.Prelude.{◌≡◌, refl, none, some, [], ◌∷◌, ok, arith}
use simloom.Fixtures.{counting, two_picks, race, pick}
use simloom.Tape
use simloom.Tape.{
  Exception, strict, fallback, zero_random, seeded_random, program_error, misalignment,
  fallback_rng, draw, randrange, generate, replay_with, is_replay, replay_exact, force_fallback,
}
use simloom.Run.{passed, raised, RunResult, run, replay}
use simloom.Run.Trace.{complete, Trace}
use simloom.Run.Replay.{replay-run, replay-replay}
use simloom.Run.Strict.{replay-strict}
use simloom.Run.Zero.{fallback_rng-zero, replay-complete}

program : Unit {0}
unfolding run replay Tape.replay fallback_rng draw randrange generate replay_with is_replay
    replay_exact force_fallback complete
program = tt

abbrev lost : RunResult
lost = record {
  verdict = raised (program_error "AssertionError" "lost update");
  seed = none;
  tape = pick 1 2 ∷ pick 2 3 ∷ [];
}

run-race : run counting race 1 ≡ record lost { seed = some 1 }
unfolding program
run-race = refl

replay-run_example :
    replay counting race (run counting race 1).tape strict 0 "zero"
    ≡ ok (record (run counting race 1) { seed = none })
replay-run_example =
    replay-run counting race 1 strict 0 "zero" zero_random (fallback_rng-zero counting 0)

-- An edited tape of one draw: the run goes on by 0, and the tape of the run holds both draws.
abbrev completed : RunResult
completed = record { verdict = passed; seed = none; tape = pick 1 2 ∷ pick 0 3 ∷ [] }

replay-edited : replay counting race (pick 1 2 ∷ []) fallback 0 "zero" ≡ ok completed
unfolding program
replay-edited = refl

replay-replay_example :
    replay counting race (pick 1 2 ∷ pick 0 3 ∷ []) strict 7 "zero" ≡ ok completed
replay-replay_example =
    replay-replay counting race (pick 1 2 ∷ []) 0 7 strict "zero" "zero" zero_random completed
      (omega arith, tt) (fallback_rng-zero counting 7) replay-edited

-- What is left of a recording, or is asked of none, is a misalignment.
replay-short :
    replay counting two_picks (pick 0 2 ∷ pick 1 2 ∷ []) strict 0 "rng"
    ≡ ok (record { verdict = raised misalignment; seed = none; tape = pick 0 2 ∷ [] })
unfolding program
replay-short = refl

replay-long :
    replay counting race (pick 1 2 ∷ []) strict 0 "rng"
    ≡ ok (record { verdict = raised misalignment; seed = none; tape = pick 1 2 ∷ [] })
unfolding program
replay-long = refl

replay-exact : replay counting race (pick 1 2 ∷ pick 0 3 ∷ []) strict 0 "rng" ≡ ok completed
unfolding program
replay-exact = refl

replay-strict_example : completed.tape ≡ pick 1 2 ∷ pick 0 3 ∷ []
replay-strict_example =
    replay-strict counting race (pick 1 2 ∷ pick 0 3 ∷ []) 0 "rng" completed
      (omega arith, (omega arith, tt)) replay-exact refl

replay-complete_example :
    (r : RunResult) × (replay counting race (pick 1 2 ∷ []) fallback 0 "zero" ≡ ok r)
    × (r.tape ≡ complete race (pick 1 2 ∷ []))
    × Trace race r.tape r.verdict
replay-complete_example =
    replay-complete counting race (pick 1 2 ∷ []) 0 ((refl, refl, omega arith), tt)
