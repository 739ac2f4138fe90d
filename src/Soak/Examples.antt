-- ===== src/Soak/Examples.antt =====
-- Two shards of a soak of a race, and the theorems of Soak at them.
use simloom.Prelude.{true, false, some, [], ◌∷◌, ok, err, ◌≡◌, refl, arith}
use simloom.Fixtures.{counting, race}
use simloom.Tape.{
  value_error, program_error, draw, randrange, generate, is_replay, replay_exact, force_fallback,
}
use simloom.Run.{run}
use simloom.Soak.{
  shard_seed, Checkpoint, cursor_of, set_cursor, or_zero, read_cursor, kept_cursors, write_cursor,
  add_failure, save, soak_seed, soak_loop, soak_from, report, cursor, reported, soak,
}
use simloom.Soak.Shards.{IsOfOneShard, shard_seed-IsOfOneShard}
use simloom.Soak.Resume.{IsSlice, soak-IsSlice}

program : Unit {0}
unfolding run draw randrange generate is_replay replay_exact force_fallback shard_seed cursor_of
    set_cursor or_zero read_cursor kept_cursors write_cursor add_failure save soak_seed soak_loop
    soak_from report cursor reported soak
program = tt

-- Shard 1 of 2 has run one seed.
abbrev file : Checkpoint
file = record { start = 0; shards = 2; cursors = (1, 1) ∷ [] }

resume-file :
    (soak counting race 0 2 1 true false 3 (some file)).1
    ≡ some (record file { cursors = (1, 3) ∷ [] })
unfolding program
resume-file = refl

resume-report :
    (soak counting race 0 2 1 true true 3 (some file)).0
    ≡ ok (record {
      shard = 1;
      shards = 2;
      start = 0;
      seeds = 3 ∷ [];
      failures = record { seed = 3; error = program_error "AssertionError" "lost update" } ∷ [];
      next_index = 2;
      stopped_early = true;
    })
unfolding program
resume-report = refl

other_parameters : (soak counting race 4 2 1 true false 3 (some file)).0 ≡ err value_error
unfolding program
other_parameters = refl

cursor-file : cursor counting race 0 2 1 true false (some file) ≡ ok 1
unfolding program
cursor-file = refl

soak-IsSlice_example :
    IsSlice counting race 0 2 1 true false 1 3 (soak counting race 0 2 1 true false 3 (some file))
soak-IsSlice_example =
    soak-IsSlice counting race 0 2 1 true false 3 1 (some file) (omega arith) cursor-file

shard_seed-IsOfOneShard_example : IsOfOneShard 7 3 18
shard_seed-IsOfOneShard_example = shard_seed-IsOfOneShard 7 3 18 (omega arith) (omega arith)
