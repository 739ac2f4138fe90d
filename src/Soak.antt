-- ===== src/Soak.antt =====
-- src/simloom/_soak.py: a shard of an unbounded space of seeds, with a cursor that is kept in a file.
pub mod Shards
pub mod Resume
mod Examples
use simloom.Prelude.{
  ℕ, zero, suc, ◌+◌, ◌-◌, ◌*◌, Bool, true, false, not, ◌&&◌, Option, none, some, List, [], ◌∷◌,
  ◌++◌, ltb, leb, ◌==◌, if◌then◌else◌, Result, ok, err,
}
use simloom.Tape.{Prng, Exception, value_error}
use simloom.Run.{Program, Verdict, passed, raised, RunResult, run}
use simloom.Explore.{Failure}

-- `shard_seed`
pub shard_seed : (start shards shard index : ℕ) → ℕ
shard_seed start shards shard index = start + shard + index * shards

-- The document of a checkpoint file; the keys of `cursors` are the texts of the shards.
pub record Checkpoint : Type 0 where
  pub start : ℕ
  pub shards : ℕ
  pub cursors : List (ℕ × ℕ)

pub cursor_of : ℕ → List (ℕ × ℕ) → Option ℕ
cursor_of shard [] = none
cursor_of shard ((k, v) ∷ l) = let rest = cursor_of shard l in if k == shard then some v else rest

pub set_cursor : ℕ → ℕ → List (ℕ × ℕ) → List (ℕ × ℕ)
set_cursor shard index [] = (shard, index) ∷ []
set_cursor shard index ((k, v) ∷ l) =
    let rest = set_cursor shard index l in if k == shard then (k, index) ∷ l else (k, v) ∷ rest

pub or_zero : Option ℕ → ℕ
or_zero none = 0
or_zero (some index) = index

abbrev pub matches : ℕ → ℕ → Checkpoint → Bool
matches start shards c = c.start == start && c.shards == shards

-- `_read_cursor`, of a file that may not exist.
pub read_cursor : Option Checkpoint → (start shards shard : ℕ) → Result Exception ℕ
read_cursor none start shards shard = ok 0
read_cursor (some c) start shards shard =
    if not (matches start shards c)
    then err value_error
    else ok (or_zero (cursor_of shard c.cursors))

-- The cursors that `_write_cursor` keeps.
pub kept_cursors : Option Checkpoint → (start shards : ℕ) → List (ℕ × ℕ)
kept_cursors none start shards = []
kept_cursors (some c) start shards = if matches start shards c then c.cursors else []

-- `_write_cursor`
pub write_cursor : Option Checkpoint → (start shards shard index : ℕ) → Checkpoint
write_cursor file start shards shard index = record {
  start = start;
  shards = shards;
  cursors = set_cursor shard index (kept_cursors file start shards);
}

pub record SoakReport : Type 0 where
  pub shard : ℕ
  pub shards : ℕ
  pub start : ℕ
  pub seeds : List ℕ
  pub failures : List Failure
  pub next_index : ℕ
  pub stopped_early : Bool

-- The variables of `soak`, and the checkpoint file.
pub record Soaking : Type 0 where
  pub index : ℕ
  pub seeds : List ℕ
  pub failures : List Failure
  pub stopped : Bool
  pub file : Option Checkpoint

pub add_failure : ℕ → Verdict → List Failure → List Failure
add_failure seed passed failures = failures
add_failure seed (raised e) failures = failures ++ record { seed = seed; error = e } ∷ []

abbrev pub is_empty : List Failure → Bool
is_empty [] = true
is_empty (f ∷ fs) = false

module _ (p : Prng) (program : Program) (start shards shard : ℕ)
    (checkpointed stop_on_failure : Bool) where
  -- `if cp is not None: _write_cursor(...)`
  pub save : ℕ → Option Checkpoint → Option Checkpoint
  save index file = if checkpointed then some (write_cursor file start shards shard index) else file

  -- The body of the loop, up to the test of `stop_on_failure`.
  pub soak_seed : Soaking → Soaking
  soak_seed s =
      let seed = shard_seed start shards shard s.index in
      record s {
        index = s.index + 1;
        seeds = s.seeds ++ seed ∷ [];
        failures = add_failure seed (run p program seed).verdict s.failures;
        file = save (s.index + 1) s.file;
      }

  -- `while index < count`, by recursion on the seeds that are left.
  pub soak_loop : ℕ → Soaking → Soaking
  soak_loop zero s = s
  soak_loop (suc left) s =
      let s' = soak_seed s in
      elim (not (is_empty s'.failures) && stop_on_failure) [
        | true ↦ record s' { stopped = true }
        | false ↦ soak_loop left s'
      ]

  pub soak_from : ℕ → Option Checkpoint → ℕ → Soaking
  soak_from count file index =
      soak_loop (count - index)
        (record { index = index; seeds = []; failures = []; stopped = false; file = file })

  pub report : Soaking → SoakReport
  report s = record {
    shard = shard;
    shards = shards;
    start = start;
    seeds = s.seeds;
    failures = s.failures;
    next_index = s.index;
    stopped_early = s.stopped;
  }

  pub cursor : Option Checkpoint → Result Exception ℕ
  cursor file = if checkpointed then read_cursor file start shards shard else ok 0

  pub reported :
      ℕ → Option Checkpoint → Result Exception ℕ → Result Exception SoakReport × Option Checkpoint
  reported count file (ok index) = let s = soak_from count file index in (ok (report s), s.file)
  reported count file (err e) = (err e, file)

  -- `soak(main, count=…, start=…, shards=…, shard=…, checkpoint=…, stop_on_failure=…)`
  pub soak : ℕ → Option Checkpoint → Result Exception SoakReport × Option Checkpoint
  soak count file =
      if ltb shards 1
      then (err value_error, file)
      else if not (ltb shard shards)
      then (err value_error, file)
      else reported count file (cursor file)
