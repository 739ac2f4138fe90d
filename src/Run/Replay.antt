-- ===== src/Run/Replay.antt =====
-- Re-execution of a recorded universe (`replay` and `_execute` of src/simloom/_run.py).
use simloom.Prelude.{
  ℕ, String, ◌≡◌, refl, sym, ap, ◌∙◌, none, some, List, Result, ok, err, bind_result, All,
}
use simloom.Tape
use simloom.Tape.{
  Prng, Exception, misalignment, value_error, Draw, MisalignmentPolicy, strict, fallback, Rng, Tape,
  draw, force_fallback, replay_exact, is_replay, generate, replay_with, fallback_rng,
}
use simloom.Tape.Drawing.{IsValid}
use simloom.Run.Rerun.{execute-again}
use simloom.Run.{Program, RunResult, execute, run, replay}

module _ (p : Prng) (program : Program) where
  -- `replay` with a `fallback` argument that it knows is `_execute` on the tape.
  pub replay_named :
      (recorded : List Draw) (policy : MisalignmentPolicy) (seed : ℕ) (name : String) (rng : Rng p)
      → fallback_rng p name seed ≡ ok rng
      → replay p program recorded policy seed name
        ≡ ok (execute program none (replay_with recorded policy seed rng))
  unfolding replay Tape.replay
  replay_named recorded policy seed name rng named = rw named

  -- A replay that returned knew its `fallback` argument.
  pub replay_inversion :
      (recorded : List Draw) (policy : MisalignmentPolicy) (seed : ℕ) (name : String)
      (r : RunResult)
      → replay p program recorded policy seed name ≡ ok r
      → (rng : Rng p) × (execute program none (replay_with recorded policy seed rng) ≡ r)
  unfolding replay Tape.replay
  replay_inversion recorded policy seed name r e = split (fallback_rng p name seed) e
    where
      split :
          (q : Result Exception (Rng p))
          → bind_result
              (bind_result q (λ rng. ok (replay_with recorded policy seed rng)))
              (λ t. ok (execute program none t))
            ≡ ok r
          → (rng : Rng p) × (execute program none (replay_with recorded policy seed rng) ≡ r)
      split (ok rng) h = (rng, cc)
      split (err x) h = cc

-- Replaying the tape of a generated universe, under either policy and with any known fallback, gives
-- its verdict and its draws.
pub replay-run :
    (p : Prng) (program : Program) (seed : ℕ) (policy : MisalignmentPolicy) (fallback_seed : ℕ)
    (name : String) (rng : Rng p)
    → fallback_rng p name fallback_seed ≡ ok rng
    → replay p program (run p program seed).tape policy fallback_seed name
      ≡ ok (record (run p program seed) { seed = none })
unfolding run generate
replay-run p program seed policy fallback_seed name rng named =
    replay_named p program (run p program seed).tape policy fallback_seed name rng named
    ∙ ap ok (
        execute-again program (some seed) (generate p seed) rng policy fallback_seed
          (record { recorded_valid = tt; draws_valid = tt; counted = refl }) tt refl)

execute-seed :
    {p : Prng} (program : Program) (t : Tape p)
    → record (execute program none t) { seed = none } ≡ execute program none t
unfolding execute
execute-seed program t = refl

-- An edited tape that is replayed under FALLBACK records a tape that replays, under either policy,
-- to the very same result.
pub replay-replay :
    (p : Prng) (program : Program) (edited : List Draw) (seed seed' : ℕ)
    (policy : MisalignmentPolicy) (name name' : String) (rng : Rng p) (r : RunResult)
    → All IsValid edited
    → fallback_rng p name' seed' ≡ ok rng
    → replay p program edited fallback seed name ≡ ok r
    → replay p program r.tape policy seed' name' ≡ ok r
unfolding replay_with
replay-replay p program edited seed seed' policy name name' rng r valid named e =
    let (rng', ran) = replay_inversion p program edited fallback seed name r e in
    let t : Tape p = replay_with edited fallback seed rng' in
    replay_named p program r.tape policy seed' name' rng named
    ∙ ap (λ (z : RunResult). ok (execute program none (replay_with z.tape policy seed' rng)))
        (sym ran)
    ∙ ap ok (
        execute-again program none t rng policy seed'
          (record { recorded_valid = valid; draws_valid = tt; counted = refl }) tt refl
        ∙ execute-seed program t
        ∙ ran)
