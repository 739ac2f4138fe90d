-- ===== src/Shrink/Reduction.antt =====
-- What `shrink` of src/simloom/_shrink.py returns.
use simloom.Prelude.{
  String, ℕ, ◌≤◌, Bool, true, Option, none, List, ◌≡◌, refl, sym, ap, subst, ◌∙◌, All, ◌⊎◌, inl,
  inr, Result, ok, err,
}
use simloom.Tape.{
  Prng, Exception, value_error, Rng, fallback_rng, Draw, MisalignmentPolicy, fallback, zero_random,
  replay_with,
}
use simloom.Tape.Drawing.{IsValid}
use simloom.Run.{Program, Verdict, passed, raised, RunResult, replay}
use simloom.Shrink.{ShrinkResult, deviations, rerun, final, report, shrink, chosen_test}
use simloom.Run.Rerun.{execute-IsValid, execute-seed}
use simloom.Run.Replay.{replay_named, replay-replay}
use simloom.Run.Zero.{fallback_rng-zero}
use simloom.Shrink.Sound.{IsSimpler, Found, final-Sound}

pub rerun-IsValid :
    (p : Prng) (program : Program) (ds : List Draw)
    → All IsValid ds
    → All IsValid (rerun p program ds).tape
unfolding rerun replay_with
rerun-IsValid p program ds v =
    execute-IsValid program none (replay_with {p = p} ds fallback 0 zero_random)
      (record { recorded_valid = v; draws_valid = tt; counted = refl }) tt refl

-- `rerun` is the replay that the shrinker asks for.
rerun-replay :
    (p : Prng) (program : Program) (ds : List Draw)
    → replay p program ds fallback 0 "zero" ≡ ok (rerun p program ds)
unfolding rerun
rerun-replay p program ds =
    replay_named p program ds fallback 0 "zero" zero_random (fallback_rng-zero p 0)

module _ (p : Prng) (program : Program) (is_instance : Exception → Exception → Bool)
    (failure : RunResult) (max_runs : ℕ) (interesting : Option (RunResult → Bool)) where
  abbrev pub shrunk : Result Exception ShrinkResult
  shrunk = shrink p program is_instance failure max_runs interesting

  -- The result of a shrink is the report of its final variables.
  pub shrink_inversion :
      (s : ShrinkResult)
      → shrunk ≡ ok s
      → (e : Exception) × (failure.verdict ≡ raised e)
        × (report failure
              (final (rerun p program) (chosen_test is_instance e interesting) max_runs failure)
            ≡ s)
  unfolding shrink
  shrink_inversion s h = split (failure.verdict) refl h
    where
      split :
          (v : Verdict)
          → failure.verdict ≡ v
          → (elim v [
            | passed ↦ err value_error
            | raised e ↦ ok (
                report failure (
                  final (rerun p program) (chosen_test is_instance e interesting) max_runs failure))
          ])
            ≡ ok s
          → (e : Exception) × (failure.verdict ≡ raised e)
            × (report failure
                  (final (rerun p program) (chosen_test is_instance e interesting) max_runs failure)
                ≡ s)
      split passed q k = cc
      split (raised e) q k = (e, q, cc)

-- The result is the failure, or passes the test that was chosen for it.
abbrev pub StillFails :
    (Exception → Exception → Bool) → Option (RunResult → Bool) → RunResult → RunResult → Type 0
StillFails is_instance interesting failure result =
    (result ≡ failure)
    ⊎ ((e : Exception) × (failure.verdict ≡ raised e)
        × (chosen_test is_instance e interesting result ≡ true))

pub record IsReduction (is_instance : Exception → Exception → Bool)
    (interesting : Option (RunResult → Bool)) (failure : RunResult) (max_runs : ℕ)
    (s : ShrinkResult) : Type 0 where
  pub own_tape : s.tape ≡ s.result.tape
  pub simpler : IsSimpler s.tape failure.tape
  pub fewer : deviations s.tape ≤ deviations failure.tape
  pub budget : s.runs_used ≤ max_runs
  pub still_fails : StillFails is_instance interesting failure s.result

rerun_again :
    (p : Prng) (program : Program) (max_runs : ℕ) (failure : RunResult) (test : RunResult → Bool)
    (r : RunResult) (policy : MisalignmentPolicy) (seed : ℕ) (name : String) (rng : Rng p)
    → fallback_rng p name seed ≡ ok rng
    → Found (rerun p program) test max_runs failure (rerun-IsValid p program) r
    → replay p program r.tape policy seed name ≡ ok r
rerun_again p program max_runs failure test r policy seed name rng named found =
    replay-replay p program found.candidate 0 seed policy "zero" name rng r found.valid named
      (rerun-replay p program found.candidate ∙ ap ok found.ran)

seedless : (r : RunResult) → r.seed ≡ none → r ≡ record r { seed = none }
seedless r e = λ i. record r { seed = e i }

rerun-seed : (p : Prng) (program : Program) (ds : List Draw) → (rerun p program ds).seed ≡ none
unfolding rerun
rerun-seed p program ds = execute-seed program none (replay_with {p = p} ds fallback 0 zero_random)

origin-replay :
    (p : Prng) (program : Program) (max_runs : ℕ) (failure : RunResult) (test : RunResult → Bool)
    (r : RunResult) (policy : MisalignmentPolicy) (seed : ℕ) (name : String) (rng : Rng p)
    → fallback_rng p name seed ≡ ok rng
    → replay p program failure.tape policy seed name ≡ ok (record failure { seed = none })
    → (r ≡ failure) ⊎ Found (rerun p program) test max_runs failure (rerun-IsValid p program) r
    → replay p program r.tape policy seed name ≡ ok (record r { seed = none })
origin-replay p program max_runs failure test r policy seed name rng named replays (inl same) =
    subst
      (λ (z : RunResult). replay p program z.tape policy seed name ≡ ok (record z { seed = none }))
      (sym same) replays
origin-replay p program max_runs failure test r policy seed name rng named replays (inr found) =
    rerun_again p program max_runs failure test r policy seed name rng named found
    ∙ ap ok (
        seedless r
          (ap (λ (z : RunResult). z.seed) (sym found.ran) ∙ rerun-seed p program found.candidate))

-- The tape of a shrink replays, under either policy, to the result of the shrink without its seed, if
-- the draws of the failing tape are below their bounds and this tape replays so to the failure, as that
-- of a generated universe does.
pub shrink-replay :
    (p : Prng) (program : Program) (is_instance : Exception → Exception → Bool)
    (failure : RunResult) (max_runs : ℕ) (interesting : Option (RunResult → Bool))
    (s : ShrinkResult) (policy : MisalignmentPolicy) (seed : ℕ) (name : String) (rng : Rng p)
    → All IsValid failure.tape
    → fallback_rng p name seed ≡ ok rng
    → replay p program failure.tape policy seed name ≡ ok (record failure { seed = none })
    → shrink p program is_instance failure max_runs interesting ≡ ok s
    → replay p program s.tape policy seed name ≡ ok (record s.result { seed = none })
unfolding report
shrink-replay p program is_instance failure max_runs interesting s policy seed name rng v named
      replays h =
    let (e, q, reported) =
      shrink_inversion p program is_instance failure max_runs interesting s h in
    let test = chosen_test is_instance e interesting in
    let x = final-Sound (rerun p program) test max_runs failure (rerun-IsValid p program) v in
    let r = (final (rerun p program) test max_runs failure).current_result in
    subst
      (λ (z : ShrinkResult).
        replay p program z.tape policy seed name ≡ ok (record z.result { seed = none }))
      reported
      (ap (λ ds. replay p program ds policy seed name) x.tape_of
        ∙ origin-replay p program max_runs failure test r policy seed name rng named replays
            x.origin)
