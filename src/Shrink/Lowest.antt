-- ===== src/Shrink/Lowest.antt =====
-- What `shrink` of src/simloom/_shrink.py has tried when it ends within its budget.
use simloom.Prelude.{ℕ, ◌<◌, suc, Bool, Option, ◌≡◌, refl, subst, List, ok, All, inl, arith}
use simloom.Tape.{Prng, Exception, Draw}
use simloom.Tape.Drawing.{IsValid}
use simloom.Run.{Program, Verdict, raised, RunResult}
use simloom.Shrink.{ShrinkResult, shrink, report, final, start, rerun, chosen_test}
use simloom.Shrink.Reduction.{shrink_inversion, rerun-IsValid}
use simloom.Shrink.Minimal.{LowestFrom}
use simloom.Shrink.Minimal.Rounds.{rounds-Lowest}

same_error : (v : Verdict) (e e' : Exception) → v ≡ raised e → v ≡ raised e' → e ≡ e'
same_error v e e' h k = cc

final-Lowest :
    (run_candidate : List Draw → RunResult) (interesting : RunResult → Bool) (max_runs : ℕ)
    (failure : RunResult)
    → ((ds : List Draw) → All IsValid ds → All IsValid (run_candidate ds).tape)
    → All IsValid failure.tape
    → (final run_candidate interesting max_runs failure).runs_used < max_runs
    → LowestFrom run_candidate interesting 0
        (final run_candidate interesting max_runs failure).current
unfolding final start
final-Lowest run_candidate interesting max_runs failure runs-IsValid v h =
    rounds-Lowest run_candidate interesting max_runs runs-IsValid (suc max_runs) (start failure) v
      (omega arith) (inl refl) h

-- A shrink of a failing run that ends before its budget is used up is locally minimal: for each draw of its
-- tape that deviates, each lower value that `_descend` proposes was run in the place of the draw, and the
-- run did not pass the test, or its tape does not come before the shrunk one in the minimization order.
pub shrink-Lowest :
    (p : Prng) (program : Program) (is_instance : Exception → Exception → Bool)
    (failure : RunResult) (max_runs : ℕ) (interesting : Option (RunResult → Bool)) (e : Exception)
    (s : ShrinkResult)
    → All IsValid failure.tape
    → failure.verdict ≡ raised e
    → shrink p program is_instance failure max_runs interesting ≡ ok s
    → s.runs_used < max_runs
    → LowestFrom (rerun p program) (chosen_test is_instance e interesting) 0 s.tape
unfolding report
shrink-Lowest p program is_instance failure max_runs interesting e s v q h budget =
    let (e', q', reported) =
      shrink_inversion p program is_instance failure max_runs interesting s h in
    let test = chosen_test is_instance e' interesting in
    subst (λ x. LowestFrom (rerun p program) (chosen_test is_instance x interesting) 0 s.tape)
      (same_error failure.verdict e' e q' q)
      (subst
        (λ (z : ShrinkResult). z.runs_used < max_runs → LowestFrom (rerun p program) test 0 z.tape)
        reported (final-Lowest (rerun p program) test max_runs failure (rerun-IsValid p program) v)
        budget)
