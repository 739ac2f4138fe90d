-- ===== src/Run.antt =====
-- src/simloom/_run.py: one simulated universe, from a tape to its RunResult. The program under test
-- and the loop that runs it are seen from the tape: they are the draws that they request.
pub mod Trace
pub mod Rerun
pub mod Replay
pub mod Strict
pub mod Zero
mod Examples
use simloom.Prelude.{
  ℕ, suc, ◌+◌, String, Bool, true, false, ◌&&◌, not, ◌≡◌, ◌≢◌, refl, Option, none, some, List, [],
  ◌∷◌, ◌++◌, Result, ok, err, arith, if◌then◌else◌, bind_result,
}
use simloom.Tape
use simloom.Tape.{
  Prng, Exception, misalignment, value_error, Draw, MisalignmentPolicy, strict, fallback, Rng, Tape,
  draw, force_fallback, replay_exact, is_replay, generate,
}

-- `outcome` and `error` of a RunResult: "ok" with no error, or "error" with one.
pub data Verdict : Type 0 where
  passed : Verdict
  raised : Exception → Verdict

-- A program in its universe. `request label k next rescue` draws below k + 1: it goes on as `next v`
-- if v is drawn, and a raise ends it, after which the teardown makes the draws of `rescue`. A
-- request below 0 raises and leaves the tape alone, so it is no node.
pub data Program : Type 0 where
  finish : Verdict → Program
  request : String → ℕ → (ℕ → Program) → Program → Program

pub record RunResult : Type 0 where
  pub verdict : Verdict
  pub seed : Option ℕ
  pub tape : List Draw

abbrev is_strict : MisalignmentPolicy → Bool
is_strict strict = true
is_strict fallback = false

module _ {p : Prng} where
  -- `if isinstance(exc, TapeMisalignmentError): tape.force_fallback()`
  pub after_raise : Exception → Tape p → Tape p
  after_raise misalignment t = force_fallback t
  after_raise e t = t

  pub resume :
      (ℕ → Tape p → Verdict × Tape p)
      → (Tape p → Verdict × Tape p)
      → Result Exception ℕ × Tape p
      → Verdict × Tape p
  unfolding after_raise
  resume next rescue (ok value, t) = next value t
  resume next rescue (err e, t) = (raised e, (rescue (after_raise e t)).1)

  pub drive : Program → Tape p → Verdict × Tape p
  unfolding resume
  drive (finish verdict) t = (verdict, t)
  drive (request label k next rescue) t =
      resume (λ v. drive (next v)) (drive rescue) (draw label (suc k) t)

  -- A strict replay that passed without consuming its recording is a misalignment.
  pub check_consumed : Verdict → Tape p → Verdict
  check_consumed passed t =
      if is_replay t && is_strict t.policy && not (replay_exact t)
      then raised misalignment
      else passed
  check_consumed (raised e) t = raised e

  unfoldable pub execute : Program → Option ℕ → Tape p → RunResult
  unfolding drive check_consumed
  execute program seed t =
      let (verdict, t') = drive program t in
      record { verdict = check_consumed verdict t'; seed = seed; tape = t'.draws }

unfoldable pub run : Prng → Program → ℕ → RunResult
unfolding execute
run p program seed = execute program (some seed) (generate p seed)

unfoldable pub replay :
    Prng → Program → List Draw → MisalignmentPolicy → ℕ → String → Result Exception RunResult
unfolding execute
replay p program recorded policy fallback_seed name =
    bind_result (Tape.replay p recorded policy fallback_seed name)
      (λ t. ok (execute program none t))
