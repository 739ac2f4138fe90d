-- ===== src/Run/Zero.antt =====
-- Replay of a plan under FALLBACK with the "zero" generator: the plan, and then the default choices
-- (src/simloom/_tape.py, `_ZeroRandom`; src/simloom/_run.py, `replay`).
use simloom.Prelude.{
  ℕ, suc, ◌+◌, String, ◌≡◌, refl, sym, ap, ap₂, ◌∙◌, none, some, List, [], ◌∷◌, ◌++◌, ok, arith,
  All, append-nil, append_assoc, get_elem?, get_elem?-length,
}
use mathlib.Core.Path.{subst₂}
use simloom.Tape.{
  Prng, Draw, fallback, zero_random, randrange, Tape, draw, replay_with, fallback_rng,
}
use simloom.Tape.Drawing.{IsValid, drawn}
use simloom.Run.{Program, finish, request, Verdict, RunResult, drive, execute, replay}
use simloom.Run.Trace.{Trace, Feasible, default, complete}
use simloom.Run.Rerun.{
  Feeds, replayed, Feeds-cons, draw-Feeds, drive-request, Feeds-replay_with, drive-Rerun,
  check_consumed-lenient,
}
use simloom.Run.Replay.{replay_named}

pub fallback_rng-zero : (p : Prng) (seed : ℕ) → fallback_rng p "zero" seed ≡ ok zero_random
unfolding fallback_rng
fallback_rng-zero p seed = refl

Feasible-IsValid : (program : Program) (plan : List Draw) → Feasible program plan → All IsValid plan
Feasible-IsValid program [] f = tt
Feasible-IsValid (finish v) (d ∷ ds) f = absurd f
Feasible-IsValid (request label k next rescue) (d ∷ ds) f =
    (rw f.0.1 f.0.2, Feasible-IsValid (next d.value) ds f.1)

module _ {p : Prng} where
  -- A tape past its recording that answers 0.
  record IsZeroed (r : Tape p) : Type 0 where
    recording : List Draw
    recorded : r.recorded ≡ some recording
    since : ℕ
    misaligned : r.misaligned_at ≡ some since
    zero : r.rng ≡ zero_random

  -- A draw of 0, after which all draws are 0.
  record Zero (r : Tape p) (label : String) (k : ℕ) : Type 0 where
    after : Tape p
    drew : draw label (suc k) r ≡ (ok 0, after)
    appended : after.draws ≡ r.draws ++ drawn label 0 (suc k) ∷ []
    zeroed : IsZeroed after

  draw-IsZeroed : (r : Tape p) (label : String) (k : ℕ) → IsZeroed r → Zero r label k
  unfolding draw randrange
  draw-IsZeroed r label k z = record {
    after = record r { draws = r.draws ++ drawn label 0 (suc k) ∷ []; position = r.position + 1 };
    drew = ground (arith, z.recorded, z.misaligned, z.zero);
    appended = refl;
    zeroed = record {
      recording = z.recording;
      recorded = z.recorded;
      since = z.since;
      misaligned = z.misaligned;
      zero = z.zero;
    };
  }

  draw_past_end :
      (r : Tape p) (label : String) (k : ℕ)
      → Feeds r []
      → r.policy ≡ fallback
      → r.rng ≡ zero_random
      → Zero r label k
  unfolding draw randrange
  draw_past_end r label k f s z = record {
    after = record r {
      misaligned_at = some r.position;
      draws = r.draws ++ drawn label 0 (suc k) ∷ [];
      position = r.position + 1;
    };
    drew =
        let at_end : get_elem? (r.draws ++ []) r.position ≡ none =
          rw (f.counted, append-nil r.draws) (get_elem?-length r.draws) in
        ground (arith, f.recorded, f.aligned, s, z, at_end);
    appended = refl;
    zeroed = record {
      recording = r.draws ++ [];
      recorded = f.recorded;
      since = r.position;
      misaligned = refl;
      zero = z;
    };
  }

  -- The rest of a run behind a draw of 0.
  drive-continues :
      (r : Tape p) (label : String) (k : ℕ) (next : ℕ → Program) (rescue : Program)
      (x : Zero r label k)
      → (drive (next 0) x.after).1.draws ≡ x.after.draws ++ default (next 0)
      → (drive (request label k next rescue) r).1.draws
        ≡ r.draws ++ default (request label k next rescue)
  unfolding default
  drive-continues r label k next rescue x ih =
      ap (λ (y : Verdict × Tape p). y.1.draws)
        (drive-request r x.after label k 0 next rescue x.drew)
      ∙ ih
      ∙ ap (λ ds. ds ++ default (next 0)) x.appended
      ∙ append_assoc r.draws (drawn label 0 (suc k) ∷ []) (default (next 0))

  drive-IsZeroed :
      (program : Program) (r : Tape p)
      → IsZeroed r
      → (drive program r).1.draws ≡ r.draws ++ default program
  unfolding drive default
  drive-IsZeroed (finish v) r z = sym (append-nil r.draws)
  drive-IsZeroed (request label k next rescue) r z =
      let x = draw-IsZeroed r label k z in
      drive-continues r label k next rescue x (drive-IsZeroed (next 0) x.after x.zeroed)

  -- A run from a feasible plan makes the draws of the plan, and then answers 0.
  drive-complete :
      (program : Program) (plan : List Draw) (r : Tape p)
      → Feasible program plan
      → Feeds r plan
      → r.policy ≡ fallback
      → r.rng ≡ zero_random
      → (drive program r).1.draws ≡ r.draws ++ complete program plan
  unfolding drive complete
  drive-complete (finish v) [] r h f s z = sym (append-nil r.draws)
  drive-complete (request label k next rescue) [] r h f s z =
      let x = draw_past_end r label k f s z in
      drive-continues r label k next rescue x (drive-IsZeroed (next 0) x.after x.zeroed)
  drive-complete (finish v) (d ∷ ds) r h f s z = absurd h
  drive-complete (request label k next rescue) (d ∷ ds) r h f s z =
      let drew : draw label (suc k) r ≡ (ok d.value, replayed r d) =
        ap₂ (λ l b. draw l b r) (sym h.0.0) (sym h.0.1) ∙ draw-Feeds r d ds (rw h.0.1 h.0.2) f in
      ap (λ (y : Verdict × Tape p). y.1.draws)
        (drive-request r (replayed r d) label k d.value next rescue drew)
      ∙ drive-complete (next d.value) ds (replayed r d) h.1 (Feeds-cons r d ds f) s z
      ∙ append_assoc r.draws (d ∷ []) (complete (next d.value) ds)

-- Replay of a feasible plan under FALLBACK with the "zero" fallback returns; it makes the draws of the
-- plan and then the default ones, and ends as that execution of the program ends.
pub replay-complete :
    (p : Prng) (program : Program) (plan : List Draw) (seed : ℕ)
    → Feasible program plan
    → (r : RunResult) × (replay p program plan fallback seed "zero" ≡ ok r)
      × (r.tape ≡ complete program plan)
      × Trace program r.tape r.verdict
unfolding execute replay_with
replay-complete p program plan seed f =
    let t : Tape p = replay_with plan fallback seed zero_random in
    let x =
      drive-Rerun program t
        (record {
          recorded_valid = Feasible-IsValid program plan f;
          draws_valid = tt;
          counted = refl;
        })
        tt in
    let verdict : Verdict = (drive program t).0 in
    (
      execute program none t,
      replay_named p program plan fallback seed "zero" zero_random (fallback_rng-zero p seed),
      drive-complete program plan t f (Feeds-replay_with plan fallback seed zero_random) refl refl,
      subst₂ (Trace program) (sym x.draws)
          (sym (check_consumed-lenient verdict (drive program t).1 x.lenient)) x.trace,
    )
