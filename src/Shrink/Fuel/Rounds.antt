-- ===== src/Shrink/Fuel/Rounds.antt =====
-- The rounds of src/simloom/_shrink.py come to an end: a round that improves makes a run.
use simloom.Prelude.{
  ℕ, zero, suc, ◌+◌, ◌≤◌, ◌<◌, Bool, true, false, ◌&&◌, List, ltb, Bool-cases, inl, inr, arith, ◌≡◌,
  refl, sym, subst, ◌⊎◌,
}
use simloom.Tape.{Draw}
use simloom.Run.{RunResult}
use simloom.Shrink.{Shrinking, judge, try_accept, attempt, round, rounds}
use simloom.Prelude.{All}
use simloom.Tape.Drawing.{IsValid}
use simloom.Shrink.Invariant.{round-keeps}

module _ (run_candidate : List Draw → RunResult) (interesting : RunResult → Bool) (max_runs : ℕ)
    (runs-IsValid : (ds : List Draw) → All IsValid ds → All IsValid (run_candidate ds).tape) where
  -- Since the run `before`, there is an improvement only by a run.
  pub record Grew (before : ℕ) (s : Shrinking) : Type 0 where
    pub valid : All IsValid s.current
    pub grows : before ≤ s.runs_used
    pub paid : s.improved ≡ true → before < s.runs_used

  attempt-current :
      (candidate : List Draw) (s : Shrinking)
      → ((attempt run_candidate interesting max_runs candidate s).1.current ≡ s.current)
        ⊎ ((attempt run_candidate interesting max_runs candidate s).1.current
            ≡ (run_candidate candidate).tape)
  unfolding attempt try_accept judge
  attempt-current candidate s = ground arith

  attempt-grows :
      (before : ℕ) (candidate : List Draw) (s : Shrinking)
      → before ≤ s.runs_used
      → (s.improved ≡ true → before < s.runs_used)
      → (before ≤ (attempt run_candidate interesting max_runs candidate s).1.runs_used)
        × ((attempt run_candidate interesting max_runs candidate s).1.improved ≡ true
            → before < (attempt run_candidate interesting max_runs candidate s).1.runs_used)
  unfolding attempt try_accept judge
  attempt-grows before candidate s g p = (ground arith, (λ i. ground arith))

  attempt-Grew :
      (before : ℕ) (candidate : List Draw) (s : Shrinking)
      → All IsValid candidate
      → Grew before s
      → Grew before (attempt run_candidate interesting max_runs candidate s).1
  attempt-Grew before candidate s v h =
      let (grows, paid) = attempt-grows before candidate s h.grows h.paid in
      record {
        valid = elim (attempt-current candidate s) [
          | inl e ↦ subst (All IsValid) (sym e) h.valid
          | inr e ↦ subst (All IsValid) (sym e) (runs-IsValid candidate v)
        ];
        grows = grows;
        paid = paid;
      }

  -- A round that improves has made a run.
  pub round-Grew :
      (s : Shrinking)
      → All IsValid s.current
      → Grew s.runs_used (round run_candidate interesting max_runs s)
  round-Grew s v =
      round-keeps run_candidate interesting max_runs (Grew s.runs_used) (λ t h. h.valid)
        (attempt-Grew s.runs_used) s (record { valid = v; grows = omega arith; paid = λ i. cc })

  pub rounds-stop :
      (fuel : ℕ) (s : Shrinking)
      → s.improved && ltb s.runs_used max_runs ≡ false
      → rounds run_candidate interesting max_runs fuel s ≡ s
  unfolding rounds
  rounds-stop zero s h = refl
  rounds-stop (suc fuel) s h = rw (h, rounds) refl

  -- The rounds end where nothing improves, or the runs are used up.
  pub rounds-ends :
      (fuel : ℕ) (s : Shrinking)
      → All IsValid s.current
      → max_runs < s.runs_used + fuel
      → (rounds run_candidate interesting max_runs fuel s).improved
          && ltb (rounds run_candidate interesting max_runs fuel s).runs_used max_runs
        ≡ false
  unfolding rounds
  rounds-ends zero s v e = ground arith
  rounds-ends (suc fuel) s v e = elim (Bool-cases (s.improved && ltb s.runs_used max_runs)) [
    | inr stop ↦ rw (stop, rounds) stop
    | inl on ↦
        let s' = round run_candidate interesting max_runs s in
        let g = round-Grew s v in
        rw (on, rounds)
          (elim (Bool-cases s'.improved) [
            | inl improved ↦ rounds-ends fuel s' g.valid (omega (arith, e, g.paid improved))
            | inr idle ↦
                let still : s'.improved && ltb s'.runs_used max_runs ≡ false = rw idle refl in
                rw (rounds-stop fuel s' still) still
          ])
  ]
