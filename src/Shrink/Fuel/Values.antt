-- ===== src/Shrink/Fuel/Values.antt =====
-- The fuel of the loop of pass 2 of src/simloom/_shrink.py is enough.
use simloom.Prelude.{
  ℕ, suc, ◌+◌, ◌/◌, ◌-◌, ◌==◌, ◌≤◌, ◌<◌, Bool, true, false, List, [], ◌∷◌, ◌++◌, any, if◌then◌else◌,
  length, Bool-cases, inl, inr, arith, ◌≡◌, refl,
}
use simloom.Tape.{Draw}
use simloom.Run.{RunResult}
use simloom.Shrink.{Shrinking, descend, judge, try_accept, attempt, going, with_value, try_values}
use simloom.Shrink.Fuel.{IsEnough, attempt-runs, going-runs}

first_stays :
    (a b : Bool) (v : ℕ) (vs ws : List ℕ)
    → (rest : List ℕ) × ((if a then v ∷ vs else if b then v ∷ vs else (v ∷ vs) ++ ws) ≡ v ∷ rest)
first_stays true b v vs ws = (vs, refl)
first_stays false true v vs ws = (vs, refl)
first_stays false false v vs ws = (vs ++ ws, refl)

descend-zero : (value : ℕ) → (rest : List ℕ) × (descend value ≡ 0 ∷ rest)
unfolding descend
descend-zero value =
    let half = value / 2 in
    let halves = if half == 0 then [] else if half == value then [] else half ∷ [] in
    first_stays (any (λ c. c == value - 1) (0 ∷ halves)) (value - 1 == value) 0 halves
      ((value - 1) ∷ [])

module _ (run_candidate : List Draw → RunResult) (interesting : RunResult → Bool)
    (max_runs : ℕ) where
  attempt-grows :
      (candidate : List Draw) (s : Shrinking)
      → s.runs_used ≤ (attempt run_candidate interesting max_runs candidate s).1.runs_used
  unfolding attempt try_accept judge
  attempt-grows candidate s = ground arith

  try_values-grows :
      (index : ℕ) (d : Draw) (vs : List ℕ) (s : Shrinking)
      → s.runs_used ≤ (try_values run_candidate interesting max_runs index d vs s).runs_used
  unfolding try_values
  try_values-grows index d [] s = omega arith
  try_values-grows index d (v ∷ vs) s =
      let grew = attempt-grows (with_value index d v s.current) s in
      let (accepted, s') =
        attempt run_candidate interesting max_runs (with_value index d v s.current) s in
      elim (Bool-cases accepted) [
        | inl e ↦ rw (e, try_values) grew
        | inr e ↦ rw (e, try_values) (omega (arith, grew, try_values-grows index d vs s'))
      ]

  -- The values of a draw that deviates cost at least a run.
  try_values-runs :
      (index : ℕ) (d : Draw) (v : ℕ) (vs : List ℕ) (s : Shrinking)
      → s.runs_used < max_runs
      → s.runs_used < (try_values run_candidate interesting max_runs index d (v ∷ vs) s).runs_used
  unfolding try_values
  try_values-runs index d v vs s h =
      let ran =
        attempt-runs run_candidate interesting max_runs (with_value index d v s.current) s h in
      let (accepted, s') =
        attempt run_candidate interesting max_runs (with_value index d v s.current) s in
      elim (Bool-cases accepted) [
        | inl e ↦ rw (e, try_values) (omega (arith, ran))
        | inr e ↦ rw (e, try_values) (omega (arith, ran, try_values-grows index d vs s'))
      ]

  pub values-IsEnough :
      (left index : ℕ) (d : Draw) (s : Shrinking)
      → going max_runs index s ≡ true
      → max_runs ≤ s.runs_used + suc left
      → IsEnough run_candidate interesting max_runs left
          (length
            (try_values run_candidate interesting max_runs index d (descend d.value) s).current)
          (index + 1)
          (try_values run_candidate interesting max_runs index d (descend d.value) s)
  values-IsEnough left index d s g e =
      let (rest, zero_first) = descend-zero d.value in
      record {
        runs = rw zero_first (
            omega (
              arith,
              e,
              try_values-runs index d 0 rest s
                  (going-runs run_candidate interesting max_runs index s g),
            ));
        draws = omega arith;
      }
