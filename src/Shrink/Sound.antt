-- ===== src/Shrink/Sound.antt =====
-- What the variables of `shrink` of src/simloom/_shrink.py keep to.
use simloom.Prelude.{
  ℕ, suc, ◌+◌, ◌≤◌, Bool, true, false, false, if◌then◌else◌, List, [], ◌∷◌, leb, arith, ◌≡◌, refl,
  ap, All, ◌⊎◌, inl, inr, Bool-cases,
}
use simloom.Tape.{Draw}
use simloom.Tape.Drawing.{IsValid}
use simloom.Run.{RunResult}
use simloom.Shrink.{
  Shrinking, deviations, values_lt, values, key_lt, judge, try_accept, attempt, final, start,
}
use simloom.Shrink.Invariant.{rounds-keeps}

values_lt_trans :
    (xs ys zs : List ℕ) → values_lt xs ys ≡ true → values_lt ys zs ≡ true → values_lt xs zs ≡ true
unfolding values_lt
values_lt_trans xs [] zs h k = ground arith
values_lt_trans xs (y ∷ ys) [] h k = ground arith
values_lt_trans [] (y ∷ ys) (z ∷ zs) h k = refl
values_lt_trans (x ∷ xs) (y ∷ ys) (z ∷ zs) h k = ground (arith, values_lt_trans xs ys zs)

-- The minimization order is transitive.
pub key_lt_trans : (a b c : List Draw) → key_lt a b ≡ true → key_lt b c ≡ true → key_lt a c ≡ true
unfolding key_lt
key_lt_trans a b c h k = ground (arith, values_lt_trans (values a) (values b) (values c))

deviations-key_lt : (a b : List Draw) → key_lt a b ≡ true → deviations a ≤ deviations b
unfolding key_lt
deviations-key_lt a b h = ground arith

-- The tape is the failing one, or comes before it in the minimization order.
abbrev pub IsSimpler : List Draw → List Draw → Type 0
IsSimpler tape initial = (tape ≡ initial) ⊎ (key_lt tape initial ≡ true)

pub IsSimpler-deviations : (a b : List Draw) → IsSimpler a b → deviations a ≤ deviations b
IsSimpler-deviations a b (inl e) = omega (arith, ap deviations e)
IsSimpler-deviations a b (inr h) = deviations-key_lt a b h

IsSimpler-key_lt : (a b c : List Draw) → key_lt a b ≡ true → IsSimpler b c → IsSimpler a c
IsSimpler-key_lt a b c h (inl e) = inr (rw e at h)
IsSimpler-key_lt a b c h (inr k) = inr (key_lt_trans a b c h k)

module _ (run_candidate : List Draw → RunResult) (interesting : RunResult → Bool) (max_runs : ℕ)
    (failure : RunResult)
    (runs-IsValid : (ds : List Draw) → All IsValid ds → All IsValid (run_candidate ds).tape) where
  -- The run of a valid candidate that the test accepts.
  pub record Found (r : RunResult) : Type 0 where
    pub candidate : List Draw
    pub valid : All IsValid candidate
    pub ran : run_candidate candidate ≡ r
    pub accepted : interesting r ≡ true

  pub record Sound (s : Shrinking) : Type 0 where
    pub tape_of : s.current ≡ s.current_result.tape
    pub valid : All IsValid s.current
    pub origin : (s.current_result ≡ failure) ⊎ Found s.current_result
    pub budget : s.runs_used ≤ max_runs
    pub simpler : IsSimpler s.current failure.tape

  judge-Sound :
      (candidate : List Draw) (s : Shrinking)
      → All IsValid candidate
      → Sound s
      → Sound (judge run_candidate interesting max_runs (run_candidate candidate) s).1
  unfolding judge
  judge-Sound candidate s v h = elim (Bool-cases (interesting (run_candidate candidate))) [
    | inr e ↦ rw e h
    | inl e ↦ elim (Bool-cases (key_lt (run_candidate candidate).tape s.current)) [
      | inr larger ↦ rw (e, larger) h
      | inl smaller ↦
          rw (e, smaller)
            (record {
              tape_of = refl;
              valid = runs-IsValid candidate v;
              origin = inr (record { candidate = candidate; valid = v; ran = refl; accepted = e });
              budget = h.budget;
              simpler = IsSimpler-key_lt _ s.current failure.tape smaller h.simpler;
            })
    ]
  ]

  try_accept-Sound :
      (candidate : List Draw) (s : Shrinking)
      → All IsValid candidate
      → Sound s
      → Sound (try_accept run_candidate interesting max_runs candidate s).1
  unfolding try_accept
  try_accept-Sound candidate s v h = elim (Bool-cases (leb max_runs s.runs_used)) [
    | inl e ↦ rw e h
    | inr e ↦ rw e (
        judge-Sound candidate (record s { runs_used = s.runs_used + 1 }) v
          (record {
            tape_of = h.tape_of;
            valid = h.valid;
            origin = h.origin;
            budget = ground arith;
            simpler = h.simpler;
          }))
  ]

  flagged-Sound : (b : Bool) (s : Shrinking) → Sound s → Sound (record s { improved = b })
  flagged-Sound b s h = record {
    tape_of = h.tape_of;
    valid = h.valid;
    origin = h.origin;
    budget = h.budget;
    simpler = h.simpler;
  }

  attempt-Sound :
      (candidate : List Draw) (s : Shrinking)
      → All IsValid candidate
      → Sound s
      → Sound (attempt run_candidate interesting max_runs candidate s).1
  unfolding attempt
  attempt-Sound candidate s v h =
      let (accepted, s') = try_accept run_candidate interesting max_runs candidate s in
      pick accepted s' (try_accept-Sound candidate s v h)
    where
      pick :
          (b : Bool) (s' : Shrinking)
          → Sound s'
          → Sound (if b then record s' { improved = true } else s')
      pick true s' k = flagged-Sound true s' k
      pick false s' k = k

  pub final-Sound :
      All IsValid failure.tape → Sound (final run_candidate interesting max_runs failure)
  unfolding final start
  final-Sound v =
      rounds-keeps run_candidate interesting max_runs Sound (λ s h. h.valid) attempt-Sound
        (flagged-Sound false) (suc max_runs) (start failure)
        (record {
          tape_of = refl;
          valid = v;
          origin = inl refl;
          budget = omega arith;
          simpler = inl refl;
        })
