-- ===== src/Shrink/Minimal.antt =====
-- A shrink of src/simloom/_shrink.py that ends within its budget: no draw can be lowered any more.
pub mod Rounds
use simloom.Prelude.{
  ℕ, zero, suc, ◌+◌, ◌/◌, ◌≤◌, ◌<◌, Bool, true, false, ◌&&◌, Option, none, some, List, [], ◌∷◌, any,
  ltb, leb, if◌then◌else◌, length, get_elem?, Bool-cases, List-cases, Option-cases, inl, inr, arith,
  ◌≡◌, refl, sym, ap, ◌∙◌, subst, ◌⊎◌, All, All-get_elem?,
}
use simloom.Tape.{Draw}
use simloom.Tape.Drawing.{IsValid}
use simloom.Run.{RunResult}
use simloom.Shrink.{
  Shrinking, deviates, descend, key_lt, judge, try_accept, attempt, going, with_value, try_values,
  minimize_values, minimize_pass, round, rounds, start, final,
}
use simloom.Shrink.Candidates.{with_value-IsValid, descend-lt}
use simloom.Shrink.Invariant.{
  try_values-keeps, minimize_values-keeps, before_values, before_values-keeps,
}
use simloom.Shrink.Fuel.Values.{values-IsEnough}
use simloom.Shrink.Fuel.Rounds.{round-Grew, rounds-stop}

-- The test rejects the run, or its tape is not smaller.
abbrev pub Rejected : (RunResult → Bool) → RunResult → List Draw → Type 0
Rejected interesting outcome tape =
    (interesting outcome ≡ false) ⊎ (key_lt outcome.tape tape ≡ false)

pub impossible : {A : Type 0} (a b : ℕ) → a ≤ b → b < a → A
impossible a b h k = absurd (omega (arith, h, k))

get_elem?-bound : (xs : List Draw) (i : ℕ) (d : Draw) → get_elem? xs i ≡ some d → i < length xs
get_elem?-bound [] i d e = cc
get_elem?-bound (x ∷ xs) zero d e = omega arith
get_elem?-bound (x ∷ xs) (suc i) d e = omega (arith, get_elem?-bound xs i d e)

pub get_elem?-none : (xs : List Draw) (i : ℕ) → get_elem? xs i ≡ none → length xs ≤ i
get_elem?-none [] i e = omega arith
get_elem?-none (x ∷ xs) zero e = cc
get_elem?-none (x ∷ xs) (suc i) e = omega (arith, get_elem?-none xs i e)

pub same_draw :
    (xs : List Draw) (i : ℕ) (d d' : Draw)
    → get_elem? xs i ≡ some d
    → get_elem? xs i ≡ some d'
    → d ≡ d'
same_draw xs i d d' e e' = from_some (sym e ∙ e')
  where
    from_some : some d ≡ some d' → d ≡ d'
    from_some h = cc

module _ (run_candidate : List Draw → RunResult) (interesting : RunResult → Bool) where
  -- Each lower value that pass 2 tries at the draws from `index` on is rejected.
  abbrev pub LowestFrom : ℕ → List Draw → Type 0
  LowestFrom index tape =
      (i : ℕ) (d : Draw)
      → index ≤ i
      → get_elem? tape i ≡ some d
      → deviates d ≡ true
      → All (λ v. Rejected interesting (run_candidate (with_value i d v tape)) tape)
          (descend d.value)

module _ (run_candidate : List Draw → RunResult) (interesting : RunResult → Bool) (max_runs : ℕ)
    (runs-IsValid : (ds : List Draw) → All IsValid ds → All IsValid (run_candidate ds).tape) where
  attempt-idle :
      (candidate : List Draw) (s : Shrinking)
      → s.runs_used < max_runs
      → (attempt run_candidate interesting max_runs candidate s).1.improved ≡ false
      → ((attempt run_candidate interesting max_runs candidate s).0 ≡ false)
        × ((attempt run_candidate interesting max_runs candidate s).1.current ≡ s.current)
        × Rejected interesting (run_candidate candidate) s.current
  unfolding attempt try_accept judge
  attempt-idle candidate s h e = ground arith

  -- What a part of a round does: it makes runs, and once improved it stays so.
  pub record After (s t : Shrinking) : Type 0 where
    pub valid : All IsValid t.current
    pub grows : s.runs_used ≤ t.runs_used
    pub flag : s.improved ≡ true → t.improved ≡ true

  attempt-more :
      (s t : Shrinking) (candidate : List Draw)
      → s.runs_used ≤ t.runs_used
      → (s.improved ≡ true → t.improved ≡ true)
      → (s.runs_used ≤ (attempt run_candidate interesting max_runs candidate t).1.runs_used)
        × (s.improved ≡ true
            → (attempt run_candidate interesting max_runs candidate t).1.improved ≡ true)
        × (((attempt run_candidate interesting max_runs candidate t).1.current ≡ t.current)
            ⊎ ((attempt run_candidate interesting max_runs candidate t).1.current
                ≡ (run_candidate candidate).tape))
  unfolding attempt try_accept judge
  attempt-more s t candidate g f = (ground arith, (λ i. ground arith), ground arith)

  pub attempt-After :
      (s : Shrinking) (candidate : List Draw) (t : Shrinking)
      → All IsValid candidate
      → After s t
      → After s (attempt run_candidate interesting max_runs candidate t).1
  attempt-After s candidate t v h =
      let (grows, flag, current) = attempt-more s t candidate h.grows h.flag in
      record {
        valid = elim current [
          | inl e ↦ subst (All IsValid) (sym e) h.valid
          | inr e ↦ subst (All IsValid) (sym e) (runs-IsValid candidate v)
        ];
        grows = grows;
        flag = flag;
      }

  pub After-refl : (s : Shrinking) → All IsValid s.current → After s s
  After-refl s v = record { valid = v; grows = omega arith; flag = λ e. e }

  -- What was not improved in the end, never was.
  pub After-idle : (s t : Shrinking) → After s t → t.improved ≡ false → s.improved ≡ false
  After-idle s t a e = elim (Bool-cases s.improved) [
    | inr idle ↦ idle
    | inl improved ↦ cc (a.flag improved)
  ]

  pub try_values-After :
      (index : ℕ) (d : Draw) (vs : List ℕ) (s : Shrinking)
      → IsValid d
      → All (λ v. v < d.value) vs
      → All IsValid s.current
      → After s (try_values run_candidate interesting max_runs index d vs s)
  try_values-After index d vs s b lt v =
      try_values-keeps run_candidate interesting max_runs (After s) (λ t h. h.valid)
        (attempt-After s) index d vs s b lt (After-refl s v)

  pub try_values-idle :
      (index : ℕ) (d : Draw) (vs : List ℕ) (s : Shrinking)
      → IsValid d
      → All (λ v. v < d.value) vs
      → All IsValid s.current
      → (try_values run_candidate interesting max_runs index d vs s).runs_used < max_runs
      → (try_values run_candidate interesting max_runs index d vs s).improved ≡ false
      → ((try_values run_candidate interesting max_runs index d vs s).current ≡ s.current)
        × All
            (λ v. Rejected interesting (run_candidate (with_value index d v s.current)) s.current)
            vs
  unfolding try_values
  try_values-idle index d [] s b lt valid h e = (refl, tt)
  try_values-idle index d (v ∷ vs) s b lt valid h e =
      let candidate = with_value index d v s.current in
      let here : All IsValid candidate = with_value-IsValid index d v s.current b lt.0 valid in
      let a = attempt-After s candidate s here (After-refl s valid) in
      let idle = attempt-idle candidate s in
      let (accepted, s') = attempt run_candidate interesting max_runs candidate s in
      elim (Bool-cases accepted) [
        | inl taken ↦
            let h' = rw (taken, try_values) at h in
            let e' = rw (taken, try_values) at e in
            let (refused, _, _) = idle (omega (arith, a.grows, h')) e' in cc (taken, refused)
        | inr refused ↦
            let h' = rw (refused, try_values) at h in
            let e' = rw (refused, try_values) at e in
            let after = try_values-After index d vs s' b lt.1 a.valid in
            let (_, same, rejected) =
              idle (omega (arith, a.grows, after.grows, h')) (After-idle s' _ after e') in
            let (same', others) = try_values-idle index d vs s' b lt.1 a.valid h' e' in
            rw (refused, try_values)
              (
                same' ∙ same,
                (
                  rejected,
                  subst
                      (λ c.
                        All (λ u. Rejected interesting (run_candidate (with_value index d u c)) c)
                          vs)
                      same others,
                ),
              )
      ]

  pub LowestFrom-end :
      (index : ℕ) (tape : List Draw)
      → length tape ≤ index
      → LowestFrom run_candidate interesting index tape
  LowestFrom-end index tape h i d le e n =
      impossible i i (omega arith) (omega (arith, get_elem?-bound tape i d e, h, le))

  pub LowestFrom-next :
      (index : ℕ) (tape : List Draw)
      → ((d : Draw)
          → get_elem? tape index ≡ some d
          → deviates d ≡ true
          → All
              (λ v. Rejected interesting (run_candidate (with_value index d v tape)) tape)
              (descend d.value))
      → LowestFrom run_candidate interesting (index + 1) tape
      → LowestFrom run_candidate interesting index tape
  LowestFrom-next index tape here rest i d le e n = elim (Bool-cases (ltb index i)) [
    | inl later ↦ rest i d (ground arith) e n
    | inr now ↦
        let at : index ≡ i = ground arith in
        subst
          (λ j.
            get_elem? tape j ≡ some d
            → All (λ v. Rejected interesting (run_candidate (with_value j d v tape)) tape)
                (descend d.value))
          at (λ e'. here d e' n) e
  ]
