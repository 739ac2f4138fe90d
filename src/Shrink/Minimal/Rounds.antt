-- ===== src/Shrink/Minimal/Rounds.antt =====
-- Pass 2 and the rounds of src/simloom/_shrink.py, when they end within the budget.
use simloom.Prelude.{
  ℕ, zero, suc, ◌+◌, ◌≤◌, ◌<◌, Bool, true, false, ◌&&◌, List, ltb, length, get_elem?, Bool-cases,
  Option-cases, inl, inr, arith, ◌≡◌, refl, sym, ◌∙◌, subst, ◌⊎◌, All, All-get_elem?,
}
use simloom.Tape.{Draw}
use simloom.Tape.Drawing.{IsValid}
use simloom.Run.{RunResult}
use simloom.Shrink.{
  Shrinking, deviates, descend, going, with_value, try_values, minimize_values, minimize_pass,
  round, rounds,
}
use simloom.Shrink.Candidates.{descend-lt}
use simloom.Shrink.Invariant.{minimize_values-keeps, before_values, before_values-keeps}
use simloom.Shrink.Fuel.Values.{values-IsEnough}
use simloom.Shrink.Fuel.Rounds.{round-Grew, rounds-stop}
use simloom.Shrink.Minimal.{
  impossible, get_elem?-none, same_draw, Rejected, LowestFrom, LowestFrom-end, LowestFrom-next,
  After, After-refl, After-idle, attempt-After, try_values-After, try_values-idle,
}

module _ (run_candidate : List Draw → RunResult) (interesting : RunResult → Bool) (max_runs : ℕ)
    (runs-IsValid : (ds : List Draw) → All IsValid ds → All IsValid (run_candidate ds).tape) where
  minimize_values-After :
      (left gap index : ℕ) (s : Shrinking)
      → All IsValid s.current
      → After run_candidate interesting max_runs runs-IsValid s
          (minimize_values run_candidate interesting max_runs left gap index s)
  minimize_values-After left gap index s v =
      minimize_values-keeps run_candidate interesting max_runs
        (After run_candidate interesting max_runs runs-IsValid s) (λ t h. h.valid)
        (attempt-After run_candidate interesting max_runs runs-IsValid s) left gap index s
        (After-refl run_candidate interesting max_runs runs-IsValid s v)

  minimize_values-idle :
      (left gap index : ℕ) (s : Shrinking)
      → max_runs ≤ s.runs_used + left
      → length s.current ≤ index + gap
      → All IsValid s.current
      → (minimize_values run_candidate interesting max_runs left gap index s).runs_used < max_runs
      → (minimize_values run_candidate interesting max_runs left gap index s).improved ≡ false
      → ((minimize_values run_candidate interesting max_runs left gap index s).current ≡ s.current)
        × LowestFrom run_candidate interesting index s.current
  unfolding minimize_values
  minimize_values-idle zero gap index s enough long valid h e =
      impossible max_runs s.runs_used (omega (arith, enough)) h
  minimize_values-idle (suc left) zero index s enough long valid h e = (
    refl,
    LowestFrom-end run_candidate interesting max_runs runs-IsValid index s.current
        (omega (arith, long)),
  )
  minimize_values-idle (suc left) (suc gap) index s enough long valid h e =
      elim (Bool-cases (going max_runs index s)) [
        | inr stop ↦
            let h' = rw (stop, minimize_values) at h in
            rw (stop, minimize_values)
              (
                refl,
                LowestFrom-end run_candidate interesting max_runs runs-IsValid index s.current
                    (ground (arith, h', stop)),
              )
        | inl on ↦ elim (Option-cases (get_elem? s.current index)) [
          | inl none_left ↦
              rw (on, none_left, minimize_values)
                (
                  refl,
                  LowestFrom-end run_candidate interesting max_runs runs-IsValid index s.current
                      (get_elem?-none s.current index none_left),
                )
          | inr (d, found) ↦ elim (Bool-cases (deviates d)) [
            | inr zero_there ↦
                let h' = rw (on, found, zero_there, minimize_values) at h in
                let e' = rw (on, found, zero_there, minimize_values) at e in
                let (same, rest) =
                  minimize_values-idle (suc left) gap (index + 1) s enough (omega (arith, long))
                    valid h' e' in
                rw (on, found, zero_there, minimize_values)
                  (
                    same,
                    LowestFrom-next run_candidate interesting max_runs runs-IsValid index s.current
                        (λ d' f n. cc (same_draw s.current index d d' found f, n, zero_there)) rest,
                  )
            | inl nonzero ↦
                let b = All-get_elem? IsValid s.current index valid found in
                let lt = descend-lt d.value (ground (arith, nonzero)) in
                let s' =
                  try_values run_candidate interesting max_runs index d (descend d.value) s in
                let tried =
                  try_values-After run_candidate interesting max_runs runs-IsValid index d
                    (descend d.value) s b lt valid in
                let h' = rw (on, found, nonzero, minimize_values) at h in
                let e' = rw (on, found, nonzero, minimize_values) at e in
                let after =
                  minimize_values-After left (length s'.current) (index + 1) s' tried.valid in
                let room =
                  values-IsEnough run_candidate interesting max_runs left index d s on enough in
                let (same, rejected) =
                  try_values-idle run_candidate interesting max_runs runs-IsValid index d
                    (descend d.value) s b lt valid (omega (arith, after.grows, h'))
                    (After-idle run_candidate interesting max_runs runs-IsValid s' _ after e') in
                let (same', rest) =
                  minimize_values-idle left (length s'.current) (index + 1) s' room.runs room.draws
                    tried.valid h' e' in
                rw (on, found, nonzero, minimize_values)
                  (
                    same' ∙ same,
                    LowestFrom-next run_candidate interesting max_runs runs-IsValid index s.current
                        (λ d' f n.
                          subst
                            (λ x.
                              All
                                (λ v.
                                  Rejected interesting
                                    (run_candidate (with_value index x v s.current)) s.current)
                                (descend x.value))
                            (same_draw s.current index d d' found f) rejected)
                        (subst (LowestFrom run_candidate interesting (index + 1)) same rest),
                  )
          ]
        ]
      ]

  round-Lowest :
      (s : Shrinking)
      → All IsValid s.current
      → (round run_candidate interesting max_runs s).runs_used < max_runs
      → (round run_candidate interesting max_runs s).improved ≡ false
      → LowestFrom run_candidate interesting 0 (round run_candidate interesting max_runs s).current
  unfolding round minimize_pass
  round-Lowest s v h e =
      let s' = before_values run_candidate interesting max_runs s in
      let a =
        before_values-keeps run_candidate interesting max_runs (λ t. All IsValid t.current)
          (λ t w. w)
          (λ c t w u.
            (attempt-After run_candidate interesting max_runs runs-IsValid t c t w
              (After-refl run_candidate interesting max_runs runs-IsValid t u)).valid)
          s v in
      let (same, lowest) =
        minimize_values-idle max_runs (length s'.current) 0 s' (omega arith) (omega arith) a h e in
      subst (LowestFrom run_candidate interesting 0) (sym same) lowest

  pub rounds-Lowest :
      (fuel : ℕ) (s : Shrinking)
      → All IsValid s.current
      → max_runs < s.runs_used + fuel
      → (s.improved ≡ true) ⊎ LowestFrom run_candidate interesting 0 s.current
      → (rounds run_candidate interesting max_runs fuel s).runs_used < max_runs
      → LowestFrom run_candidate interesting 0
          (rounds run_candidate interesting max_runs fuel s).current
  unfolding rounds
  rounds-Lowest zero s v enough so_far h = impossible max_runs s.runs_used (omega (arith, enough)) h
  rounds-Lowest (suc fuel) s v enough so_far h =
      elim (Bool-cases (s.improved && ltb s.runs_used max_runs)) [
        | inr stop ↦
            let h' = rw (stop, rounds) at h in
            rw (stop, rounds)
              (elim so_far [
                | inr lowest ↦ lowest
                | inl improved ↦
                    impossible max_runs s.runs_used (ground (arith, stop, improved, h')) h'
              ])
        | inl on ↦
            let s' = round run_candidate interesting max_runs s in
            let g = round-Grew run_candidate interesting max_runs runs-IsValid s v in
            let h' = rw (on, rounds) at h in
            rw (on, rounds)
              (elim (Bool-cases s'.improved) [
                | inl improved ↦
                    rounds-Lowest fuel s' g.valid (omega (arith, enough, g.paid improved))
                      (inl improved) h'
                | inr idle ↦
                    let still : s'.improved && ltb s'.runs_used max_runs ≡ false = rw idle refl in
                    let end =
                      rounds-stop run_candidate interesting max_runs runs-IsValid fuel s' still in
                    subst (λ (t : Shrinking). LowestFrom run_candidate interesting 0 t.current)
                      (sym end) (round-Lowest s v (rw end at h') idle)
              ])
      ]
