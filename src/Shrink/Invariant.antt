-- ===== src/Shrink/Invariant.antt =====
-- The loops of src/simloom/_shrink.py change their variables by attempts alone.
use simloom.Prelude.{
  ℕ, zero, suc, ◌+◌, ◌/◌, Bool, false, ◌&&◌, List, [], ◌∷◌, any, ltb, leb, length, get_elem?,
  Bool-cases, List-cases, Option-cases, inl, inr, arith, ◌<◌, All, All-get_elem?,
}
use simloom.Tape.{Draw}
use simloom.Tape.Drawing.{IsValid}
use simloom.Run.{RunResult}
use simloom.Shrink.Candidates.{without-IsValid, with_zeroed-IsValid, with_value-IsValid, descend-lt}
use simloom.Shrink.{
  Shrinking, deviates, descend, attempt, going, without, delete_chunks, block_of, with_zeroed,
  zero_chunks, with_value, try_values, minimize_values, coarse_to_fine, delete_pass, zero_pass,
  minimize_pass, from_half, round, rounds, half_of,
}

module _ (run_candidate : List Draw → RunResult) (interesting : RunResult → Bool)
    (max_runs : ℕ) where
  -- The variables at the beginning of pass 2.
  abbrev pub before_values : Shrinking → Shrinking
  before_values s =
      from_half run_candidate interesting max_runs (zero_pass run_candidate interesting max_runs) (
        from_half run_candidate interesting max_runs
          (delete_pass run_candidate interesting max_runs) (record s { improved = false }))

module _ (run_candidate : List Draw → RunResult) (interesting : RunResult → Bool) (max_runs : ℕ)
    (P : Shrinking → Type 0) (valid : (s : Shrinking) → P s → All IsValid s.current)
    (tries : (candidate : List Draw) (s : Shrinking)
      → All IsValid candidate
      → P s
      → P (attempt run_candidate interesting max_runs candidate s).1) where
  delete_chunks-keeps :
      (left gap chunk index : ℕ) (s : Shrinking)
      → P s
      → P (delete_chunks run_candidate interesting max_runs left gap chunk index s)
  unfolding delete_chunks
  delete_chunks-keeps zero gap chunk index s h = h
  delete_chunks-keeps (suc left) zero chunk index s h = h
  delete_chunks-keeps (suc left) (suc gap) chunk index s h =
      elim (Bool-cases (going max_runs index s)) [
        | inr e ↦ rw (e, delete_chunks) h
        | inl e ↦ elim (List-cases (without index chunk s.current)) [
          | inl none_left ↦
              rw (e, none_left, delete_chunks)
                (delete_chunks-keeps (suc left) gap chunk (index + chunk) s h)
          | inr (d, ds, candidate) ↦
              rw (e, candidate, delete_chunks)
                (delete_chunks-keeps left _ chunk _ _ (
                  tries (d ∷ ds) s
                    (rw candidate at (without-IsValid index chunk s.current (valid s h))) h))
        ]
      ]

  zero_chunks-keeps :
      (left gap chunk index : ℕ) (s : Shrinking)
      → P s
      → P (zero_chunks run_candidate interesting max_runs left gap chunk index s)
  unfolding zero_chunks
  zero_chunks-keeps zero gap chunk index s h = h
  zero_chunks-keeps (suc left) zero chunk index s h = h
  zero_chunks-keeps (suc left) (suc gap) chunk index s h =
      elim (Bool-cases (going max_runs index s)) [
        | inr e ↦ rw (e, zero_chunks) h
        | inl e ↦ elim (Bool-cases (any deviates (block_of index chunk s.current))) [
          | inr zeros ↦
              rw (e, zeros, zero_chunks)
                (zero_chunks-keeps (suc left) gap chunk (index + chunk) s h)
          | inl some_left ↦
              rw (e, some_left, zero_chunks)
                (zero_chunks-keeps left _ chunk _ _ (
                  tries (with_zeroed index chunk s.current) s
                    (with_zeroed-IsValid index chunk s.current (valid s h)) h))
        ]
      ]

  pub try_values-keeps :
      (index : ℕ) (d : Draw) (smaller : List ℕ) (s : Shrinking)
      → IsValid d
      → All (λ v. v < d.value) smaller
      → P s
      → P (try_values run_candidate interesting max_runs index d smaller s)
  unfolding try_values
  try_values-keeps index d [] s b lt h = h
  try_values-keeps index d (v ∷ vs) s b lt h =
      let kept =
        tries (with_value index d v s.current) s
          (with_value-IsValid index d v s.current b lt.0 (valid s h)) h in
      let (accepted, s') =
        attempt run_candidate interesting max_runs (with_value index d v s.current) s in
      elim (Bool-cases accepted) [
        | inl e ↦ rw (e, try_values) kept
        | inr e ↦ rw (e, try_values) (try_values-keeps index d vs s' b lt.1 kept)
      ]

  pub minimize_values-keeps :
      (left gap index : ℕ) (s : Shrinking)
      → P s
      → P (minimize_values run_candidate interesting max_runs left gap index s)
  unfolding minimize_values
  minimize_values-keeps zero gap index s h = h
  minimize_values-keeps (suc left) zero index s h = h
  minimize_values-keeps (suc left) (suc gap) index s h =
      elim (Bool-cases (going max_runs index s)) [
        | inr e ↦ rw (e, minimize_values) h
        | inl e ↦ elim (Option-cases (get_elem? s.current index)) [
          | inl none_left ↦ rw (e, none_left, minimize_values) h
          | inr (d, found) ↦ elim (Bool-cases (deviates d)) [
            | inr unchanged ↦
                rw (e, found, unchanged, minimize_values)
                  (minimize_values-keeps (suc left) gap (index + 1) s h)
            | inl nonzero ↦
                rw (e, found, nonzero, minimize_values)
                  (minimize_values-keeps left _ (index + 1) _ (
                    try_values-keeps index d (descend d.value) s
                      (All-get_elem? IsValid s.current index (valid s h) found)
                      (descend-lt d.value (ground (arith, nonzero))) h))
          ]
        ]
      ]

  coarse_to_fine-keeps :
      (pass : ℕ → Shrinking → Shrinking)
      → ((chunk : ℕ) (s : Shrinking) → P s → P (pass chunk s))
      → (fuel chunk : ℕ) (s : Shrinking) → P s
      → P (coarse_to_fine run_candidate interesting max_runs pass fuel chunk s)
  unfolding coarse_to_fine
  coarse_to_fine-keeps pass keeps zero chunk s h = h
  coarse_to_fine-keeps pass keeps (suc fuel) chunk s h =
      elim (Bool-cases (leb 1 chunk && ltb s.runs_used max_runs)) [
        | inr e ↦ rw (e, coarse_to_fine) h
        | inl e ↦
            rw (e, coarse_to_fine)
              (coarse_to_fine-keeps pass keeps fuel (chunk / 2) (pass chunk s) (keeps chunk s h))
      ]

  abbrev PassKeeps : (Shrinking → Shrinking) → Type 0
  PassKeeps pass = (s : Shrinking) → P s → P (pass s)

  delete_pass-keeps : (chunk : ℕ) → PassKeeps (delete_pass run_candidate interesting max_runs chunk)
  unfolding delete_pass
  delete_pass-keeps chunk s h = delete_chunks-keeps max_runs (length s.current) chunk 0 s h

  zero_pass-keeps : (chunk : ℕ) → PassKeeps (zero_pass run_candidate interesting max_runs chunk)
  unfolding zero_pass
  zero_pass-keeps chunk s h = zero_chunks-keeps max_runs (length s.current) chunk 0 s h

  minimize_pass-keeps : PassKeeps (minimize_pass run_candidate interesting max_runs)
  unfolding minimize_pass
  minimize_pass-keeps s h = minimize_values-keeps max_runs (length s.current) 0 s h

  from_half-keeps :
      (pass : ℕ → Shrinking → Shrinking)
      → ((chunk : ℕ) → PassKeeps (pass chunk))
      → PassKeeps (from_half run_candidate interesting max_runs pass)
  unfolding from_half
  from_half-keeps pass keeps s h =
      coarse_to_fine-keeps pass keeps (half_of s.current) (half_of s.current) s h

  pub before_values-keeps :
      (s : Shrinking)
      → P (record s { improved = false })
      → P (before_values run_candidate interesting max_runs s)
  before_values-keeps s h =
      from_half-keeps (zero_pass run_candidate interesting max_runs) zero_pass-keeps _
        (from_half-keeps (delete_pass run_candidate interesting max_runs) delete_pass-keeps _ h)

  -- What an attempt with a valid candidate keeps, a round keeps.
  pub round-keeps :
      (s : Shrinking)
      → P (record s { improved = false })
      → P (round run_candidate interesting max_runs s)
  unfolding round
  round-keeps s h =
      minimize_pass-keeps (before_values run_candidate interesting max_runs s)
        (before_values-keeps s h)

  -- What an attempt keeps, all rounds keep.
  pub rounds-keeps :
      ((s : Shrinking) → P s → P (record s { improved = false }))
      → (fuel : ℕ) (s : Shrinking) → P s
      → P (rounds run_candidate interesting max_runs fuel s)
  unfolding rounds
  rounds-keeps fresh zero s h = h
  rounds-keeps fresh (suc fuel) s h = elim (Bool-cases (s.improved && ltb s.runs_used max_runs)) [
    | inr e ↦ rw (e, rounds) h
    | inl e ↦
        rw (e, rounds)
          (rounds-keeps fresh fuel (round run_candidate interesting max_runs s)
            (round-keeps s (fresh s h)))
  ]
