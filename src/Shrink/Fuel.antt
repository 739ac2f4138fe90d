-- ===== src/Shrink/Fuel.antt =====
-- The loops of src/simloom/_shrink.py come to their own ends: the fuel of the model is enough.
pub mod Values
pub mod Rounds
use simloom.Prelude.{
  ℕ, zero, suc, ◌+◌, ◌/◌, ◌-◌, ◌==◌, ◌≤◌, ◌<◌, Bool, true, false, ◌&&◌, List, [], ◌++◌, any, ltb,
  leb, if◌then◌else◌, length, get_elem?, Bool-cases, Option-cases, inl, inr, arith, ◌≡◌, refl, sym,
  ap, ◌∙◌, ◌⊎◌,
}
use simloom.Tape.{Draw}
use simloom.Run.{RunResult}
use simloom.Shrink.{
  Shrinking, deviates, descend, judge, try_accept, attempt, going, block_of, with_zeroed,
  zero_chunks, with_value, try_values, minimize_values, coarse_to_fine, delete_pass, zero_pass,
  minimize_pass, from_half, round, rounds, half_of, start, final,
}

half_lt : (chunk : ℕ) → 0 < chunk → chunk / 2 < chunk
half_lt chunk h = omega arith

module _ (run_candidate : List Draw → RunResult) (interesting : RunResult → Bool)
    (max_runs : ℕ) where
  -- A candidate costs a run.
  pub attempt-runs :
      (candidate : List Draw) (s : Shrinking)
      → s.runs_used < max_runs
      → (attempt run_candidate interesting max_runs candidate s).1.runs_used ≡ suc s.runs_used
  unfolding attempt try_accept judge
  attempt-runs candidate s h = ground arith

  -- The runs that are left, and the draws from `index` on, are within the fuel.
  pub record IsEnough (left gap index : ℕ) (s : Shrinking) : Type 0 where
    pub runs : max_runs ≤ s.runs_used + left
    pub draws : length s.current ≤ index + gap

  pub going-runs :
      (index : ℕ) (s : Shrinking) → going max_runs index s ≡ true → s.runs_used < max_runs
  going-runs index s h = ground arith

  pub going-stop :
      (left gap index : ℕ) (s : Shrinking)
      → IsEnough left gap index s
      → (left ≡ 0) ⊎ (gap ≡ 0)
      → going max_runs index s ≡ false
  going-stop left gap index s e (inl z) = ground (arith, e.runs)
  going-stop left gap index s e (inr z) = ground (arith, e.draws)

  next-IsEnough :
      (candidate : List Draw) (left index index' : ℕ) (s : Shrinking)
      → going max_runs index s ≡ true
      → max_runs ≤ s.runs_used + suc left
      → IsEnough left
          (length (attempt run_candidate interesting max_runs candidate s).1.current)
          index'
          (attempt run_candidate interesting max_runs candidate s).1
  next-IsEnough candidate left index index' s g e = record {
    runs = omega (arith, attempt-runs candidate s (going-runs index s g), e);
    draws = omega arith;
  }

  zero_chunks-stop :
      (left gap chunk index : ℕ) (s : Shrinking)
      → going max_runs index s ≡ false
      → zero_chunks run_candidate interesting max_runs left gap chunk index s ≡ s
  unfolding zero_chunks
  zero_chunks-stop zero gap chunk index s h = refl
  zero_chunks-stop (suc left) zero chunk index s h = refl
  zero_chunks-stop (suc left) (suc gap) chunk index s h = rw (h, zero_chunks) refl

  -- However much more fuel the loop of pass 1.5 is given, it returns the same.
  pub zero_chunks_fuel :
      (left gap left' gap' chunk index : ℕ) (s : Shrinking)
      → IsEnough left gap index s
      → IsEnough left' gap' index s
      → 0 < chunk
      → zero_chunks run_candidate interesting max_runs left gap chunk index s
        ≡ zero_chunks run_candidate interesting max_runs left' gap' chunk index s
  unfolding zero_chunks
  zero_chunks_fuel zero gap left' gap' chunk index s e e' c =
      sym (zero_chunks-stop left' gap' chunk index s (going-stop zero gap index s e (inl refl)))
  zero_chunks_fuel (suc left) zero left' gap' chunk index s e e' c =
      sym (
        zero_chunks-stop left' gap' chunk index s (going-stop (suc left) zero index s e (inr refl)))
  zero_chunks_fuel (suc left) (suc gap) zero gap' chunk index s e e' c =
      zero_chunks-stop (suc left) (suc gap) chunk index s
        (going-stop zero gap' index s e' (inl refl))
  zero_chunks_fuel (suc left) (suc gap) (suc left') zero chunk index s e e' c =
      zero_chunks-stop (suc left) (suc gap) chunk index s
        (going-stop (suc left') zero index s e' (inr refl))
  zero_chunks_fuel (suc left) (suc gap) (suc left') (suc gap') chunk index s e e' c =
      elim (Bool-cases (going max_runs index s)) [
        | inr g ↦ rw (g, zero_chunks) refl
        | inl g ↦ elim (Bool-cases (any deviates (block_of index chunk s.current))) [
          | inr zeros ↦
              rw (g, zeros, zero_chunks)
                (zero_chunks_fuel (suc left) gap (suc left') gap' chunk (index + chunk) s
                  (record { runs = e.runs; draws = omega (arith, e.draws) })
                  (record { runs = e'.runs; draws = omega (arith, e'.draws) }) c)
          | inl some_left ↦
              let candidate = with_zeroed index chunk s.current in
              rw (g, some_left, zero_chunks)
                (zero_chunks_fuel left _ left' _ chunk _ _
                  (next-IsEnough candidate left index _ s g e.runs)
                  (next-IsEnough candidate left' index _ s g e'.runs) c)
        ]
      ]

  coarse_to_fine-stop :
      (pass : ℕ → Shrinking → Shrinking) (fuel chunk : ℕ) (s : Shrinking)
      → leb 1 chunk && ltb s.runs_used max_runs ≡ false
      → coarse_to_fine run_candidate interesting max_runs pass fuel chunk s ≡ s
  unfolding coarse_to_fine
  coarse_to_fine-stop pass zero chunk s h = refl
  coarse_to_fine-stop pass (suc fuel) chunk s h = rw (h, coarse_to_fine) refl

  -- However much more fuel the loop over `chunk` is given, it returns the same.
  pub coarse_to_fine_fuel :
      (pass : ℕ → Shrinking → Shrinking) (fuel fuel' chunk : ℕ) (s : Shrinking)
      → chunk ≤ fuel
      → chunk ≤ fuel'
      → coarse_to_fine run_candidate interesting max_runs pass fuel chunk s
        ≡ coarse_to_fine run_candidate interesting max_runs pass fuel' chunk s
  unfolding coarse_to_fine
  coarse_to_fine_fuel pass zero fuel' chunk s e e' =
      sym (coarse_to_fine-stop pass fuel' chunk s (ground arith))
  coarse_to_fine_fuel pass (suc fuel) zero chunk s e e' =
      coarse_to_fine-stop pass (suc fuel) chunk s (ground arith)
  coarse_to_fine_fuel pass (suc fuel) (suc fuel') chunk s e e' =
      elim (Bool-cases (leb 1 chunk && ltb s.runs_used max_runs)) [
        | inr stop ↦ rw (stop, coarse_to_fine) refl
        | inl on ↦
            let less = half_lt chunk (ground arith) in
            rw (on, coarse_to_fine)
              (coarse_to_fine_fuel pass fuel fuel' (chunk / 2) (pass chunk s)
                (omega (arith, less, e)) (omega (arith, less, e')))
      ]
