-- ===== src/Shrink.antt =====
-- src/simloom/_shrink.py: reduction of a failing tape.
pub mod Candidates
mod Examples
pub mod Invariant
pub mod Sound
pub mod Reduction
pub mod Fuel
pub mod Minimal
pub mod Lowest
use simloom.Prelude.{
  ℕ, zero, suc, ◌+◌, ◌-◌, ◌/◌, Bool, true, false, not, ◌&&◌, Option, none, some, List, [], ◌∷◌,
  ◌++◌, map, any, ltb, leb, ◌==◌, if◌then◌else◌, length, get_elem?, take, drop, Result, ok, err,
}
use simloom.Tape.{Prng, Exception, value_error, Draw, fallback, zero_random, replay_with}
use simloom.Run.{Program, Verdict, passed, raised, RunResult, execute}

pub record ShrinkResult : Type 0 where
  pub tape : List Draw
  pub result : RunResult
  pub runs_used : ℕ
  pub initial_length : ℕ
  pub initial_deviations : ℕ

abbrev pub deviates : Draw → Bool
deviates d = not (d.value == 0)

pub deviations : List Draw → ℕ
deviations [] = 0
deviations (d ∷ ds) = (if deviates d then 1 else 0) + deviations ds

-- `<` of two tuples of numbers.
pub values_lt : List ℕ → List ℕ → Bool
values_lt xs [] = false
values_lt [] (y ∷ ys) = true
values_lt (x ∷ xs) (y ∷ ys) =
    let rest = values_lt xs ys in if ltb x y then true else if x == y then rest else false

abbrev pub values : List Draw → List ℕ
values ds = map (λ d. d.value) ds

-- `_key(a) < _key(b)`
pub key_lt : List Draw → List Draw → Bool
key_lt a b =
    if ltb (deviations a) (deviations b)
    then true
    else if deviations a == deviations b
    then (if ltb (length a) (length b)
        then true
        else if length a == length b
        then values_lt (values a) (values b)
        else false)
    else false

-- Candidate replacements for a draw value.
pub descend : ℕ → List ℕ
descend value =
    let half = value / 2 in
    let candidates = 0 ∷ (if half == 0 then [] else if half == value then [] else half ∷ []) in
    if any (λ c. c == value - 1) candidates
    then candidates
    else if value - 1 == value
    then candidates
    else candidates ++ (value - 1) ∷ []

-- The variables of `shrink`.
pub record Shrinking : Type 0 where
  pub current : List Draw
  pub current_result : RunResult
  pub runs_used : ℕ
  pub improved : Bool

-- `replay(main, tape=draws, policy=FALLBACK, fallback="zero")`
pub rerun : Prng → Program → List Draw → RunResult
rerun p program draws = execute program none (replay_with {p = p} draws fallback 0 zero_random)

-- The default test: the candidate fails by the same exception type. `is_instance` is Python's test
-- of an exception against the type of the original one.
pub fails_alike : (Exception → Exception → Bool) → Exception → RunResult → Bool
fails_alike is_instance error candidate = elim (candidate.verdict) [
  | passed ↦ false
  | raised e ↦ is_instance e error
]

abbrev pub half_of : List Draw → ℕ
half_of ds = let h = length ds / 2 in if ltb h 1 then 1 else h

abbrev pub going : ℕ → ℕ → Shrinking → Bool
going max_runs index s = ltb index (length s.current) && ltb s.runs_used max_runs

abbrev pub without : ℕ → ℕ → List Draw → List Draw
without index chunk ds = take index ds ++ drop (index + chunk) ds

abbrev pub zeroed : Draw → Draw
zeroed d = record d { value = 0 }

abbrev pub block_of : ℕ → ℕ → List Draw → List Draw
block_of index chunk ds = take chunk (drop index ds)

abbrev pub with_zeroed : ℕ → ℕ → List Draw → List Draw
with_zeroed index chunk ds =
    take index ds ++ (map zeroed (block_of index chunk ds) ++ drop (index + chunk) ds)

abbrev pub with_value : ℕ → Draw → ℕ → List Draw → List Draw
with_value index d smaller ds = take index ds ++ record d { value = smaller } ∷ drop (index + 1) ds

pub start : RunResult → Shrinking
start failure = record {
  current = failure.tape;
  current_result = failure;
  runs_used = 0;
  improved = true;
}

module _ (run_candidate : List Draw → RunResult) (interesting : RunResult → Bool)
    (max_runs : ℕ) where
  -- What becomes of a candidate whose run is `outcome`.
  pub judge : RunResult → Shrinking → Bool × Shrinking
  judge outcome s =
      if not (interesting outcome)
      then (false, s)
      else if key_lt outcome.tape s.current
      then (true, record s { current = outcome.tape; current_result = outcome })
      else (false, s)

  pub try_accept : List Draw → Shrinking → Bool × Shrinking
  try_accept candidate s =
      if leb max_runs s.runs_used
      then (false, s)
      else judge (run_candidate candidate) (record s { runs_used = s.runs_used + 1 })

  -- `if try_accept(candidate): improved = True`
  pub attempt : List Draw → Shrinking → Bool × Shrinking
  attempt candidate s =
      let (accepted, s') = try_accept candidate s in
      (accepted, if accepted then record s' { improved = true } else s')

  -- The inner loop of pass 1. `left` bounds the runs that are left, and `gap` the draws from `index`
  -- on: a round makes a run, or goes on by `chunk`.
  pub delete_chunks : (left gap chunk index : ℕ) → Shrinking → Shrinking
  delete_chunks zero gap chunk index s = s
  delete_chunks (suc left) zero chunk index s = s
  delete_chunks (suc left) (suc gap) chunk index s = elim (going max_runs index s) [
    | false ↦ s
    | true ↦ elim (without index chunk s.current) [
      | [] ↦ delete_chunks (suc left) gap chunk (index + chunk) s
      | d ∷ ds ↦
          let (accepted, s') = attempt (d ∷ ds) s in
          delete_chunks left (length s'.current) chunk (if accepted then index else index + chunk)
            s'
    ]
  ]

  -- The inner loop of pass 1.5.
  pub zero_chunks : (left gap chunk index : ℕ) → Shrinking → Shrinking
  zero_chunks zero gap chunk index s = s
  zero_chunks (suc left) zero chunk index s = s
  zero_chunks (suc left) (suc gap) chunk index s = elim (going max_runs index s) [
    | false ↦ s
    | true ↦ elim (any deviates (block_of index chunk s.current)) [
      | false ↦ zero_chunks (suc left) gap chunk (index + chunk) s
      | true ↦
          let (accepted, s') = attempt (with_zeroed index chunk s.current) s in
          zero_chunks left (length s'.current) chunk (index + chunk) s'
    ]
  ]

  -- `for smaller in _descend(draw.value)`, to the first candidate that is accepted.
  pub try_values : ℕ → Draw → List ℕ → Shrinking → Shrinking
  try_values index d [] s = s
  try_values index d (smaller ∷ rest) s =
      let (accepted, s') = attempt (with_value index d smaller s.current) s in
      let others = try_values index d rest s' in if accepted then s' else others

  -- The loop of pass 2.
  pub minimize_values : (left gap index : ℕ) → Shrinking → Shrinking
  minimize_values zero gap index s = s
  minimize_values (suc left) zero index s = s
  minimize_values (suc left) (suc gap) index s = elim (going max_runs index s) [
    | false ↦ s
    | true ↦ elim (get_elem? s.current index) [
      | none ↦ s
      | some d ↦ elim (deviates d) [
        | false ↦ minimize_values (suc left) gap (index + 1) s
        | true ↦
            let s' = try_values index d (descend d.value) s in
            minimize_values left (length s'.current) (index + 1) s'
      ]
    ]
  ]

  -- `while chunk >= 1 and runs_used < max_runs: …; chunk //= 2`
  pub coarse_to_fine : (ℕ → Shrinking → Shrinking) → (fuel chunk : ℕ) → Shrinking → Shrinking
  coarse_to_fine pass zero chunk s = s
  coarse_to_fine pass (suc fuel) chunk s = elim (leb 1 chunk && ltb s.runs_used max_runs) [
    | false ↦ s
    | true ↦ coarse_to_fine pass fuel (chunk / 2) (pass chunk s)
  ]

  pub delete_pass : ℕ → Shrinking → Shrinking
  delete_pass chunk s = delete_chunks max_runs (length s.current) chunk 0 s

  pub zero_pass : ℕ → Shrinking → Shrinking
  zero_pass chunk s = zero_chunks max_runs (length s.current) chunk 0 s

  pub minimize_pass : Shrinking → Shrinking
  minimize_pass s = minimize_values max_runs (length s.current) 0 s

  pub from_half : (ℕ → Shrinking → Shrinking) → Shrinking → Shrinking
  from_half pass s = coarse_to_fine pass (half_of s.current) (half_of s.current) s

  -- The body of the outer loop.
  pub round : Shrinking → Shrinking
  round s =
      minimize_pass (from_half zero_pass (from_half delete_pass (record s { improved = false })))

  -- `while improved and runs_used < max_runs`
  pub rounds : ℕ → Shrinking → Shrinking
  unfolding round
  rounds zero s = s
  rounds (suc fuel) s = elim (s.improved && ltb s.runs_used max_runs) [
    | false ↦ s
    | true ↦ rounds fuel (round s)
  ]

  pub final : RunResult → Shrinking
  final failure = rounds (suc max_runs) (start failure)

pub report : RunResult → Shrinking → ShrinkResult
report failure s = record {
  tape = s.current;
  result = s.current_result;
  runs_used = s.runs_used;
  initial_length = length failure.tape;
  initial_deviations = deviations failure.tape;
}

-- `if interesting is None`
pub chosen_test :
    (Exception → Exception → Bool) → Exception → Option (RunResult → Bool) → RunResult → Bool
chosen_test is_instance error none = fails_alike is_instance error
chosen_test is_instance error (some interesting) = interesting

-- `shrink(main, failure, max_runs=…, interesting=…)`
pub shrink :
    Prng
    → Program
    → (Exception → Exception → Bool)
    → RunResult
    → ℕ
    → Option (RunResult → Bool)
    → Result Exception ShrinkResult
shrink p program is_instance failure max_runs interesting = elim (failure.verdict) [
  | passed ↦ err value_error
  | raised e ↦ ok (
      report failure
        (final (rerun p program) (chosen_test is_instance e interesting) max_runs failure))
]
