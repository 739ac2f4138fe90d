-- ===== src/Tape.antt =====
-- src/simloom/_tape.py: the choice tape.
pub mod Drawing
pub mod Document
use simloom.Prelude.{
  ℕ, zero, suc, ◌+◌, ◌<◌, String, Bool, true, false, not, ◌||◌, Option, none, some, List, [], ◌∷◌,
  ◌++◌, ltb, leb, ◌==◌, str_eq, if◌then◌else◌, length, get_elem?, Result, ok, err, Action, pure,
  raise, lift, ◌>>=◌, ◌>>◌, ℤ, pos, bind_result,
}

-- `random.Random` of the standard library: a generator seeded by an integer whose `randrange(n)`
-- answers below n. What the program under test raises is a name and a message.
pub record Prng : Type 1 where
  pub State : Type 0
  pub seeded : ℕ → State
  pub randrange : State → ℕ → ℕ × State
  pub randrange-lt : (s : State) (bound : ℕ) → 0 < bound → (randrange s bound).0 < bound

pub data Exception : Type 0 where
  value_error misalignment : Exception
  program_error : (type_name message : String) → Exception

pub record Draw : Type 0 where
  pub label : String
  pub value : ℕ
  pub bound : ℕ

-- `Draw(label, value, bound)` with its `__post_init__`.
unfoldable pub new_draw : String → ℤ → ℤ → Result Exception Draw
new_draw label (pos value) (pos bound) =
    if ltb bound 1
    then err value_error
    else if ltb value bound
    then ok (record { label = label; value = value; bound = bound })
    else err value_error
new_draw label value bound = err value_error

pub data MisalignmentPolicy : Type 0 where
  strict fallback : MisalignmentPolicy

-- `self._rng`: a seeded generator, or `_ZeroRandom`.
pub data Rng (p : Prng) : Type 0 where
  seeded_random : p.State → Rng p
  zero_random : Rng p

unfoldable pub randrange : {p : Prng} → Rng p → ℕ → ℕ × Rng p
randrange {p} (seeded_random s) bound =
    let (value, s') = p.randrange s bound in (value, seeded_random s')
randrange zero_random bound = (0, zero_random)

pub record Tape (p : Prng) : Type 0 where
  pub rng : Rng p
  pub seed : Option ℕ
  pub recorded : Option (List Draw)
  pub policy : MisalignmentPolicy
  pub fallback_seed : ℕ
  pub position : ℕ
  pub misaligned_at : Option ℕ
  pub draws : List Draw

unfoldable pub generate : (p : Prng) → ℕ → Tape p
generate p seed = record {
  rng = seeded_random (p.seeded seed);
  seed = some seed;
  recorded = none;
  policy = strict;
  fallback_seed = 0;
  position = 0;
  misaligned_at = none;
  draws = [];
}

-- The generator that the `fallback` argument of `replay` names: "zero" or "rng".
unfoldable pub fallback_rng : (p : Prng) → String → ℕ → Result Exception (Rng p)
fallback_rng p name seed =
    if str_eq name "zero"
    then ok zero_random
    else if str_eq name "rng"
    then ok (seeded_random (p.seeded seed))
    else err value_error

unfoldable pub replay_with : {p : Prng} → List Draw → MisalignmentPolicy → ℕ → Rng p → Tape p
replay_with draws policy fallback_seed rng = record {
  rng = rng;
  seed = none;
  recorded = some draws;
  policy = policy;
  fallback_seed = fallback_seed;
  position = 0;
  misaligned_at = none;
  draws = [];
}

pub is_exact : Option (List Draw) → Option ℕ → ℕ → Bool
is_exact (some recorded) none position = position == length recorded
is_exact recorded misaligned position = false

module _ {p : Prng} where
  -- `return self._rng.randrange(bound)`
  pub sample : ℕ → Action (Tape p) Exception ℕ
  sample bound t = let (value, rng) = randrange t.rng bound in (ok value, record t { rng = rng })

  pub diverge : Action (Tape p) Exception (Unit {0})
  diverge t = elim t.policy [
    | strict ↦ (err misalignment, t)
    | fallback ↦ (ok tt, record t { misaligned_at = some t.position })
  ]

  -- The recorded draw at the position, if the tape has one there.
  pub check_recorded : String → ℕ → Option Draw → Action (Tape p) Exception ℕ
  unfolding diverge sample
  check_recorded label bound none = do diverge; sample bound
  check_recorded label bound (some d) =
      if not (str_eq d.label label) || not (d.bound == bound)
      then (do diverge; sample bound)
      else pure d.value

  pub consult : String → ℕ → Option (List Draw) → Option ℕ → Action (Tape p) Exception ℕ
  unfolding check_recorded
  consult label bound none misaligned t = sample bound t
  consult label bound (some recorded) (some k) t = sample bound t
  consult label bound (some recorded) none t =
      check_recorded label bound (get_elem? recorded t.position) t

  unfoldable pub next_value : String → ℕ → Action (Tape p) Exception ℕ
  unfolding consult
  next_value label bound t = consult label bound t.recorded t.misaligned_at t

  -- `self._draws.append(…); self._position += 1`
  pub append_draw : Draw → Action (Tape p) Exception (Unit {0})
  append_draw d t = (ok tt, record t { draws = t.draws ++ d ∷ []; position = t.position + 1 })

  unfoldable pub draw : String → ℕ → Action (Tape p) Exception ℕ
  unfolding next_value append_draw new_draw
  draw label bound = if ltb bound 1 then raise value_error else do
    value ← next_value label bound
    d ← lift (new_draw label (pos value) (pos bound))
    append_draw d
    pure value

  -- Only a replaying tape that is still aligned changes.
  pub force_fallback_if : Option (List Draw) → Option ℕ → Tape p → Tape p
  force_fallback_if (some recorded) none t = record t { misaligned_at = some t.position }
  force_fallback_if recorded misaligned t = t

  unfoldable pub force_fallback : Tape p → Tape p
  unfolding force_fallback_if
  force_fallback t = force_fallback_if t.recorded t.misaligned_at t

  unfoldable pub replay_exact : Tape p → Bool
  unfolding is_exact
  replay_exact t = is_exact t.recorded t.misaligned_at t.position

  unfoldable pub is_replay : Tape p → Bool
  is_replay t = elim t.recorded [ none ↦ false | some recorded ↦ true ]

-- `Tape.replay(recorded, policy=…, fallback_seed=…, fallback=…)` of a sequence of draws.
unfoldable pub replay :
    (p : Prng) → List Draw → MisalignmentPolicy → ℕ → String → Result Exception (Tape p)
unfolding fallback_rng replay_with
replay p recorded policy seed name =
    bind_result (fallback_rng p name seed) (λ rng. ok (replay_with recorded policy seed rng))
