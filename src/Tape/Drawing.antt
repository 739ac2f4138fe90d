-- ===== src/Tape/Drawing.antt =====
-- `Tape.draw` of src/simloom/_tape.py: what a draw returns, records and refuses.
use simloom.Prelude.{
  ℕ, ◌+◌, ◌<◌, String, ◌≡◌, refl, not, ◌||◌, Option, none, some, List, [], ◌∷◌, ◌++◌, ◌==◌, str_eq,
  length, get_elem?, Result, ok, err, ◌>>=◌, arith, eq_iff, All, All-append, length-append,
  All-get_elem?, Option-cases, Bool-cases, inl, inr, ap, sym, subst,
}
use simloom.Tape.{
  Prng, Exception, misalignment, Draw, new_draw, MisalignmentPolicy, strict, fallback, Rng,
  seeded_random, zero_random, randrange, Tape, sample, diverge, check_recorded, consult, next_value,
  append_draw, draw,
}

abbrev pub IsValid : Draw → Type 0
IsValid d = d.value < d.bound

abbrev pub RecordedValid : Option (List Draw) → Type 0
RecordedValid none = Unit
RecordedValid (some recorded) = All IsValid recorded

-- What `Draw.__post_init__` and the constructors of a tape give.
pub record IsWellFormed {p : Prng} (t : Tape p) : Type 0 where
  pub recorded_valid : RecordedValid t.recorded
  pub draws_valid : All IsValid t.draws
  pub counted : t.position ≡ length t.draws

-- A tape that has no recording, or improvises where it cannot replay.
abbrev pub Improvises : Option (List Draw) → MisalignmentPolicy → Type 0
Improvises (some recorded) strict = ⊥
Improvises recorded policy = Unit

abbrev pub IsLenient : {p : Prng} → Tape p → Type 0
IsLenient t = Improvises t.recorded t.policy

abbrev pub drawn : String → ℕ → ℕ → Draw
drawn label value bound = record { label = label; value = value; bound = bound }

-- A draw that returned `value` from `t` and left `t'`.
pub record Recorded {p : Prng} (t : Tape p) (label : String) (bound value : ℕ) (t' : Tape p)
    : Type 0 where
  pub in_range : value < bound
  pub appended : t'.draws ≡ t.draws ++ drawn label value bound ∷ []
  pub advanced : t'.position ≡ t.position + 1
  pub kept : t'.recorded ≡ t.recorded
  pub policy_kept : t'.policy ≡ t.policy

Improvises-fallback :
    (recorded : List Draw) (policy : MisalignmentPolicy)
    → Improvises (some recorded) policy
    → policy ≡ fallback
Improvises-fallback recorded strict h = absurd h
Improvises-fallback recorded fallback h = refl

module _ {p : Prng} where
  randrange-lt : (r : Rng p) (bound : ℕ) → 0 < bound → (randrange r bound).0 < bound
  unfolding randrange
  randrange-lt (seeded_random s) bound h = p.randrange-lt s bound h
  randrange-lt zero_random bound h = h

  pub draw-Recorded :
      (t : Tape p) (label : String) (bound value : ℕ) (t' : Tape p)
      → draw label bound t ≡ (ok value, t')
      → Recorded t label bound value t'
  unfolding draw next_value consult check_recorded diverge sample append_draw new_draw
  draw-Recorded t label bound value t' e = ground arith

  -- A draw that raises has recorded nothing, and the generator has not moved.
  pub draw_raises :
      (t : Tape p) (label : String) (bound : ℕ) (e : Exception) (t' : Tape p)
      → IsWellFormed t
      → draw label bound t ≡ (err e, t')
      → (t'.draws ≡ t.draws) × (t'.position ≡ t.position) × (t'.recorded ≡ t.recorded)
  unfolding draw next_value consult check_recorded diverge sample append_draw new_draw
  draw_raises t label bound e t' w h = ground arith

  Recorded-IsWellFormed :
      {t t' : Tape p} {label : String} {bound value : ℕ}
      → IsWellFormed t
      → Recorded t label bound value t'
      → IsWellFormed t'
  Recorded-IsWellFormed {t} {t'} {label} {bound} {value} w r = record {
    recorded_valid = subst RecordedValid (sym r.kept) w.recorded_valid;
    draws_valid =
        subst (All IsValid) (sym r.appended)
          (All-append IsValid t.draws _ w.draws_valid (r.in_range, tt));
    counted = omega (
      arith,
      ap length r.appended,
      length-append t.draws (drawn label value bound ∷ []),
      r.advanced,
      w.counted,
    );
  }

  -- The well-formedness of a tape survives a draw, also one that raises.
  pub draw-IsWellFormed :
      (t : Tape p) (label : String) (bound : ℕ)
      → IsWellFormed t
      → IsWellFormed (draw label bound t).1
  draw-IsWellFormed t label bound w = split (draw label bound t) refl
    where
      split : (r : Result Exception ℕ × Tape p) → draw label bound t ≡ r → IsWellFormed r.1
      split (ok value, t') e = Recorded-IsWellFormed w (draw-Recorded t label bound value t' e)
      split (err x, t') e =
          let (same_draws, same_position, same_recorded) = draw_raises t label bound x t' w e in
          record {
            recorded_valid = subst RecordedValid (sym same_recorded) w.recorded_valid;
            draws_valid = subst (All IsValid) (sym same_draws) w.draws_valid;
            counted = omega (arith, ap length same_draws, same_position, w.counted);
          }

  -- A tape that improvises goes on improvising.
  pub draw-IsLenient :
      (t : Tape p) (label : String) (bound : ℕ) → IsLenient t → IsLenient (draw label bound t).1
  unfolding draw next_value consult check_recorded diverge sample append_draw new_draw
  draw-IsLenient t label bound h = ground arith

  -- A value for each request, below the bound.
  Answers : (bound : ℕ) → Result Exception ℕ × Tape p → Type 0
  Answers bound r = (value : ℕ) × (t' : Tape p) × (r ≡ (ok value, t')) × (value < bound)

  sample-Answers : (bound : ℕ) (t : Tape p) → 0 < bound → Answers bound (sample bound t)
  unfolding sample Answers
  sample-Answers bound t h = (
    (randrange t.rng bound).0,
    record t { rng = (randrange t.rng bound).1 },
    refl,
    randrange-lt t.rng bound h,
  )

  diverge-fallback :
      (t : Tape p)
      → t.policy ≡ fallback
      → diverge t ≡ (ok tt, record t { misaligned_at = some t.position })
  unfolding diverge
  diverge-fallback t f = ground arith

  diverge-Answers :
      (bound : ℕ) (t : Tape p)
      → t.policy ≡ fallback
      → 0 < bound
      → Answers bound ((diverge >>= λ _. sample bound) t)
  diverge-Answers bound t f h =
      rw (diverge-fallback t f)
        (sample-Answers bound (record t { misaligned_at = some t.position }) h)

  check_recorded-Answers :
      (label : String) (bound : ℕ) (o : Option Draw) (t : Tape p)
      → ((d : Draw) → o ≡ some d → IsValid d)
      → t.policy ≡ fallback
      → 0 < bound
      → Answers bound (check_recorded label bound o t)
  unfolding check_recorded Answers
  check_recorded-Answers label bound none t v f h = diverge-Answers bound t f h
  check_recorded-Answers label bound (some d) t v f h =
      elim (Bool-cases (not (str_eq d.label label) || not (d.bound == bound))) [
        | inl differs ↦ rw differs (diverge-Answers bound t f h)
        | inr same ↦ rw same (d.value, t, refl, ground (arith, v d refl))
      ]

  consult-Answers :
      (label : String) (bound : ℕ) (recorded : Option (List Draw)) (misaligned : Option ℕ)
      (t : Tape p)
      → RecordedValid recorded
      → Improvises recorded t.policy
      → 0 < bound
      → Answers bound (consult label bound recorded misaligned t)
  unfolding consult
  consult-Answers label bound none misaligned t v l h = sample-Answers bound t h
  consult-Answers label bound (some recorded) (some k) t v l h = sample-Answers bound t h
  consult-Answers label bound (some recorded) none t v l h =
      check_recorded-Answers label bound (get_elem? recorded t.position) t
        (λ d. All-get_elem? IsValid recorded t.position v) (Improvises-fallback recorded t.policy l)
        h

  draw-next_value :
      (t t' : Tape p) (label : String) (bound value : ℕ)
      → 0 < bound
      → next_value label bound t ≡ (ok value, t')
      → value < bound
      → draw label bound t ≡ (
        ok value,
        record t' { draws = t'.draws ++ drawn label value bound ∷ []; position = t'.position + 1 },
      )
  unfolding draw
  draw-next_value t t' label bound value h e lt = ground arith

  -- A draw that succeeds on a tape that improvises.
  pub draw_returns :
      (t : Tape p) (label : String) (bound : ℕ)
      → IsWellFormed t
      → IsLenient t
      → 0 < bound
      → (value : ℕ) × (t' : Tape p) × (draw label bound t ≡ (ok value, t'))
  unfolding next_value Answers
  draw_returns t label bound w lenient h =
      let (value, t', e, lt) =
        consult-Answers label bound t.recorded t.misaligned_at t w.recorded_valid lenient h in
      (value, _, draw-next_value t t' label bound value h e lt)

  -- The recorded draw is answered, and recorded again.
  pub draw_aligned :
      (t : Tape p) (d : Draw) (recorded : List Draw)
      → IsValid d
      → t.recorded ≡ some recorded
      → t.misaligned_at ≡ none
      → get_elem? recorded t.position ≡ some d
      → draw d.label d.bound t
        ≡ (ok d.value, record t { draws = t.draws ++ d ∷ []; position = t.position + 1 })
  unfolding draw next_value consult check_recorded diverge append_draw new_draw sample
  draw_aligned t d recorded v r m g = ground (arith, eq_iff d.label d.label)

  -- A strict tape that does not match the request raises and stays as it was.
  pub draw_diverges_strict :
      (t : Tape p) (label : String) (bound : ℕ) (recorded : List Draw)
      → 0 < bound
      → t.recorded ≡ some recorded
      → t.misaligned_at ≡ none
      → t.policy ≡ strict
      → ((d : Draw)
          → get_elem? recorded t.position ≡ some d
          → ¬ ((d.label ≡ label) × (d.bound ≡ bound)))
      → draw label bound t ≡ (err misalignment, t)
  unfolding draw next_value consult check_recorded diverge append_draw new_draw sample
  draw_diverges_strict t label bound recorded b r m s other =
      elim (Option-cases (get_elem? recorded t.position)) [
        | inl e ↦ ground arith
        | inr (d, e) ↦ ground (arith, other d e, eq_iff d.label label)
      ]
