-- ===== src/Systematic/Odometer.antt =====
-- The odometer of src/simloom/_systematic.py, read from the left.
use simloom.Prelude.{
  ℕ, zero, suc, ◌+◌, ◌-◌, ◌<◌, ◌≤◌, ◌≡◌, refl, ap, ◌∙◌, true, Option, none, some, List, [], ◌∷◌,
  if◌then◌else◌, length, take, arith,
}
use simloom.Tape.{Draw}
use simloom.Systematic.{delay, untried, last_untried, bumped, bump_at, next_plan}

abbrev push : Draw → Option (ℕ × Draw) → Option (ℕ × Draw) → Option (ℕ × Draw)
push d (some (index, e)) other = some (suc index, e)
push d none other = other

module _ (max_bound : ℕ) where
  untried-cons :
      (max_delays : ℕ) (d : Draw) (before : List Draw) (e : Draw)
      → untried max_delays max_bound (d ∷ before) e
        ≡ untried (max_delays - delay d) max_bound before e
  unfolding untried
  untried-cons max_delays d before e = ground arith

  last_untried-cons :
      (max_delays : ℕ) (d : Draw) (ds : List Draw) (index : ℕ)
      → last_untried max_delays max_bound (d ∷ ds) (suc index)
        ≡ push d
            (last_untried (max_delays - delay d) max_bound ds index)
            (if untried max_delays max_bound [] d then some (0, d) else none)
  unfolding last_untried
  last_untried-cons max_delays d ds zero = ground arith
  last_untried-cons max_delays d ds (suc index) =
      ground
        (arith, last_untried-cons max_delays d ds index, untried-cons max_delays d (take index ds))

  abbrev pub plan_cons : ℕ → Draw → Option (List Draw) → Option (List Draw)
  plan_cons max_delays d (some plan) = some (d ∷ plan)
  plan_cons max_delays d none =
      if untried max_delays max_bound [] d then some (bumped d ∷ []) else none

  bump_at-push :
      (max_delays : ℕ) (d : Draw) (ds : List Draw) (o : Option (ℕ × Draw))
      → bump_at
          (d ∷ ds)
          (push d o (if untried max_delays max_bound [] d then some (0, d) else none))
        ≡ plan_cons max_delays d (bump_at ds o)
  unfolding bump_at
  bump_at-push max_delays d ds (some (index, e)) = refl
  bump_at-push max_delays d ds none = ground arith

  -- The rightmost draw with an untried alternative, found from the left.
  pub next_plan-cons :
      (max_delays : ℕ) (d : Draw) (ds : List Draw)
      → next_plan max_delays max_bound (d ∷ ds)
        ≡ plan_cons max_delays d (next_plan (max_delays - delay d) max_bound ds)
  unfolding next_plan
  next_plan-cons max_delays d ds =
      ap (bump_at (d ∷ ds)) (last_untried-cons max_delays d ds (length ds))
      ∙ bump_at-push max_delays d ds (last_untried (max_delays - delay d) max_bound ds (length ds))

pub next_plan-nil : (max_delays max_bound : ℕ) → next_plan max_delays max_bound [] ≡ none
unfolding next_plan
next_plan-nil max_delays max_bound = refl

-- A draw that is bumped is short of its bound.
pub untried-lt :
    (max_delays max_bound : ℕ) (d : Draw)
    → untried max_delays max_bound [] d ≡ true
    → d.value + 1 < d.bound
unfolding untried
untried-lt max_delays max_bound d h = ground arith

-- A draw that an allowed schedule takes further is bumped.
pub untried_below :
    (max_delays max_bound : ℕ) (d e : Draw)
    → d.bound ≡ e.bound
    → d.value < e.value
    → e.value < e.bound
    → e.bound ≤ max_bound
    → 0 < max_delays
    → untried max_delays max_bound [] d ≡ true
unfolding untried
untried_below max_delays max_bound d e b lt v m h = ground arith
