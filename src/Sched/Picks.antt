-- ===== src/Sched/Picks.antt =====
-- The picks of src/simloom/_sched.py: in range, and of the highest priority.
use simloom.Prelude.{
  ℕ, ◌+◌, ◌<◌, true, false, some, List, ◌==◌, length, get_elem?, arith, Result, ok, err, ℤ,
  and_then, ◌≡◌, sym, ap, All, Bool-cases, inl, inr, ◌⊎◌,
}
use simloom.Tape.{Prng, Exception, Tape}
use simloom.Tape.Drawing.{draw-Recorded}
use simloom.Sched.{Handle, walk_pick, Priority, Pct, priority_lt, highest_of}
use simloom.Sched.Keys.{Keys, Extends}

ok_same : (a b : ℕ) → (◌≡◌ {A = Result Exception ℕ} (ok a) (ok b)) → a ≡ b
ok_same a b h = cc

-- The random walk picks one of the ready callbacks, and a forced step leaves the tape as it was.
walk_pick_lt :
    {p : Prng} (ready : List Handle) (t t' : Tape p) (index : ℕ)
    → 0 < length ready
    → walk_pick ready t ≡ (ok index, t')
    → (index < length ready) × (length ready ≡ 1 → t' ≡ t)
unfolding walk_pick
walk_pick_lt ready t t' index some_ready h = elim (Bool-cases (length ready == 1)) [
  | inl one ↦
      let forced = rw one at h in
      (
        omega (arith, ok_same _ _ (ap (λ x. x.0) forced), some_ready),
        (λ e. sym (ap (λ x. x.1) forced)),
      )
  | inr more ↦ ((draw-Recorded t _ _ index t' (rw more at h)).in_range, (λ e. ground (arith, more)))
]

abbrev NotBelow : Priority → Priority → Type 0
NotBelow top key = (top ≡ key) ⊎ (priority_lt key top ≡ true)

-- What `max` answers: an index of `ks`, or the best one before it; no key is above its own.
record IsHighest (best : ℕ) (key : Priority) (index : ℕ) (ks : List Priority) (r : ℕ) : Type 0 where
  top : Priority
  place : ((r ≡ best) × (top ≡ key)) ⊎ ((n : ℕ) × (r ≡ index + n) × (get_elem? ks n ≡ some top))
  above : NotBelow top key
  all_above : All (λ k. priority_lt top k ≡ false) ks

-- The callback at the index has the key `top` among the priorities, and none of them has a higher one.
pub record Top (ready : List Handle) (priorities : List (ℤ × Priority)) (index : ℕ) : Type 0 where
  pub keys : List Priority
  pub top : Priority
  pub made : Keys priorities ready keys
  pub chosen : get_elem? keys index ≡ some top
  pub unbeaten : All (λ k. priority_lt top k ≡ false) keys

module _ {p : Prng} where
  -- A choice that returned is in range and of a highest priority; priorities that were drawn are kept.
  abbrev pub Chosen : List Handle → Pct → Result Exception ℕ × (Pct × Tape p) → Type 0
  Chosen ready s (ok index, (s', t)) =
      (index < length ready) × Top ready s'.priorities index × Extends s.priorities s'.priorities
  Chosen ready s (err e, (s', t)) = Unit

  highest_then :
      Result Exception (List Priority) × (Pct × Tape p) → Result Exception ℕ × (Pct × Tape p)
  highest_then (r, s) = and_then r highest_of s
