-- ===== src/Loop/Timers.antt =====
-- The heap of timers: in the order of their times, and of their numbers among equal times.
use simloom.Prelude.{
  ℕ, ◌<◌, true, false, ◌&&◌, ◌||◌, List, [], ◌∷◌, ltb, leb, ◌==◌, arith, if◌then◌else◌, ◌≡◌, All,
  Bool-cases, inl, inr, ◌⊎◌,
}
use simloom.Loop.{Timer, is_cancelled}
use simloom.Loop.Calls.{push_timer}
use simloom.Loop.Waiting.{drop_cancelled}

module _ {W : Type 0} where
  -- The order of the tuples.
  abbrev pub Before : Timer W → Timer W → Type 0
  Before t u = (t.when < u.when) ⊎ ((t.when ≡ u.when) × (t.seq < u.seq))

  abbrev pub IsSorted : List (Timer W) → Type 0
  IsSorted [] = Unit
  IsSorted (t ∷ ts) = All (Before t) ts × IsSorted ts

  pub All-push_timer :
      (P : Timer W → Type 0) (t : Timer W) (ts : List (Timer W))
      → P t
      → All P ts
      → All P (push_timer t ts)
  unfolding push_timer
  All-push_timer P t [] h hs = (h, tt)
  All-push_timer P t (u ∷ us) h hs =
      elim (Bool-cases (ltb t.when u.when || (t.when == u.when && ltb t.seq u.seq))) [
        | inl e ↦ rw e (h, hs)
        | inr e ↦ rw e (hs.0, All-push_timer P t us h hs.1)
      ]

  Before-trans : (t u v : Timer W) → Before t u → Before u v → Before t v
  Before-trans t u v a b = ground arith

  All-Before :
      (t u : Timer W) (us : List (Timer W)) → Before t u → All (Before u) us → All (Before t) us
  All-Before t u [] a h = tt
  All-Before t u (v ∷ us) a h = (Before-trans t u v a h.0, All-Before t u us a h.1)

  -- The number of the new timer is above all others.
  pub push_timer-IsSorted :
      (t : Timer W) (ts : List (Timer W))
      → All (λ u. u.seq < t.seq) ts
      → IsSorted ts
      → IsSorted (push_timer t ts)
  unfolding push_timer
  push_timer-IsSorted t [] fresh h = (tt, tt)
  push_timer-IsSorted t (u ∷ us) fresh h =
      elim (Bool-cases (ltb t.when u.when || (t.when == u.when && ltb t.seq u.seq))) [
        | inl e ↦ rw e ((sooner e, All-Before t u us (sooner e) h.0), h)
        | inr e ↦
            rw e
              (All-push_timer (Before u) t us (later e) h.0, push_timer-IsSorted t us fresh.1 h.1)
      ]
    where
      sooner : (ltb t.when u.when || (t.when == u.when && ltb t.seq u.seq)) ≡ true → Before t u
      sooner e = ground arith

      later : (ltb t.when u.when || (t.when == u.when && ltb t.seq u.seq)) ≡ false → Before u t
      later e = ground (arith, fresh.0)

  pub drop_cancelled-All :
      (P : Timer W → Type 0) (cancelled : List ℕ) (ts : List (Timer W))
      → All P ts
      → All P (drop_cancelled cancelled ts)
  unfolding drop_cancelled
  drop_cancelled-All P cancelled [] h = tt
  drop_cancelled-All P cancelled (t ∷ ts) h = elim (Bool-cases (is_cancelled cancelled t.handle)) [
    | inl e ↦ rw e (drop_cancelled-All P cancelled ts h.1)
    | inr e ↦ rw e h
  ]

  pub drop_cancelled-IsSorted :
      (cancelled : List ℕ) (ts : List (Timer W))
      → IsSorted ts
      → IsSorted (drop_cancelled cancelled ts)
  unfolding drop_cancelled
  drop_cancelled-IsSorted cancelled [] h = tt
  drop_cancelled-IsSorted cancelled (t ∷ ts) h =
      elim (Bool-cases (is_cancelled cancelled t.handle)) [
        | inl e ↦ rw e (drop_cancelled-IsSorted cancelled ts h.1)
        | inr e ↦ rw e h
      ]

  -- The timers at the front that are due, and those behind them.
  abbrev pub due_part : ℕ → List (Timer W) → List (Timer W)
  due_part now [] = []
  due_part now (t ∷ ts) = let rest = due_part now ts in if leb t.when now then t ∷ rest else []

  abbrev pub later_part : ℕ → List (Timer W) → List (Timer W)
  later_part now [] = []
  later_part now (t ∷ ts) = let rest = later_part now ts in if leb t.when now then rest else t ∷ ts

  pub later_part-All :
      (P : Timer W → Type 0) (now : ℕ) (ts : List (Timer W)) → All P ts → All P (later_part now ts)
  later_part-All P now [] h = tt
  later_part-All P now (t ∷ ts) h = elim (Bool-cases (leb t.when now)) [
    | inl e ↦ rw e (later_part-All P now ts h.1)
    | inr e ↦ rw e h
  ]

  pub later_part-IsSorted :
      (now : ℕ) (ts : List (Timer W)) → IsSorted ts → IsSorted (later_part now ts)
  later_part-IsSorted now [] h = tt
  later_part-IsSorted now (t ∷ ts) h = elim (Bool-cases (leb t.when now)) [
    | inl e ↦ rw e (later_part-IsSorted now ts h.1)
    | inr e ↦ rw e h
  ]

  All-after :
      (now : ℕ) (t : Timer W) (ts : List (Timer W))
      → now < t.when
      → All (Before t) ts
      → All (λ u. now < u.when) ts
  All-after now t [] a h = tt
  All-after now t (u ∷ us) a h = (ground (arith, h.0), All-after now t us a h.1)

  -- In a sorted heap all that is left is later.
  pub later_part_later :
      (now : ℕ) (ts : List (Timer W)) → IsSorted ts → All (λ t. now < t.when) (later_part now ts)
  later_part_later now [] h = tt
  later_part_later now (t ∷ ts) h = elim (Bool-cases (leb t.when now)) [
    | inl e ↦ rw e (later_part_later now ts h.1)
    | inr e ↦ rw e (ground arith, All-after now t ts (ground arith) h.0)
  ]
