-- ===== src/World/Isolated.antt =====
-- What the crash of a host means for its tasks.
use simloom.Prelude.{
  ==_iff, ℕ, suc, ◌≤◌, ◌-◌, Bool, true, false, not, ◌&&◌, ◌||◌, List, [], ◌∷◌, ◌++◌, leb, ◌==◌, ◌≡◌,
  refl, sym, ap, ◌∙◌, subst, arith, if◌then◌else◌, Bool-cases, inl, inr, All, Result, ok, err,
}
use simloom.Tape.{Prng, Exception, Tape}
use simloom.Disk.{SimDisk}
use simloom.Loop.{Task, Loop, is_among, is_crashed_owned, emit, emit_at}
use simloom.Loop.Calls.{insert_task, sort_key, key_le, sort_tasks, is_done, crash_each}
use simloom.Loop.Requests.{crash_tasks}
use simloom.Loop.Crashed.{Grows, shrinks, picked_handles, picked_handles-IsIsolated}
use simloom.World.{Host, is_text, live_from, live_tasks, switch_off, after_cut, cut_power, crash}

insert_task-is_among :
    (tasks : List Task) (x o : ℕ) (os : List ℕ)
    → is_among o (insert_task tasks x os) ≡ ((x == o) || is_among o os)
unfolding insert_task
insert_task-is_among tasks x o [] = refl
insert_task-is_among tasks x o (y ∷ os) =
    elim (Bool-cases (key_le (sort_key tasks x) (sort_key tasks y))) [
      | inl e ↦ rw e refl
      | inr e ↦ rw (e, insert_task-is_among tasks x o os) (swap (y == o) (x == o) (is_among o os))
    ]
  where
    swap : (a b c : Bool) → a || (b || c) ≡ b || (a || c)
    swap a b c = ground arith

sort_tasks-is_among :
    (tasks : List Task) (o : ℕ) (os : List ℕ) → is_among o (sort_tasks tasks os) ≡ is_among o os
unfolding sort_tasks
sort_tasks-is_among tasks o [] = refl
sort_tasks-is_among tasks o (x ∷ os) =
    insert_task-is_among tasks x o (sort_tasks tasks os)
    ∙ ap (λ b. (x == o) || b) (sort_tasks-is_among tasks o os)

appended : (o x : ℕ) (c : List ℕ) → is_among o (c ++ x ∷ []) ≡ is_among o c || (x == o)
appended o x [] = ground arith
appended o x (y ∷ c) = rw (appended o x c) (ground arith)

or_left : (a : Bool) → a || false ≡ true → a ≡ true
or_left a h = ground arith

or_right : (a : Bool) {b : Bool} → b ≡ true → a || b ≡ true
or_right a h = ground arith

or_first : {a : Bool} (b : Bool) → a ≡ true → a || b ≡ true
or_first b h = ground arith

shuffle : (x a c : Bool) → (x || a) || c ≡ true → a || (c || x) ≡ true
shuffle x a c h = ground arith

succ_minus : (i o : ℕ) → suc i ≤ o → o - i ≡ suc (o - suc i)
succ_minus i o h = omega arith

minus_zero : (o : ℕ) → o - 0 ≡ o
minus_zero o = omega arith

no_minus : (i o : ℕ) → i ≡ o → o - i ≡ 0
no_minus i o h = omega arith

-- A task that is not done and among the first list, or crashed before, is crashed.
crash_each-is_among :
    (tasks : List Task) (o : ℕ) (os c : List ℕ)
    → is_done tasks o ≡ false
    → is_among o os || is_among o c ≡ true
    → is_among o (crash_each tasks os c) ≡ true
unfolding crash_each
crash_each-is_among tasks o [] c d h = h
crash_each-is_among tasks o (x ∷ os) c d h =
    crash_each-is_among tasks o os _ d (on_tests (is_among x c) (is_done tasks x) refl refl)
  where
    same : (x == o) ≡ true → x ≡ o
    same e = (==_iff x o).0 e

    others : (x == o) ≡ false → is_among o os || is_among o c ≡ true
    others e = subst (λ b. (b || is_among o os) || is_among o c ≡ true) e h

    on_kept : is_among x c || is_done tasks x ≡ true → is_among o os || is_among o c ≡ true
    on_kept g = elim (Bool-cases (x == o)) [
      | inl e ↦
          or_right (is_among o os)
            (kept_here (subst (λ y. is_among y c || is_done tasks y ≡ true) (same e) g))
      | inr e ↦ others e
    ]
      where
        kept_here : is_among o c || is_done tasks o ≡ true → is_among o c ≡ true
        kept_here k = or_left (is_among o c) (subst (λ b. is_among o c || b ≡ true) d k)

    on_new : is_among o os || is_among o (c ++ x ∷ []) ≡ true
    on_new = rw (appended o x c) (shuffle (x == o) (is_among o os) (is_among o c) h)

    on_tests :
        (a b : Bool)
        → is_among x c ≡ a
        → is_done tasks x ≡ b
        → is_among o os || is_among o (if not a && not b then c ++ x ∷ [] else c) ≡ true
    on_tests true b e f = on_kept (rw e refl)
    on_tests false true e f = on_kept (rw (e, f) refl)
    on_tests false false e f = on_new

module _ {W : Type 0} where
  -- What `_live_tasks` lists is not done.
  live_from-is_done :
      (h : Host W) (i : ℕ) (ts : List Task) (o : ℕ)
      → is_among o (live_from h i ts) ≡ true
      → (i ≤ o) × (is_done ts (o - i) ≡ false)
  unfolding live_from is_done
  live_from-is_done h i [] o q = cc
  live_from-is_done h i (t ∷ ts) o q =
      on_tests t.done refl
        (is_among i h.spawned || (leb h.registered_from i && is_text t.host h.name)) q
        (live_from-is_done h (suc i) ts o)
    where
      Goal : Type 0
      Goal = (i ≤ o) × (is_done (t ∷ ts) (o - i) ≡ false)

      behind :
          (suc i ≤ o) × (is_done ts (o - suc i) ≡ false)
          → (i ≤ o) × (is_done (t ∷ ts) (o - i) ≡ false)
      behind r = (
        omega (arith, r.0),
        subst (λ k. is_done (t ∷ ts) k ≡ false) (sym (succ_minus i o r.0)) r.1,
      )

      here : t.done ≡ false → (i == o) ≡ true → (i ≤ o) × (is_done (t ∷ ts) (o - i) ≡ false)
      here f e = (
        omega (arith, (==_iff i o).0 e),
        subst (λ k. is_done (t ∷ ts) k ≡ false) (sym (no_minus i o ((==_iff i o).0 e))) f,
      )

      on_tests :
          (b : Bool)
          → t.done ≡ b
          → (c : Bool)
          → is_among o (let rest = live_from h (suc i) ts in if not b && c then i ∷ rest else rest)
            ≡ true
          → (is_among o (live_from h (suc i) ts) ≡ true
              → (suc i ≤ o) × (is_done ts (o - suc i) ≡ false))
          → (i ≤ o) × (is_done (t ∷ ts) (o - i) ≡ false)
      on_tests true f c q ih = behind (ih q)
      on_tests false f false q ih = behind (ih q)
      on_tests false f true q ih = elim (Bool-cases (i == o)) [
        | inl e ↦ here f e
        | inr e ↦ behind (ih (subst (λ b. b || is_among o (live_from h (suc i) ts) ≡ true) e q))
      ]

module _ {W : Type 0} {p : Prng} where
  off_crashed :
      (h : Host W) (s : Loop W p) (o : ℕ)
      → is_among o (live_tasks h s.tasks) ≡ true
      → is_among o (switch_off (h, s)).1.crashed_tasks ≡ true
  unfolding switch_off crash_tasks live_tasks emit emit_at
  off_crashed h s o q =
      crash_each-is_among s.tasks o (sort_tasks s.tasks (live_from h 0 s.tasks)) s.crashed_tasks
        (subst (λ k. is_done s.tasks k ≡ false) (minus_zero o)
          (live_from-is_done h 0 s.tasks o q).1)
        (rw (sort_tasks-is_among s.tasks o (live_from h 0 s.tasks)) (or_first _ q))

  cut_crashed :
      (h : Host W) (s : Loop W p) (r : Result Exception (Unit {0}) × (SimDisk × Tape p))
      → (after_cut h s r).1.1.crashed_tasks ≡ s.crashed_tasks
  unfolding after_cut
  cut_crashed h s (ok u, (disk, tape)) = refl
  cut_crashed h s (err e, (disk, tape)) = refl

  crash_crashed :
      (h : Host W) (s : Loop W p) (o : ℕ)
      → h.crashed ≡ false
      → is_among o (live_tasks h s.tasks) ≡ true
      → is_among o (crash (h, s)).1.1.crashed_tasks ≡ true
  unfolding crash cut_power
  crash_crashed h s o up q = on_test h.crashed up
    where
      on_test :
          (b : Bool)
          → b ≡ false
          → is_among o
              (if b then (ok tt, (h, s)) else cut_power (switch_off (h, s))).1.1.crashed_tasks
            ≡ true
      on_test true e = cc
      on_test false e =
          subst (λ c. is_among o c ≡ true)
            (sym (cut_crashed (switch_off (h, s)).0 (switch_off (h, s)).1 _)) (off_crashed h s o q)

  -- When a host that is up crashes, then no turn of the loop, however many it makes and whatever
  -- its callbacks do, picks a handle of a task that was live on the host; also when the power cut
  -- of its disk raises.
  pub crash-IsIsolated :
      (h : Host W) (s : Loop W p) (o : ℕ) (n : ℕ)
      → h.crashed ≡ false
      → is_among o (live_tasks h s.tasks) ≡ true
      → All (λ g. is_crashed_owned (o ∷ []) g ≡ false) (picked_handles n (crash (h, s)).1.1)
  crash-IsIsolated h s o n up q =
      shrinks (o ∷ []) (crash (h, s)).1.1.crashed_tasks (picked_handles n (crash (h, s)).1.1) grows
        (picked_handles-IsIsolated n (crash (h, s)).1.1)
    where
      grows : Grows (o ∷ []) (crash (h, s)).1.1.crashed_tasks
      grows x e =
          subst (λ y. is_among y (crash (h, s)).1.1.crashed_tasks ≡ true) (found e)
            (crash_crashed h s o up q)
        where
          found : is_among x (o ∷ []) ≡ true → o ≡ x
          found e = (==_iff o x).0 (or_left (o == x) e)
