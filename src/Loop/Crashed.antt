-- ===== src/Loop/Crashed.antt =====
-- A crashed task never runs again: over the turns of a run, whatever its callbacks do.
use simloom.Prelude.{
  ℕ, zero, suc, ◌≡◌, refl, sym, ◌∙◌, List, [], ◌∷◌, ◌++◌, All, arith, not, ◌&&◌, ◌||◌, ◌==◌,
  Bool-cases, inl, inr, Bool, true, false, Option, none, some, Result, ok, err, After, All-append,
  if◌then◌else◌, subst,
}
use simloom.Tape.{Prng}
use simloom.Loop.{
  LoopError, Callable, task_method, function, partial, coroutine_function, not_callable, Task,
  LoopHandle, Loop, emit, emit_at, is_among, is_crashed_owned, handle_is_dead,
}
use simloom.Loop.Calls.{crash_each, is_done}
use simloom.Loop.Waiting.{compact_ready, settle, report_deadlock}
use simloom.Loop.Step.{choose_next, run_once}
use simloom.Loop.Effects.{Effect, drifted, pushed, timed, cancelled_one, crashed_some, followed}
use simloom.Loop.Waited.{Waited, was_ready, jumped, checked, quiescent, unmet}
use simloom.Loop.Chosen.{
  Popped, popped, missed, prepared, due, Chosen, over, nothing_due, chose, Failed, refused, no_pick,
  choose_next-Chosen,
}
use simloom.Loop.Timely.{Chosen_alive}
use simloom.Loop.Moves.{
  Moves, chosen, failed, acted, counted_step, monitored, joined, run_once-Makes,
}

-- The tasks of the first list are in the second.
abbrev pub Grows : List ℕ → List ℕ → Type 0
Grows c d = (o : ℕ) → is_among o c ≡ true → is_among o d ≡ true

is_among-append : (o : ℕ) (c d : List ℕ) → is_among o c ≡ true → is_among o (c ++ d) ≡ true
is_among-append o [] d h = cc
is_among-append o (x ∷ c) d h = elim (Bool-cases (x == o)) [
  | inl e ↦ rw e refl
  | inr e ↦ rw e (is_among-append o c d (ground (arith, e, h)))
]

crash_each-Grows : (tasks : List Task) (os c : List ℕ) → Grows c (crash_each tasks os c)
unfolding crash_each
crash_each-Grows tasks [] c o h = h
crash_each-Grows tasks (x ∷ os) c o h =
    crash_each-Grows tasks os _ o (on_test (not (is_among x c) && not (is_done tasks x)))
  where
    on_test : (b : Bool) → is_among o (if b then c ++ x ∷ [] else c) ≡ true
    on_test true = is_among-append o c (x ∷ []) h
    on_test false = h

second : (a : Bool) {b : Bool} → a || b ≡ false → b ≡ false
second a h = ground arith

module _ {W : Type 0} where
  unowned :
      (c d : List ℕ) (h : LoopHandle W)
      → Grows c d
      → is_crashed_owned d h ≡ false
      → is_crashed_owned c h ≡ false
  unfolding is_crashed_owned
  unowned c d h g e = on_callable h.callable e
    where
      owned : List ℕ → Callable → Bool
      owned l a = elim a [ task_method order method ↦ is_among order l | _ ↦ false ]

      on_callable : (a : Callable) → owned d a ≡ false → owned c a ≡ false
      on_callable (task_method order method) e = elim (Bool-cases (is_among order c)) [
        | inl q ↦ absurd (opposite (sym (g order q) ∙ e))
        | inr q ↦ q
      ]
        where
          opposite : true ≡ false → ⊥
          opposite r = cc
      on_callable (function name) e = refl
      on_callable (partial inner) e = refl
      on_callable coroutine_function e = refl
      on_callable not_callable e = refl

  pub shrinks :
      (c d : List ℕ) (hs : List (LoopHandle W))
      → Grows c d
      → All (λ h. is_crashed_owned d h ≡ false) hs
      → All (λ h. is_crashed_owned c h ≡ false) hs
  shrinks c d [] g h = tt
  shrinks c d (x ∷ hs) g h = (unowned c d x g h.0, shrinks c d hs g h.1)

module _ {W : Type 0} {p : Prng} where
  Effect-Grows : {s t : Loop W p} → Effect s t → Grows s.crashed_tasks t.crashed_tasks
  Effect-Grows (drifted tape log tasks n coverage unhandled world stopping) o h = h
  Effect-Grows (pushed callable body causes) o h = h
  Effect-Grows (timed when callable body causes) o h = h
  Effect-Grows (cancelled_one id) o h = h
  Effect-Grows {s = s} (crashed_some orders) o h =
      crash_each-Grows s.tasks orders s.crashed_tasks o h
  Effect-Grows (followed e f) o h = Effect-Grows f o (Effect-Grows e o h)

  Waited-crashed_tasks :
      {b : Bool} (s t : Loop W p) → Waited (prepared s) b t → t.crashed_tasks ≡ s.crashed_tasks
  unfolding compact_ready
  Waited-crashed_tasks s t (was_ready r) = refl
  Waited-crashed_tasks s t (jumped now log r q f on tg k' j) = refl
  Waited-crashed_tasks s t (checked d ms f g tg r k' o') = refl

  Popped-crashed_tasks :
      {h : LoopHandle W} (s t : Loop W p) → Popped s h t → t.crashed_tasks ≡ s.crashed_tasks
  Popped-crashed_tasks s t (popped index scheduler tape log causes e) = refl

  Chosen-crashed_tasks :
      {c : Option (LoopHandle W)} (s t : Loop W p)
      → Chosen s c t
      → t.crashed_tasks ≡ s.crashed_tasks
  Chosen-crashed_tasks s u (over w) = Waited-crashed_tasks s u w
  Chosen-crashed_tasks s u (nothing_due {t = t} w) = Waited-crashed_tasks s t w
  Chosen-crashed_tasks s u (chose {t = t} w o) =
      Popped-crashed_tasks (due t) u o ∙ Waited-crashed_tasks s t w

  Failed-crashed_tasks :
      {e : LoopError} (s t : Loop W p) → Failed s e t → t.crashed_tasks ≡ s.crashed_tasks
  unfolding compact_ready settle report_deadlock emit emit_at
  Failed-crashed_tasks s u (refused (quiescent r q)) = refl
  Failed-crashed_tasks s u (refused (unmet d v ms f g)) = refl
  Failed-crashed_tasks s u (no_pick {t = t} w (missed scheduler tape n)) =
      Waited-crashed_tasks s t w

  Moves-Grows : {s t : Loop W p} → Moves s t → Grows s.crashed_tasks t.crashed_tasks
  Moves-Grows {s = s} {t = t} (chosen c) o h =
      subst (λ l. is_among o l ≡ true) (sym (Chosen-crashed_tasks s t c)) h
  Moves-Grows {s = s} {t = t} (failed f) o h =
      subst (λ l. is_among o l ≡ true) (sym (Failed-crashed_tasks s t f)) h
  Moves-Grows (acted e) o h = Effect-Grows e o h
  Moves-Grows (counted_step c n i j) o h = h
  Moves-Grows (monitored ms log) o h = h
  Moves-Grows (joined a b) o h = Moves-Grows b o (Moves-Grows a o h)

  abbrev pub picked_of : Result LoopError (Option (LoopHandle W)) × Loop W p → List (LoopHandle W)
  picked_of (ok none, t) = []
  picked_of (ok (some h), t) = h ∷ []
  picked_of (err e, t) = []

  abbrev continues :
      {A : Type 0}
      → (Loop W p → List (LoopHandle W))
      → Result LoopError A × Loop W p
      → List (LoopHandle W)
  continues f (ok a, t) = f t
  continues f (err e, t) = []

  -- The handles that some turns pick, in order.
  unfoldable pub picked_handles : ℕ → Loop W p → List (LoopHandle W)
  picked_handles zero s = []
  picked_handles (suc n) s =
      let all = picked_of (choose_next s) ++ continues (picked_handles n) (run_once s) in
      if s.stopping then [] else all

  picked_isolated :
      (s : Loop W p) (r : Result LoopError (Option (LoopHandle W)) × Loop W p)
      → After (Chosen s) (Failed s) r
      → All (λ h. is_crashed_owned s.crashed_tasks h ≡ false) (picked_of r)
  unfolding handle_is_dead
  picked_isolated s (ok none, u) c = tt
  picked_isolated s (ok (some h), u) (chose {t = t} w o) = (
    subst (λ l. is_crashed_owned l h ≡ false)
        (Popped-crashed_tasks (due t) u o ∙ Waited-crashed_tasks s t w)
        (second _ (Chosen_alive s t u h w o)),
    tt,
  )
  picked_isolated s (err e, u) c = tt

  -- However many turns the loop makes, and whatever its callbacks do, no handle that it picks is
  -- owned by a task that was crashed at the start.
  pub picked_handles-IsIsolated :
      (n : ℕ) (s : Loop W p)
      → All (λ h. is_crashed_owned s.crashed_tasks h ≡ false) (picked_handles n s)
  unfolding picked_handles
  picked_handles-IsIsolated zero s = tt
  picked_handles-IsIsolated (suc n) s =
      on_test s.stopping (on_result (run_once s) (run_once-Makes s) (picked_handles-IsIsolated n))
    where
      Isolated : List (LoopHandle W) → Type 0
      Isolated hs = All (λ h. is_crashed_owned s.crashed_tasks h ≡ false) hs

      on_result :
          (r : Result LoopError (Unit {0}) × Loop W p)
          → Moves s r.1
          → ((t : Loop W p)
              → All (λ h. is_crashed_owned t.crashed_tasks h ≡ false) (picked_handles n t))
          → All (λ h. is_crashed_owned s.crashed_tasks h ≡ false) (continues (picked_handles n) r)
      on_result (ok a, t) m ih =
          shrinks s.crashed_tasks t.crashed_tasks (picked_handles n t) (Moves-Grows m) (ih t)
      on_result (err e, t) m ih = tt

      on_test :
          (b : Bool)
          → All
              (λ h. is_crashed_owned s.crashed_tasks h ≡ false)
              (continues (picked_handles n) (run_once s))
          → All
              (λ h. is_crashed_owned s.crashed_tasks h ≡ false)
              (let all = picked_of (choose_next s) ++ continues (picked_handles n) (run_once s) in
                if b then [] else all)
      on_test true h = tt
      on_test false h =
          All-append _ (picked_of (choose_next s)) _
            (picked_isolated s (choose_next s) (choose_next-Chosen s)) h
