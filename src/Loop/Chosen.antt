-- ===== src/Loop/Chosen.antt =====
-- The pick of a turn of the loop, outcome by outcome.
use simloom.Prelude.{
  ℕ, Bool, true, false, Option, none, some, List, [], ◌∷◌, ◌≡◌, refl, sym, subst, map, Result, ok,
  err, pure, and_then, ◌>>=◌, get_elem?, remove_at, After, bind-After,
}
use simloom.Tape.{Prng, Exception, Tape}
use simloom.Sched.{Pct, walk_pick, pct_pick}
use simloom.Loop.{
  LoopError, deadlock, LoopHandle, Loop, Entry, Cause, Scheduler, random_walk, pct, emit, emit_at,
  seen,
}
use simloom.Loop.Waiting.{drop_cancelled, compact_ready, await_event}
use simloom.Loop.Requests.{on_tape}
use simloom.Loop.Step.{
  on_pct, pick, pop_handle, popped_at, take_ready, next_handle, take_next, unless_over, choose_next,
}
use simloom.Loop.Due.{taken, take_due_lem}
use simloom.Loop.Waited.{Waited, Refused, await_event-Waited, compact_lem}

abbrev pub is_deadlock : LoopError → Bool
is_deadlock (deadlock pending) = true
is_deadlock e = false

module _ {W : Type 0} {p : Prng} where
  pub data Popped (s : Loop W p) : LoopHandle W → Loop W p → Type 0 where
    popped :
        (index : ℕ) {h : LoopHandle W} (scheduler : Scheduler) (tape : Tape p) (log : List Entry)
        (causes : List (ℕ × Cause))
        → get_elem? s.ready index ≡ some h
        → Popped s h (record s {
          scheduler = scheduler;
          tape = tape;
          log = log;
          handle_cause = causes;
          ready = remove_at index s.ready;
        })

  pub data Missed (s : Loop W p) : LoopError → Loop W p → Type 0 where
    missed :
        {e : LoopError} (scheduler : Scheduler) (tape : Tape p)
        → is_deadlock e ≡ false
        → Missed s e (record s { scheduler = scheduler; tape = tape })

  -- A pick moves the scheduler and the tape.
  pub data Moved (s : Loop W p) : ℕ → Loop W p → Type 0 where
    moved :
        {i : ℕ} (scheduler : Scheduler) (tape : Tape p)
        → Moved s i (record s { scheduler = scheduler; tape = tape })

  on_tape-Moved :
      (r : Result Exception ℕ × Tape p) (s : Loop W p) → After (Moved s) (Missed s) (on_tape r s)
  unfolding on_tape
  on_tape-Moved (ok i, t) s = moved s.scheduler t
  on_tape-Moved (err e, t) s = missed s.scheduler t refl

  on_pct-Moved :
      (r : Result Exception ℕ × (Pct × Tape p)) (s : Loop W p)
      → After (Moved s) (Missed s) (on_pct r s)
  unfolding on_pct
  on_pct-Moved (ok i, (q, t)) s = moved (pct q) t
  on_pct-Moved (err e, (q, t)) s = missed (pct q) t refl

  pick-Moved : (s : Loop W p) → After (Moved s) (Missed s) (pick s)
  unfolding pick
  pick-Moved s = on_scheduler s.scheduler
    where
      on_scheduler :
          (c : Scheduler)
          → After (Moved s) (Missed s) (elim c [
            | random_walk ↦ on_tape (walk_pick (map (λ h. seen (h.callable)) s.ready) s.tape) s
            | pct q ↦ on_pct (pct_pick (map (λ h. seen (h.callable)) s.ready) (q, s.tape)) s
          ])
      on_scheduler random_walk = on_tape-Moved _ s
      on_scheduler (pct q) = on_pct-Moved _ s

  pop-Popped :
      (index : ℕ) (s t : Loop W p)
      → Moved s index t
      → After (Popped s) (Missed s) (pop_handle index t)
  unfolding pop_handle popped_at emit emit_at
  pop-Popped index s t (moved scheduler tape) = on_get (get_elem? s.ready index) refl
    where
      u : Loop W p
      u = record s { scheduler = scheduler; tape = tape }

      on_get :
          (o : Option (LoopHandle W))
          → get_elem? s.ready index ≡ o
          → After (Popped s) (Missed s) (popped_at index u o)
      on_get none e = missed scheduler tape refl
      on_get (some h) e = popped index scheduler tape _ _ e

  pub next_handle-Popped : (s : Loop W p) → After (Popped s) (Missed s) (next_handle s)
  unfolding next_handle
  next_handle-Popped s =
      bind-After (Moved s) (Popped s) (Missed s) pick pop_handle s (pick-Moved s)
        (λ index t m. pop-Popped index s t m)

  -- The loop when the dead are gone.
  abbrev pub prepared : Loop W p → Loop W p
  prepared s = compact_ready (record s { scheduled = drop_cancelled s.cancelled s.scheduled })

  abbrev pub due : Loop W p → Loop W p
  due t = taken t.scheduled t

  pub data Chosen (s : Loop W p) : Option (LoopHandle W) → Loop W p → Type 0 where
    over : {t : Loop W p} → Waited (prepared s) true t → Chosen s none t
    nothing_due : {t : Loop W p} → Waited (prepared s) false t → Chosen s none (due t)
    chose :
        {t u : Loop W p} {h : LoopHandle W}
        → Waited (prepared s) false t
        → Popped (due t) h u
        → Chosen s (some h) u

  pub data Failed (s : Loop W p) : LoopError → Loop W p → Type 0 where
    refused : {e : LoopError} {t : Loop W p} → Refused (prepared s) e t → Failed s e t
    no_pick :
        {e : LoopError} {t u : Loop W p}
        → Waited (prepared s) false t
        → Missed (due t) e u
        → Failed s e u

  picked :
      (s t : Loop W p)
      → Waited (prepared s) false t
      → (r : Result LoopError (LoopHandle W) × Loop W p) → After (Popped (due t)) (Missed (due t)) r
      → After (Chosen s) (Failed s) (let (x, u) = r in and_then x (λ h. pure (some h)) u)
  picked s t w (ok h, u) o = chose w o
  picked s t w (err e, u) o = no_pick w o

  pub take_next-Chosen :
      (s t : Loop W p) → Waited (prepared s) false t → After (Chosen s) (Failed s) (take_next t)
  unfolding take_next take_ready
  take_next-Chosen s t w =
      subst (λ u. After (Chosen s) (Failed s) (take_ready u)) (sym (take_due_lem t.scheduled t))
        (on_ready (due t).ready)
    where
      on_ready :
          (hs : List (LoopHandle W))
          → After (Chosen s) (Failed s) (elim hs [
            | [] ↦ (ok none, due t)
            | h ∷ l ↦ (next_handle >>= (λ h. pure (some h))) (due t)
          ])
      on_ready [] = nothing_due w
      on_ready (h ∷ l) = picked s t w (next_handle (due t)) (next_handle-Popped (due t))

  after_wait :
      (s : Loop W p) (ends : Bool) (t : Loop W p)
      → Waited (prepared s) ends t
      → After (Chosen s) (Failed s) (unless_over ends t)
  unfolding unless_over
  after_wait s true t w = over w
  after_wait s false t w = take_next-Chosen s t w

  await-Failed :
      (s : Loop W p) (r : Result LoopError Bool × Loop W p)
      → After (Waited (prepared s)) (Refused (prepared s)) r
      → After (Waited (prepared s)) (Failed s) r
  await-Failed s (ok b, t) h = h
  await-Failed s (err e, t) h = refused h

  pub choose_next-Chosen : (s : Loop W p) → After (Chosen s) (Failed s) (choose_next s)
  unfolding choose_next
  choose_next-Chosen s =
      subst (λ u. After (Chosen s) (Failed s) ((await_event >>= unless_over) u))
        (sym (compact_lem (record s { scheduled = drop_cancelled s.cancelled s.scheduled })))
        (bind-After (Waited (prepared s)) (Chosen s) (Failed s) await_event unless_over (prepared s)
          (await-Failed s (await_event (prepared s)) (await_event-Waited (prepared s)))
          (after_wait s))
