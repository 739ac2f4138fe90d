-- ===== src/Loop/Heap.antt =====
-- The heap of timers keeps its order through a run.
use simloom.Prelude.{ℕ, suc, ◌≤◌, ◌<◌, ◌≡◌, refl, List, [], ◌∷◌, All, arith, Bool, Option}
use simloom.Tape.{Prng}
use simloom.Loop.{LoopError, LoopHandle, Timer, Loop, emit, emit_at}
use simloom.Loop.Calls.{push_timer}
use simloom.Loop.Waiting.{compact_ready, settle, report_deadlock}
use simloom.Loop.Teardown.{turns}
use simloom.Loop.Timers.{
  IsSorted, push_timer-IsSorted, All-push_timer, drop_cancelled-All, drop_cancelled-IsSorted,
  later_part-All, later_part-IsSorted,
}
use simloom.Loop.Effects.{Effect, drifted, pushed, timed, cancelled_one, crashed_some, followed}
use simloom.Loop.Waited.{Waited, was_ready, jumped, checked, Refused, quiescent, unmet}
use simloom.Loop.Chosen.{
  Popped, popped, Missed, missed, prepared, due, Chosen, over, nothing_due, chose, Failed, refused,
  no_pick,
}
use simloom.Loop.Moves.{Moves, chosen, failed, acted, counted_step, monitored, joined, turns-Makes}

module _ {W : Type 0} where
  abbrev IsHeapOf : ℕ → List (Timer W) → Type 0
  IsHeapOf n ts = IsSorted ts × All (λ t. t.seq ≤ n) ts

  All-map :
      (P Q : Timer W → Type 0) (ts : List (Timer W))
      → ((t : Timer W) → P t → Q t)
      → All P ts
      → All Q ts
  All-map P Q [] f h = tt
  All-map P Q (t ∷ ts) f h = (f t h.0, All-map P Q ts f h.1)

  push_timer-IsHeap :
      (t : Timer W) (n : ℕ) (ts : List (Timer W))
      → t.seq ≡ suc n
      → IsHeapOf n ts
      → IsHeapOf (suc n) (push_timer t ts)
  push_timer-IsHeap t n ts e h = (
    push_timer-IsSorted t ts
        (All-map (λ u. u.seq ≤ n) (λ u. u.seq < t.seq) ts (λ u l. ground (arith, l, e)) h.1) h.0,
    All-push_timer (λ u. u.seq ≤ suc n) t ts (omega (arith, e))
        (All-map (λ u. u.seq ≤ n) (λ u. u.seq ≤ suc n) ts (λ u l. omega (arith, l)) h.1),
  )

module _ {W : Type 0} {p : Prng} where
  -- The timers are sorted, and no number is above the last one given out.
  abbrev pub IsHeap : Loop W p → Type 0
  IsHeap s = IsSorted s.scheduled × All (λ t. t.seq ≤ s.timer_seq) s.scheduled

  Effect-IsHeap : {s t : Loop W p} → Effect s t → IsHeap s → IsHeap t
  Effect-IsHeap (drifted tape log tasks n coverage unhandled world stopping) h = h
  Effect-IsHeap (pushed callable body causes) h = h
  Effect-IsHeap {s = s} (timed when callable body causes) h =
      push_timer-IsHeap _ s.timer_seq s.scheduled refl h
  Effect-IsHeap (cancelled_one id) h = h
  Effect-IsHeap (crashed_some orders) h = h
  Effect-IsHeap (followed e f) h = Effect-IsHeap f (Effect-IsHeap e h)

  prepared-IsHeap : (s : Loop W p) → IsHeap s → IsHeap (prepared s)
  unfolding compact_ready
  prepared-IsHeap s h = (
    drop_cancelled-IsSorted s.cancelled s.scheduled h.0,
    drop_cancelled-All _ s.cancelled s.scheduled h.1,
  )

  Waited-IsHeap : {b : Bool} {s t : Loop W p} → Waited s b t → IsHeap s → IsHeap t
  Waited-IsHeap (was_ready r) h = h
  Waited-IsHeap (jumped now log r q f on tg k' j) h = h
  Waited-IsHeap (checked d ms f g tg r k' o') h = h

  due-IsHeap : (t : Loop W p) → IsHeap t → IsHeap (due t)
  due-IsHeap t h =
      (later_part-IsSorted t.now t.scheduled h.0, later_part-All _ t.now t.scheduled h.1)

  Popped-IsHeap : {g : LoopHandle W} {s t : Loop W p} → Popped s g t → IsHeap s → IsHeap t
  Popped-IsHeap (popped index scheduler tape log causes e) h = h

  Missed-IsHeap : {e : LoopError} {s t : Loop W p} → Missed s e t → IsHeap s → IsHeap t
  Missed-IsHeap (missed scheduler tape n) h = h

  Chosen-IsHeap : {c : Option (LoopHandle W)} (s t : Loop W p) → Chosen s c t → IsHeap s → IsHeap t
  Chosen-IsHeap s u (over w) h = Waited-IsHeap w (prepared-IsHeap s h)
  Chosen-IsHeap s u (nothing_due {t = t} w) h = due-IsHeap t (Waited-IsHeap w (prepared-IsHeap s h))
  Chosen-IsHeap s u (chose {t = t} w o) h =
      Popped-IsHeap o (due-IsHeap t (Waited-IsHeap w (prepared-IsHeap s h)))

  Refused-IsHeap : {e : LoopError} {s t : Loop W p} → Refused s e t → IsHeap s → IsHeap t
  unfolding settle report_deadlock emit emit_at
  Refused-IsHeap (quiescent r q) h = h
  Refused-IsHeap (unmet d v ms f g) h = h

  Failed-IsHeap : {e : LoopError} (s t : Loop W p) → Failed s e t → IsHeap s → IsHeap t
  Failed-IsHeap s u (refused r) h = Refused-IsHeap r (prepared-IsHeap s h)
  Failed-IsHeap s u (no_pick {t = t} w m) h =
      Missed-IsHeap m (due-IsHeap t (Waited-IsHeap w (prepared-IsHeap s h)))

  Moves-IsHeap : {s t : Loop W p} → Moves s t → IsHeap s → IsHeap t
  Moves-IsHeap {s = s} {t = t} (chosen c) h = Chosen-IsHeap s t c h
  Moves-IsHeap {s = s} {t = t} (failed f) h = Failed-IsHeap s t f h
  Moves-IsHeap (acted e) h = Effect-IsHeap e h
  Moves-IsHeap (counted_step c n i j) h = h
  Moves-IsHeap (monitored ms log) h = h
  Moves-IsHeap (joined a b) h = Moves-IsHeap b (Moves-IsHeap a h)

  -- If the timers of a loop are sorted by time and number, and no number is above the last one
  -- given out, then this is so behind any number of turns, whatever the callbacks do, and also
  -- when the run raises.
  pub turns-IsHeap : (n : ℕ) (s : Loop W p) → IsHeap s → IsHeap (turns n s).1
  turns-IsHeap n s h = Moves-IsHeap (turns-Makes n s) h
