-- ===== src/Loop/Timely.antt =====
-- The times at which `_run_once` runs callbacks.
use simloom.Prelude.{
  ℕ, ◌≤◌, ◌<◌, Bool, true, false, not, Option, none, some, List, [], ◌∷◌, ◌≡◌, refl, map, keep, inl,
  inr, ◌⊎◌, arith, leb, Bool-cases, All, All-append, All-get_elem?, After, weaken-After,
}
use simloom.Tape.{Prng}
use simloom.Loop.{Entry, LoopError, LoopHandle, Timer, Loop, handle_is_dead, emit, emit_at}
use simloom.Loop.Waiting.{drop_cancelled, compact_ready, settle, report_deadlock}
use simloom.Loop.Step.{choose_next}
use simloom.Loop.Timers.{
  IsSorted, due_part, later_part_later, drop_cancelled-IsSorted, drop_cancelled-All,
}
use simloom.Loop.Due.{alive, due_handles}
use simloom.Loop.Waited.{Waited, was_ready, jumped, checked, quiescent, unmet, first_time}
use simloom.Loop.Chosen.{
  Popped, popped, missed, prepared, due, Chosen, over, nothing_due, chose, Failed, refused, no_pick,
  choose_next-Chosen,
}

revived : {b : Bool} → not b ≡ true → b ≡ false
revived h = ground arith

module _ {A : Type 0} where
  pub All-keep : (P : A → Type 0) (q : A → Bool) (xs : List A) → All P xs → All P (keep q xs)
  All-keep P q [] h = tt
  All-keep P q (x ∷ xs) h = elim (Bool-cases (q x)) [
    | inl e ↦ rw e (h.0, All-keep P q xs h.1)
    | inr e ↦ rw e (All-keep P q xs h.1)
  ]

  pub keep-All : (q : A → Bool) (xs : List A) → All (λ x. q x ≡ true) (keep q xs)
  keep-All q [] = tt
  keep-All q (x ∷ xs) = elim (Bool-cases (q x)) [
    | inl e ↦ rw e (e, keep-All q xs)
    | inr e ↦ rw e (keep-All q xs)
  ]

module _ {W : Type 0} where
  -- What holds of the handles of all timers, if they are due, holds of those that are taken.
  All-due_part :
      (P : LoopHandle W → Type 0) (now : ℕ) (ts : List (Timer W))
      → All (λ t. t.when ≤ now → P t.handle) ts
      → All P (map (λ t. t.handle) (due_part now ts))
  All-due_part P now [] h = tt
  All-due_part P now (t ∷ ts) h = elim (Bool-cases (leb t.when now)) [
    | inl e ↦ rw e (h.0 (ground arith), All-due_part P now ts h.1)
    | inr e ↦ rw e tt
  ]

module _ {W : Type 0} {p : Prng} where
  -- A handle that runs: the clock has not gone back; it moved to the first timer at most; the handle is
  -- neither cancelled nor a crashed task's; no timer that is left is due; and what holds of the ready
  -- handles and of the timers' that are due holds of it.
  pub record Timely (P : LoopHandle W → Type 0) (s : Loop W p) (h : LoopHandle W) (t : Loop W p)
      : Type 0 where
    pub forward : s.now ≤ t.now
    pub on_time :
        (t.now ≡ s.now) ⊎ (first_time (drop_cancelled s.cancelled s.scheduled) ≡ some t.now)
    pub is_alive : handle_is_dead t h ≡ false
    pub none_late : All (λ u. t.now < u.when) t.scheduled
    pub not_early : All P s.ready → All (λ u. u.when ≤ t.now → P u.handle) s.scheduled → P h

  abbrev pub RanTimely :
      (LoopHandle W → Type 0) → Loop W p → Option (LoopHandle W) → Loop W p → Type 0
  RanTimely P s none t = s.now ≤ t.now
  RanTimely P s (some h) t = Timely P s h t

  abbrev pub at_time : Loop W p → ℕ → List Entry → Loop W p
  at_time s now log = record (prepared s) { now = now; log = log }

  pub ready_alive :
      (s : Loop W p) (now : ℕ) (log : List Entry)
      → All (λ h. alive s h ≡ true) (due (at_time s now log)).ready
  unfolding compact_ready handle_is_dead
  ready_alive s now log =
      All-append (λ h. alive s h ≡ true) (prepared s).ready _ (keep-All (alive s) s.ready)
        (keep-All (alive s) (due_handles (prepared s).scheduled (at_time s now log)))

  alive_at :
      (s u : Loop W p) (h : LoopHandle W) (now : ℕ) (log : List Entry)
      → Popped (due (at_time s now log)) h u
      → handle_is_dead u h ≡ false
  unfolding compact_ready handle_is_dead
  alive_at s u h now log (popped index scheduler tape log' causes e) =
      revived (All-get_elem? (λ g. alive s g ≡ true) _ index (ready_alive s now log) e)

  -- What is chosen is alive.
  pub Chosen_alive :
      (s t u : Loop W p) (h : LoopHandle W)
      → Waited (prepared s) false t
      → Popped (due t) h u
      → handle_is_dead u h ≡ false
  unfolding compact_ready
  Chosen_alive s t u h (was_ready r) o = alive_at s u h s.now s.log o
  Chosen_alive s t u h (jumped now log r q f on tg k' j) o = alive_at s u h now log o

  ready_from :
      (P : LoopHandle W → Type 0) (s : Loop W p) (now : ℕ) (log : List Entry)
      → All P s.ready
      → All (λ t. t.when ≤ now → P t.handle) s.scheduled
      → All P (due (at_time s now log)).ready
  unfolding compact_ready
  ready_from P s now log a b = All-append P (prepared s).ready _ (All-keep P (alive s) s.ready a) (
      All-keep P (alive (at_time s now log)) _
        (All-due_part P now _ (drop_cancelled-All _ s.cancelled s.scheduled b)))

  at_time-Timely :
      (P : LoopHandle W → Type 0) (s u : Loop W p) (h : LoopHandle W) (now : ℕ) (log : List Entry)
      → IsSorted s.scheduled
      → s.now ≤ now
      → (now ≡ s.now) ⊎ (first_time (drop_cancelled s.cancelled s.scheduled) ≡ some now)
      → Popped (due (at_time s now log)) h u
      → Timely P s h u
  unfolding compact_ready handle_is_dead
  at_time-Timely P s u h now log sorted f on (popped index scheduler tape log' causes e) = record {
    forward = f;
    on_time = on;
    is_alive = revived (All-get_elem? (λ g. alive s g ≡ true) _ index (ready_alive s now log) e);
    none_late = later_part_later now _ (drop_cancelled-IsSorted s.cancelled s.scheduled sorted);
    not_early = λ a b. All-get_elem? P _ index (ready_from P s now log a b) e;
  }

  Popped-Timely :
      (P : LoopHandle W → Type 0) (s t u : Loop W p) (h : LoopHandle W)
      → IsSorted s.scheduled
      → Waited (prepared s) false t
      → Popped (due t) h u
      → Timely P s h u
  unfolding compact_ready
  Popped-Timely P s t u h sorted (was_ready r) o =
      at_time-Timely P s u h s.now s.log sorted (omega arith) (inl refl) o
  Popped-Timely P s t u h sorted (jumped now log r q f on tg k' j) o =
      at_time-Timely P s u h now log sorted f on o

  Waited-now : {b : Bool} (s t : Loop W p) → Waited (prepared s) b t → s.now ≤ t.now
  unfolding compact_ready
  Waited-now s t (was_ready r) = omega arith
  Waited-now s t (jumped now log r q f on tg k' j) = f
  Waited-now s t (checked d ms f g tg r k' o') = f

  Chosen-RanTimely :
      (P : LoopHandle W → Type 0) (s : Loop W p)
      → IsSorted s.scheduled
      → (c : Option (LoopHandle W)) (t : Loop W p) → Chosen s c t
      → RanTimely P s c t
  Chosen-RanTimely P s sorted c u (over w) = Waited-now s u w
  Chosen-RanTimely P s sorted c u (nothing_due {t = t} w) = Waited-now s t w
  Chosen-RanTimely P s sorted c u (chose {t = t} {h = h} w o) = Popped-Timely P s t u h sorted w o

  pub Failed-now : (s : Loop W p) (e : LoopError) (t : Loop W p) → Failed s e t → s.now ≤ t.now
  unfolding compact_ready settle report_deadlock emit emit_at
  Failed-now s e u (refused (quiescent r q)) = omega arith
  Failed-now s e u (refused (unmet d v ms f g)) = f
  Failed-now s e u (no_pick {t = t} w (missed scheduler tape n)) = Waited-now s t w

  -- If the timers are in order, then a turn does not move the clock back, also when it picks
  -- nothing or raises before a callback; and when it picks a handle, the clock stayed or moved to
  -- the first timer that is not cancelled, the handle is neither cancelled nor owned by a crashed
  -- task, all timers that are left are later than the clock, and the handle was ready or its
  -- timer is due: whatever holds of these handles holds of it.
  pub choose_next-RanTimely :
      (P : LoopHandle W → Type 0) (s : Loop W p)
      → IsSorted s.scheduled
      → After (RanTimely P s) (λ e t. s.now ≤ t.now) (choose_next s)
  choose_next-RanTimely P s sorted =
      weaken-After (Chosen s) (RanTimely P s) (Failed s) (λ e t. s.now ≤ t.now) (choose_next s)
        (choose_next-Chosen s) (Chosen-RanTimely P s sorted) (Failed-now s)
