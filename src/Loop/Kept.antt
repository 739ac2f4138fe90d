-- ===== src/Loop/Kept.antt =====
-- No wakeup is lost: what a turn does not run stays with the loop, unless it was cancelled.
use simloom.Prelude.{
  ℕ, zero, suc, ◌≡◌, refl, sym, ◌∙◌, List, [], ◌∷◌, ◌++◌, All, arith, not, ◌&&◌, ◌||◌, Bool, true,
  false, Option, none, some, After, weaken-After, keep, map, leb, get_elem?, remove_at,
  if◌then◌else◌,
}
use simloom.Tape.{Prng}
use simloom.Loop.{
  LoopError, LoopHandle, Timer, Loop, emit, emit_at, is_cancelled, is_crashed_owned, handle_is_dead,
}
use simloom.Loop.Waiting.{drop_cancelled, compact_ready, settle, report_deadlock}
use simloom.Loop.Step.{choose_next}
use simloom.Loop.Timers.{due_part, later_part}
use simloom.Loop.Due.{alive, parks, due_handles}
use simloom.Loop.Waited.{Waited, was_ready, jumped, checked, quiescent, unmet}
use simloom.Loop.Chosen.{
  Popped, popped, Missed, missed, prepared, due, Chosen, over, nothing_due, chose, Failed, refused,
  no_pick, choose_next-Chosen,
}

module _ {A : Type 0} where
  All-front : (P : A → Type 0) (xs ys : List A) → All P (xs ++ ys) → All P xs
  All-front P [] ys h = tt
  All-front P (x ∷ xs) ys h = (h.0, All-front P xs ys h.1)

  All-back : (P : A → Type 0) (xs ys : List A) → All P (xs ++ ys) → All P ys
  All-back P [] ys h = h
  All-back P (x ∷ xs) ys h = All-back P xs ys h.1

  All-remove_at :
      (P : A → Type 0) (i : ℕ) (xs : List A) (y : A)
      → get_elem? xs i ≡ some y
      → P y
      → All P (remove_at i xs)
      → All P xs
  All-remove_at P i [] y e h hs = tt
  All-remove_at P zero (x ∷ xs) y e h hs = (ground (arith, e, h), hs)
  All-remove_at P (suc i) (x ∷ xs) y e h hs = (hs.0, All-remove_at P i xs y e h hs.1)

module _ {W : Type 0} (Q : LoopHandle W → Type 0) where
  -- Of a handle that is not cancelled.
  abbrev Live : List ℕ → LoopHandle W → Type 0
  Live c h = is_cancelled c h ≡ false → Q h

  drop_cancelled-Live :
      (c : List ℕ) (ts : List (Timer W))
      → All (λ t. Live c t.handle) (drop_cancelled c ts)
      → All (λ t. Live c t.handle) ts
  unfolding drop_cancelled
  drop_cancelled-Live c [] h = tt
  drop_cancelled-Live c (t ∷ ts) h =
      on_test (is_cancelled c t.handle) refl (drop_cancelled-Live c ts) h
    where
      opposite : true ≡ false → Q t.handle
      opposite e = cc

      on_test :
          (b : Bool)
          → is_cancelled c t.handle ≡ b
          → (All (λ t. is_cancelled c (Timer.handle t) ≡ false → Q t.handle) (drop_cancelled c ts)
              → All (λ t. is_cancelled c (Timer.handle t) ≡ false → Q t.handle) ts)
          → All
              (λ t. is_cancelled c (Timer.handle t) ≡ false → Q t.handle)
              (let rest = drop_cancelled c ts in if b then rest else t ∷ ts)
          → All (λ t. is_cancelled c (Timer.handle t) ≡ false → Q t.handle) (t ∷ ts)
      on_test true e ih h = ((λ q. opposite (sym e ∙ q)), ih h)
      on_test false e ih h = h

  All-Live :
      (c : List ℕ) (ts : List (Timer W)) → All (λ t. Q t.handle) ts → All (λ t. Live c t.handle) ts
  All-Live c [] h = tt
  All-Live c (t ∷ ts) h = (λ e. h.0, All-Live c ts h.1)

  due_or_later :
      (c : List ℕ) (now : ℕ) (ts : List (Timer W))
      → All (Live c) (map (λ t. t.handle) (due_part now ts))
      → All (λ t. Q t.handle) (later_part now ts)
      → All (λ t. Live c t.handle) ts
  due_or_later c now [] h k = tt
  due_or_later c now (t ∷ ts) h k = on_test (leb t.when now) h k (due_or_later c now ts)
    where
      on_test :
          (b : Bool)
          → All
              (λ g. is_cancelled c g ≡ false → Q g)
              (map (λ t. Timer.handle t) (let rest = due_part now ts in if b then t ∷ rest else []))
          → All
              (λ t. Q (Timer.handle t))
              (let rest = later_part now ts in if b then rest else t ∷ ts)
          → (All (λ g. is_cancelled c g ≡ false → Q g) (map (λ t. Timer.handle t) (due_part now ts))
              → All (λ t. Q (Timer.handle t)) (later_part now ts)
              → All (λ t. is_cancelled c (Timer.handle t) ≡ false → Q (Timer.handle t)) ts)
          → All (λ t. is_cancelled c (Timer.handle t) ≡ false → Q (Timer.handle t)) (t ∷ ts)
      on_test true h k ih = (h.0, ih h.1 k)
      on_test false h k ih = All-Live c (t ∷ ts) k

  abbrev pub HoldsOf : Option (LoopHandle W) → Type 0
  HoldsOf none = Unit
  HoldsOf (some h) = Q h

module _ {W : Type 0} {p : Prng} (Q : LoopHandle W → Type 0) where
  keep-Live :
      (s : Loop W p) (hs : List (LoopHandle W))
      → All Q (keep (alive s) hs)
      → All Q (keep (parks s) hs)
      → All (Live Q s.cancelled) hs
  unfolding handle_is_dead
  keep-Live s [] h k = tt
  keep-Live s (x ∷ hs) h k =
      on_tests (is_cancelled s.cancelled x) (is_crashed_owned s.crashed_tasks x) refl h k
        (keep-Live s hs)
    where
      opposite : true ≡ false → Q x
      opposite e = cc

      on_tests :
          (a b : Bool)
          → is_cancelled s.cancelled x ≡ a
          → All Q (if not (a || b) then x ∷ keep (alive s) hs else keep (alive s) hs)
          → All Q (if not a && b then x ∷ keep (parks s) hs else keep (parks s) hs)
          → (All Q (keep (alive s) hs) → All Q (keep (parks s) hs) → All (Live Q s.cancelled) hs)
          → All (Live Q s.cancelled) (x ∷ hs)
      on_tests true b e h k ih = (λ q. opposite (sym e ∙ q), ih h k)
      on_tests false true e h k ih = (λ q. k.0, ih h k.1)
      on_tests false false e h k ih = (λ q. h.0, ih h.1 k)

  -- The predicate holds of all that is queued or parked.
  abbrev pub Held : Loop W p → Type 0
  Held s = All Q s.ready × (All (λ t. Q (Timer.handle t)) s.scheduled × All Q s.parked)

  -- It holds of what is not cancelled.
  abbrev pub Awaited : Loop W p → Type 0
  Awaited s =
      All (λ h. is_cancelled s.cancelled h ≡ false → Q h) s.ready
      × (All (λ t. is_cancelled s.cancelled (Timer.handle t) ≡ false → Q (Timer.handle t))
            s.scheduled
          × All Q s.parked)

  -- The same, with the ready handles looked through already.
  abbrev Halfway : Loop W p → Type 0
  Halfway s =
      All Q s.ready
      × (All (λ t. is_cancelled s.cancelled (Timer.handle t) ≡ false → Q (Timer.handle t))
            s.scheduled
          × All Q s.parked)

  before_pop : (h : LoopHandle W) (s t : Loop W p) → Popped s h t → Q h → Held t → Held s
  before_pop h s t (popped index scheduler tape log causes e) q k =
      (All-remove_at Q index s.ready h e q k.0, k.1)

  before_due : (t : Loop W p) → Held (due t) → Halfway t
  before_due t k = (All-front Q t.ready _ k.0, (live, All-front Q t.parked _ k.1.1))
    where
      live :
          All
            (λ u. is_cancelled t.cancelled (Timer.handle u) ≡ false → Q (Timer.handle u))
            t.scheduled
      live =
          due_or_later Q t.cancelled t.now t.scheduled
            (keep-Live t (due_handles t.scheduled t) (All-back Q t.ready _ k.0)
              (All-back Q t.parked _ k.1.1))
            k.1.0

  before_all : (s : Loop W p) → Halfway (prepared s) → Awaited s
  unfolding compact_ready
  before_all s k = (
    keep-Live s s.ready k.0 (All-back Q s.parked _ k.1.1),
    (drop_cancelled-Live Q s.cancelled s.scheduled k.1.0, All-front Q s.parked _ k.1.1),
  )

  before_wait : {b : Bool} (s t : Loop W p) → Waited s b t → Halfway t → Halfway s
  before_wait s t (was_ready r) k = k
  before_wait s t (jumped now log r q f on tg k' j) k = k
  before_wait s t (checked d ms f g tg r k' o') k = k

  unchecked : (s : Loop W p) → Held s → Halfway s
  unchecked s k = (k.0, (All-Live Q s.cancelled s.scheduled k.1.0, k.1.1))

  before_miss : {e : LoopError} (s t : Loop W p) → Missed s e t → Held t → Held s
  before_miss s t (missed scheduler tape n) k = k

  Chosen_kept :
      (s : Loop W p) (c : Option (LoopHandle W)) (t : Loop W p)
      → Chosen s c t
      → HoldsOf Q c
      → Held t
      → Awaited s
  Chosen_kept s c u (over w) q k = before_all s (before_wait (prepared s) u w (unchecked u k))
  Chosen_kept s c u (nothing_due {t = t} w) q k =
      before_all s (before_wait (prepared s) t w (before_due t k))
  Chosen_kept s c u (chose {t = t} {h = h} w o) q k =
      before_all s (before_wait (prepared s) t w (before_due t (before_pop h (due t) u o q k)))

  Failed_kept : (s : Loop W p) (e : LoopError) (t : Loop W p) → Failed s e t → Held t → Awaited s
  unfolding settle report_deadlock emit emit_at
  Failed_kept s e u (refused (quiescent r q)) k = before_all s (unchecked (prepared s) k)
  Failed_kept s e u (refused (unmet d v ms f g)) k = before_all s (unchecked (prepared s) k)
  Failed_kept s e u (no_pick {t = t} w m) k =
      before_all s (before_wait (prepared s) t w (before_due t (before_miss (due t) u m k)))

  -- No wakeup is lost by a turn: whatever holds of the handle that it picks, and of all handles
  -- that are ready, scheduled or parked behind it, held before of all ready and scheduled handles
  -- that are not cancelled and of all parked ones; also when the turn picks nothing or raises
  -- before a callback.
  pub choose_next_keeps :
      (s : Loop W p)
      → After (λ c t. HoldsOf Q c → Held t → Awaited s) (λ e t. Held t → Awaited s) (choose_next s)
  choose_next_keeps s =
      weaken-After (Chosen s) (λ c t. HoldsOf Q c → Held t → Awaited s) (Failed s)
        (λ e t. Held t → Awaited s) (choose_next s) (choose_next-Chosen s) (Chosen_kept s)
        (Failed_kept s)
