-- ===== src/Loop/Waited.antt =====
-- What a turn of the loop does before its callback, outcome by outcome.
use simloom.Prelude.{
  ◌<◌, and_then, pure, ℕ, ◌≤◌, Bool, true, false, not, ◌&&◌, Option, none, some, List, [], ◌∷◌,
  ◌++◌, ltb, leb, arith, if◌then◌else◌, ◌≡◌, ◌≢◌, refl, sym, ap, ◌∙◌, append-nil, keep, any,
  Bool-cases, inl, inr, ◌⊎◌, ok, err, After,
}
use simloom.Tape.{Prng}
use simloom.Monitors.{InvariantViolation, MonitorSet, fire_due}
use simloom.Loop.{
  clock_jumped, Entry, LoopError, clock_jumped, violated, LoopHandle, Timer, Loop, Entry,
  is_cancelled, is_crashed_owned, handle_is_dead, emit, emit_at,
}
use simloom.Loop.Waiting.{
  compact_ready, compact, settle, check_due, watched_deadline, jump, wait_until, await_event,
  report_deadlock,
}

none-some : {n : ℕ} → none ≡ some n → ⊥
none-some q = cc

module _ {A : Type 0} where
  -- Nothing to drop, nothing dropped.
  any-keep : (q : A → Bool) (xs : List A) → any q xs ≡ false → keep (λ x. not (q x)) xs ≡ xs
  any-keep q [] h = refl
  any-keep q (x ∷ xs) h = elim (Bool-cases (q x)) [
    | inl e ↦ ground arith
    | inr e ↦ rw e (ap (λ ys. x ∷ ys) (any-keep q xs (ground arith)))
  ]

  any-keep_none :
      (q r : A → Bool) (xs : List A)
      → ((x : A) → q x ≡ false → r x ≡ false)
      → any q xs ≡ false
      → keep r xs ≡ []
  any-keep_none q r [] k h = refl
  any-keep_none q r (x ∷ xs) k h = elim (Bool-cases (q x)) [
    | inl e ↦ ground arith
    | inr e ↦ rw (k x e) (any-keep_none q r xs k (ground arith))
  ]

module _ {W : Type 0} where
  abbrev pub first_time : List (Timer W) → Option ℕ
  first_time [] = none
  first_time (t ∷ ts) = some t.when

module _ {W : Type 0} {p : Prng} where
  pub compact_lem : (s : Loop W p) → compact s ≡ compact_ready s
  unfolding compact compact_ready handle_is_dead
  compact_lem s = on_test (any (handle_is_dead s) s.ready) refl
    where
      on_test :
          (b : Bool)
          → any (handle_is_dead s) s.ready ≡ b
          → (if b then compact_ready s else s) ≡ compact_ready s
      on_test true e = refl
      on_test false e = λ i. record s {
        ready = sym (any-keep (handle_is_dead s) s.ready e) i;
        parked =
            (sym (append-nil s.parked)
                ∙ ap (λ hs. s.parked ++ hs)
                    (sym (
                      any-keep_none (handle_is_dead s)
                        (λ h.
                          not (is_cancelled s.cancelled h) && is_crashed_owned s.crashed_tasks h)
                        s.ready (λ h d. ground arith) e)))
              i;
      }

  -- The ways in which the wait of a turn ends.
  pub data Waited (s : Loop W p) : Bool → Loop W p → Type 0 where
    was_ready : s.ready ≢ [] → Waited s false s
    jumped :
        (now : ℕ) (log : List Entry)
        → s.ready ≡ []
        → s.scheduled ≢ []
        → s.now ≤ now
        → (now ≡ s.now) ⊎ (first_time s.scheduled ≡ some now)
        → (target : ℕ) → first_time s.scheduled ≡ some target
        → jump target s ≡ record s { now = now; log = log }
        → Waited s false (record s { now = now; log = log })
    checked :
        (deadline : ℕ) (ms : MonitorSet W)
        → s.now ≤ deadline
        → s.scheduled ≢ []
        → (target : ℕ) → s.ready ≡ []
        → first_time s.scheduled ≡ some target
        → (deadline ≡ s.now) ⊎ (deadline < target)
        → Waited s true (record s { now = deadline; monitors = ms; evaluating_monitors = false })

  -- It raises a deadlock when nothing is ready and nothing scheduled, or a violation.
  pub data Refused (s : Loop W p) : LoopError → Loop W p → Type 0 where
    quiescent :
        s.ready ≡ [] → s.scheduled ≡ [] → Refused s (report_deadlock s).0 (report_deadlock s).1
    unmet :
        (deadline : ℕ) (v : InvariantViolation) (ms : MonitorSet W)
        → s.now ≤ deadline
        → s.scheduled ≢ []
        → Refused s (violated v) (settle (some v, ms) (record s { now = deadline })).1

  some_timer : {target : ℕ} (s : Loop W p) → first_time s.scheduled ≡ some target → s.scheduled ≢ []
  some_timer s t e = none-some (sym (ap first_time e) ∙ t)

  settled-Waited :
      (s : Loop W p) (d target : ℕ) (r : Option InvariantViolation × MonitorSet W)
      → s.now ≤ d
      → s.ready ≡ []
      → first_time s.scheduled ≡ some target
      → (d ≡ s.now) ⊎ (d < target)
      → After
          (Waited s)
          (Refused s)
          (let (x, t) = settle r (record s { now = d }) in and_then x (λ u. pure true) t)
  unfolding settle
  settled-Waited s d target (none, ms) h e f o = checked d ms h (some_timer s f) target e f o
  settled-Waited s d target (some v, ms) h e f o = unmet d v ms h (some_timer s f)

  pub jump_taken :
      (target : ℕ) (s : Loop W p)
      → ltb s.now target ≡ true
      → jump target s ≡ emit clock_jumped (record s { now = target })
  unfolding jump
  jump_taken target s e = ap (λ b. if b then emit clock_jumped (record s { now = target }) else s) e

  pub jump_stayed : (target : ℕ) (s : Loop W p) → ltb s.now target ≡ false → jump target s ≡ s
  unfolding jump
  jump_stayed target s e =
      ap (λ b. if b then emit clock_jumped (record s { now = target }) else s) e

  jump-Waited :
      (target : ℕ) (s : Loop W p)
      → s.ready ≡ []
      → first_time s.scheduled ≡ some target
      → Waited s false (jump target s)
  unfolding jump emit emit_at
  jump-Waited target s h t = on_test (ltb s.now target) refl
    where
      on_test :
          (b : Bool)
          → ltb s.now target ≡ b
          → Waited s false (if b then emit clock_jumped (record s { now = target }) else s)
      on_test true e =
          jumped target _ h (some_timer s t) (ground arith) (inr t) target t (jump_taken target s e)
      on_test false e =
          jumped s.now s.log h (some_timer s t) (omega arith) (inl refl) target t
            (jump_stayed target s e)

  wait_until-Waited :
      (target : ℕ) (deadline : Option ℕ) (s : Loop W p)
      → s.ready ≡ []
      → first_time s.scheduled ≡ some target
      → After (Waited s) (Refused s) (wait_until target deadline s)
  unfolding wait_until check_due
  wait_until-Waited target none s h t = jump-Waited target s h t
  wait_until-Waited target (some d) s h t = elim (Bool-cases (leb d s.now)) [
    | inl e ↦ rw e (
        settled-Waited s s.now target (fire_due s.now s.world s.monitors) (omega arith) h t
          (inl refl))
    | inr e ↦ elim (Bool-cases (ltb d target)) [
      | inl f ↦
          rw (e, f)
            (settled-Waited s d target (fire_due d s.world s.monitors) (ground arith) h t
              (inr (ground arith)))
      | inr f ↦ rw (e, f) (jump-Waited target s h t)
    ]
  ]

  pub await_event-Waited : (s : Loop W p) → After (Waited s) (Refused s) (await_event s)
  unfolding await_event
  await_event-Waited s = on_lists s.ready s.scheduled refl refl
    where
      on_lists :
          (hs : List (LoopHandle W)) (ts : List (Timer W))
          → s.ready ≡ hs
          → s.scheduled ≡ ts
          → After (Waited s) (Refused s) (elim hs [
            | h ∷ l ↦ (ok false, s)
            | [] ↦ elim ts [
              | [] ↦ (err (report_deadlock s).0, (report_deadlock s).1)
              | t ∷ l ↦ wait_until t.when (watched_deadline s) s
            ]
          ])
      on_lists (h ∷ l) ts e f = was_ready (λ g. cc)
      on_lists [] [] e f = quiescent e f
      on_lists [] (t ∷ l) e f = wait_until-Waited t.when (watched_deadline s) s e (ap first_time f)
