-- ===== src/Loop/Passing.antt =====
-- The end of a turn of src/simloom/_loop.py, its callback, with monitors that pass and without monitors.
use simloom.Prelude.{
  ◌==◌, ℕ, suc, Bool, true, false, not, ◌&&◌, Option, none, some, List, [], ◌∷◌, ◌≡◌, refl, sym, ap,
  ◌∙◌, subst, ltb, Result, ok, err, and_then, if◌then◌else◌, After,
}
use simloom.Tape.{Prng}
use simloom.Monitors.{InvariantViolation, MonitorSet, after_step}
use simloom.Loop.{
  is_cancelled, livelock, LoopError, LoopHandle, Timer, Loop, emit, emit_at, clock_jumped,
}
use simloom.Loop.Requests.{run_body}
use simloom.Loop.Waiting.{drop_cancelled, await_event, jump, no_monitors, settle, check_step}
use simloom.Loop.Step.{
  begin_step, detect_livelock, collect_garbage, run_callback, run_handle, run_chosen,
}
use simloom.Loop.Effects.{Frame, Effect-frame, followed}
use simloom.Loop.Ran.{collects}
use simloom.Loop.Performed.{run_body-Effect}
use simloom.Loop.Waited.{Waited, was_ready, jumped}
use simloom.Loop.Erased.{erase, erased}
use simloom.Loop.Unmonitored.{
  if_erase, detect_livelock-Commutes, callback-erase, await_event-erase, await_event_ready,
}

module _ {W : Type 0} where
  pub drop_cancelled_twice :
      (c : List ℕ) (ts : List (Timer W))
      → drop_cancelled c (drop_cancelled c ts) ≡ drop_cancelled c ts
  unfolding drop_cancelled
  drop_cancelled_twice c [] = refl
  drop_cancelled_twice c (t ∷ ts) =
      on_test (is_cancelled c t.handle) refl (drop_cancelled_twice c ts)
    where
      on_test :
          (b : Bool)
          → is_cancelled c t.handle ≡ b
          → drop_cancelled c (drop_cancelled c ts) ≡ drop_cancelled c ts
          → drop_cancelled c (if b then drop_cancelled c ts else t ∷ ts)
            ≡ (if b then drop_cancelled c ts else t ∷ ts)
      on_test true e h = h
      on_test false e h = ap (λ b. if b then drop_cancelled c ts else t ∷ ts) e

module _ {W : Type 0} {p : Prng} where
  jump-erase : (target : ℕ) (s : Loop W p) → jump target (erase s) ≡ erase (jump target s)
  unfolding jump emit emit_at
  jump-erase target s =
      if_erase (ltb s.now target) (emit clock_jumped (record s { now = target })) s

  -- Both loops come to the same event.
  pub await_same : (q t : Loop W p) → Waited q false t → await_event (erase q) ≡ (ok false, erase t)
  await_same q t (was_ready r) = await_event_ready q r
  await_same q t (jumped now log r n f on target k j) =
      await_event-erase q target r k ∙ ap (λ x. (ok false, x)) (jump-erase target q ∙ ap erase j)

  -- The end of a callback, without monitors.
  unchecked :
      (v : Loop W p)
      → (if v.monitoring_enabled && not (no_monitors (erase v).monitors)
          then check_step (erase v)
          else (ok tt, erase v))
        ≡ (ok tt, erase v)
  unfolding no_monitors
  unchecked v = on_enabled v.monitoring_enabled
    where
      on_enabled :
          (b : Bool)
          → (if b && false then check_step (erase v) else (ok tt, erase v)) ≡ (ok tt, erase v)
      on_enabled true = refl
      on_enabled false = refl

  callback_alone :
      (h : LoopHandle W) (s : Loop W p)
      → run_callback h (erase s) ≡ (ok tt, erase (run_body h.body (collect_garbage s)))
  unfolding run_callback
  callback_alone h s =
      ap
        (λ (v : Loop W p).
          if v.monitoring_enabled && not (no_monitors v.monitors) then check_step v else (ok tt, v))
        (callback-erase h s)
      ∙ unchecked (run_body h.body (collect_garbage s))

  stays_quiet :
      (h : LoopHandle W) (s : Loop W p)
      → s.evaluating_monitors ≡ false
      → (run_body h.body (collect_garbage s)).evaluating_monitors ≡ false
  stays_quiet h s quiet =
      ap Frame.evaluating_monitors
        (Effect-frame (followed (collects s) (run_body-Effect h.body (collect_garbage s))))
      ∙ quiet

  -- Beside the run without monitors: it agrees, and no monitor is being evaluated.
  abbrev pub Unseen : Result LoopError (Unit {0}) × Loop W p → Loop W p → Type 0
  Unseen alone v = (alone ≡ (ok tt, erase v)) × (v.evaluating_monitors ≡ false)

  settle-Unseen :
      (alone : Result LoopError (Unit {0}) × Loop W p) (t : Loop W p)
      (r : Option InvariantViolation × MonitorSet W)
      → t.evaluating_monitors ≡ false
      → alone ≡ (ok tt, erase t)
      → After (λ u v. Unseen alone v) (λ e v. Unit {0}) (settle r t)
  unfolding settle
  settle-Unseen alone t (none, ms) q h =
      (h ∙ (λ i. (ok tt, record (erase t) { evaluating_monitors = q i })), refl)
  settle-Unseen alone t (some v, ms) q h = tt

  -- A callback whose monitors pass.
  run_callback-Unseen :
      (h : LoopHandle W) (s : Loop W p)
      → s.evaluating_monitors ≡ false
      → After (λ u v. Unseen (run_callback h (erase s)) v) (λ e v. Unit {0}) (run_callback h s)
  unfolding run_callback check_step
  run_callback-Unseen h s quiet = on_test (t.monitoring_enabled && not (no_monitors t.monitors))
    where
      t : Loop W p
      t = run_body h.body (collect_garbage s)

      on_test :
          (b : Bool)
          → After
              (λ u v. Unseen (run_callback h (erase s)) v)
              (λ e v. Unit {0})
              (if b then check_step t else (ok tt, t))
      on_test true =
          settle-Unseen (run_callback h (erase s)) t (after_step t.now t.world t.monitors)
            (stays_quiet h s quiet) (callback_alone h s)
      on_test false = (callback_alone h s, stays_quiet h s quiet)

  livelock-Unseen :
      (h : LoopHandle W) (s : Loop W p) (r : Result LoopError (Unit {0}) × Loop W p)
      → r.1.evaluating_monitors ≡ false
      → After
          (λ u v. Unseen (let (x, t) = erased r in and_then x (λ u. run_callback h) t) v)
          (λ e v. Unit {0})
          (let (x, t) = r in and_then x (λ u. run_callback h) t)
  livelock-Unseen h s (ok u, t) q = run_callback-Unseen h t q
  livelock-Unseen h s (err e, t) q = tt

  abbrev is_evaluating : Result LoopError (Unit {0}) × Loop W p → Bool
  is_evaluating r = r.1.evaluating_monitors

  detected_quiet :
      (s : Loop W p) → (detect_livelock s).1.evaluating_monitors ≡ s.evaluating_monitors
  unfolding detect_livelock
  detected_quiet s = on_test (ltb s.max_steps_per_instant steps)
    where
      steps : ℕ
      steps = if s.now == s.instant_time then suc s.instant_steps else 1

      t : Loop W p
      t = record s { instant_time = s.now; instant_steps = steps }

      on_test :
          (b : Bool)
          → is_evaluating (if b then (err (livelock steps), t) else (ok tt, t))
            ≡ s.evaluating_monitors
      on_test true = refl
      on_test false = refl

  run_handle-Unseen :
      (h : LoopHandle W) (s : Loop W p)
      → s.evaluating_monitors ≡ false
      → After (λ u v. Unseen (run_handle h (erase s)) v) (λ e v. Unit {0}) (run_handle h s)
  unfolding run_handle begin_step
  run_handle-Unseen h s quiet =
      subst
        (λ x.
          After (λ u v. Unseen (and_then x.0 (λ u. run_callback h) x.1) v) (λ e v. Unit {0})
            (run_handle h s))
        (sym (detect_livelock-Commutes (begin_step s)))
        (livelock-Unseen h (begin_step s) (detect_livelock (begin_step s))
          (detected_quiet (begin_step s) ∙ quiet))

  run_chosen-Unseen :
      (c : Option (LoopHandle W)) (s : Loop W p)
      → s.evaluating_monitors ≡ false
      → After (λ u v. Unseen (run_chosen c (erase s)) v) (λ e v. Unit {0}) (run_chosen c s)
  unfolding run_chosen
  run_chosen-Unseen none s quiet = (refl, quiet)
  run_chosen-Unseen (some h) s quiet = run_handle-Unseen h s quiet

  pub picked-Unseen :
      (r : Result LoopError (Option (LoopHandle W)) × Loop W p)
      → After (λ c v. v.evaluating_monitors ≡ false) (λ e v. Unit {0}) r
      → After
          (λ u v. Unseen (let (x, t) = erased r in and_then x run_chosen t) v)
          (λ e v. Unit {0})
          (let (x, t) = r in and_then x run_chosen t)
  picked-Unseen (ok c, t) q = run_chosen-Unseen c t q
  picked-Unseen (err e, t) q = tt
