-- ===== src/Loop/Ran.antt =====
-- What a turn of the loop does to its clock and its counters.
use simloom.Prelude.{
  ℕ, suc, ◌≤◌, Bool, true, false, not, ◌&&◌, Option, none, some, ◌≡◌, refl, ap, ◌∙◌, inl, inr,
  arith, ltb, ◌==◌, Bool-cases, After, ok, bind-After, weaken-After, if◌then◌else◌,
}
use Prim.Native.Nat.{◌%◌}
use simloom.Tape.{Prng}
use simloom.Monitors.{InvariantViolation, MonitorSet, after_step}
use simloom.Loop.{LoopHandle, Loop, emit, emit_at, garbage_collected}
use simloom.Loop.Waiting.{settle, check_step, no_monitors}
use simloom.Loop.Requests.{run_body}
use simloom.Loop.Step.{begin_step, detect_livelock, collect_garbage, run_callback, run_handle}
use simloom.Loop.Effects.{Frame, Effect-frame, Effect, followed, emits, stays}
use simloom.Loop.Performed.{run_body-Effect}
use simloom.Loop.Chosen.{is_deadlock}

-- The steps at one time, with one more at a time.
abbrev pub counted : ℕ → ℕ → ℕ → ℕ
counted now instant_time instant_steps = if now == instant_time then suc instant_steps else 1

pub record Clock : Type 0 where
  pub now : ℕ
  pub step_seq : ℕ
  pub instant_time : ℕ
  pub instant_steps : ℕ
  pub max_steps_per_instant : ℕ

-- The clock behind a step that was counted.
abbrev pub tick : Clock → Clock
tick c = record {
  now = c.now;
  step_seq = suc c.step_seq;
  instant_time = c.now;
  instant_steps = counted c.now c.instant_time c.instant_steps;
  max_steps_per_instant = c.max_steps_per_instant;
}

module _ {W : Type 0} where
  of_frame : Frame W → Clock
  of_frame f = record {
    now = f.now;
    step_seq = f.step_seq;
    instant_time = f.instant_time;
    instant_steps = f.instant_steps;
    max_steps_per_instant = f.max_steps_per_instant;
  }

module _ {W : Type 0} {p : Prng} where
  abbrev pub clock : Loop W p → Clock
  clock s = record {
    now = s.now;
    step_seq = s.step_seq;
    instant_time = s.instant_time;
    instant_steps = s.instant_steps;
    max_steps_per_instant = s.max_steps_per_instant;
  }

  pub collects : (s : Loop W p) → Effect s (collect_garbage s)
  unfolding collect_garbage
  collects s = on_test (not (s.gc_interval == 0) && (s.step_seq % s.gc_interval == 0))
    where
      on_test : (b : Bool) → Effect s (if b then emit garbage_collected s else s)
      on_test true = emits _ s
      on_test false = stays s

  settled :
      (s : Loop W p) (r : Option InvariantViolation × MonitorSet W)
      → After
          (λ u t. clock t ≡ clock s)
          (λ e t. (t.now ≡ s.now) × (is_deadlock e ≡ false))
          (settle r s)
  unfolding settle emit_at
  settled s (none, ms) = refl
  settled s (some v, ms) = (refl, refl)

  body-clock :
      (h : LoopHandle W) (s : Loop W p) → clock (run_body h.body (collect_garbage s)) ≡ clock s
  unfolding of_frame
  body-clock h s =
      ap of_frame
        (Effect-frame (followed (collects s) (run_body-Effect h.body (collect_garbage s))))

  callback-clock :
      (h : LoopHandle W) (s : Loop W p)
      → After
          (λ u t. clock t ≡ clock s)
          (λ e t. (t.now ≡ s.now) × (is_deadlock e ≡ false))
          (run_callback h s)
  unfolding run_callback check_step
  callback-clock h s = on_test (t.monitoring_enabled && not (no_monitors t.monitors))
    where
      t : Loop W p
      t = run_body h.body (collect_garbage s)

      on_test :
          (b : Bool)
          → After
              (λ u v. clock v ≡ clock s)
              (λ e v. (v.now ≡ s.now) × (is_deadlock e ≡ false))
              (if b then check_step t else (ok tt, t))
      on_test true =
          weaken-After (λ u v. clock v ≡ clock t) (λ u v. clock v ≡ clock s)
            (λ e v. (v.now ≡ t.now) × (is_deadlock e ≡ false))
            (λ e v. (v.now ≡ s.now) × (is_deadlock e ≡ false)) (check_step t)
            (settled t (after_step t.now t.world t.monitors)) (λ u v q. q ∙ body-clock h s)
            (λ e v q. (q.0 ∙ ap Clock.now (body-clock h s), q.1))
      on_test false = body-clock h s

  detected :
      (s : Loop W p)
      → After
          (λ u t.
            (clock t ≡ tick (clock s))
            × (counted s.now s.instant_time s.instant_steps ≤ s.max_steps_per_instant))
          (λ e t. (t.now ≡ s.now) × (is_deadlock e ≡ false))
          (detect_livelock (begin_step s))
  unfolding detect_livelock begin_step
  detected s =
      elim (Bool-cases
        (ltb s.max_steps_per_instant (counted s.now s.instant_time s.instant_steps))) [
          | inl e ↦ rw (e, After) (refl, refl)
          | inr e ↦ rw (e, After) (refl, ground arith)
        ]

  -- A callback that ran was counted, and within the limit.
  abbrev pub Ran : Loop W p → Loop W p → Type 0
  Ran s t =
      (clock t ≡ tick (clock s))
      × (counted s.now s.instant_time s.instant_steps ≤ s.max_steps_per_instant)

  pub run_handle-Ran :
      (h : LoopHandle W) (s : Loop W p)
      → After (λ u t. Ran s t) (λ e t. (t.now ≡ s.now) × (is_deadlock e ≡ false)) (run_handle h s)
  unfolding run_handle
  run_handle-Ran h s =
      bind-After (λ u t. Ran s t) (λ u t. Ran s t)
        (λ e t. (t.now ≡ s.now) × (is_deadlock e ≡ false)) detect_livelock (λ u. run_callback h)
        (begin_step s) (detected s)
        (λ u t q.
          weaken-After (λ u v. clock v ≡ clock t) (λ u v. Ran s v)
            (λ e v. (v.now ≡ t.now) × (is_deadlock e ≡ false))
            (λ e v. (v.now ≡ s.now) × (is_deadlock e ≡ false)) (run_callback h t)
            (callback-clock h t) (λ u v r. (r ∙ q.0, q.1)) (λ e v r. (r.0 ∙ ap Clock.now q.0, r.1)))
