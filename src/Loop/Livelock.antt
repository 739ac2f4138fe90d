-- ===== src/Loop/Livelock.antt =====
-- A run that spins at one time is stopped: the count of `_detect_livelock` over the turns of a run.
use simloom.Prelude.{
  ℕ, zero, suc, ◌+◌, ◌≤◌, Bool, true, false, Option, none, some, ◌≡◌, refl, sym, ap, ◌∙◌, subst,
  arith, ◌==◌, After, ok, bind-After, ◌>>◌, weaken-After, if◌then◌else◌,
}
use simloom.Tape.{Prng}
use simloom.Loop.{LoopHandle, Loop}
use simloom.Loop.Waiting.{compact_ready}
use simloom.Loop.Step.{choose_next, run_chosen, run_handle, run_once}
use simloom.Loop.Teardown.{turns}
use simloom.Loop.Waited.{was_ready, jumped, checked}
use simloom.Loop.Timely.{Failed-now}
use simloom.Loop.Chosen.{
  is_deadlock, popped, Chosen, over, nothing_due, chose, Failed, choose_next-Chosen,
}
use simloom.Loop.Ran.{Clock, clock, counted, tick, Ran, run_handle-Ran}

-- The steps that count at a time.
abbrev pub spent : ℕ → Clock → ℕ
spent now c = if now == c.instant_time then c.instant_steps else 0

-- The clock goes forward. At one time each step is counted, and the count keeps within the limit.
pub record Advance (c d : Clock) : Type 0 where
  pub forward : c.now ≤ d.now
  pub same_limit : d.max_steps_per_instant ≡ c.max_steps_per_instant
  pub all_counted : d.now ≡ c.now → d.step_seq + spent c.now c ≡ c.step_seq + spent d.now d
  pub within : c.instant_steps ≤ c.max_steps_per_instant → d.instant_steps ≤ d.max_steps_per_instant

Advance-refl : (c : Clock) → Advance c c
Advance-refl c = record {
  forward = omega arith;
  same_limit = refl;
  all_counted = λ e. refl;
  within = λ h. h;
}

Advance-trans : {c d e : Clock} → Advance c d → Advance d e → Advance c e
Advance-trans {c = c} {d = d} {e = e} a b = record {
  forward = ground (arith, a.forward, b.forward);
  same_limit = b.same_limit ∙ a.same_limit;
  all_counted = λ q. joined (ground (arith, a.forward, b.forward, q)) q;
  within = λ h. b.within (a.within h);
}
  where
    joined : d.now ≡ c.now → e.now ≡ c.now → e.step_seq + spent c.now c ≡ c.step_seq + spent e.now e
    joined q r = omega (arith, a.all_counted q, b.all_counted (r ∙ sym q))

-- Before a callback only the time moves.
abbrev Idle : Clock → Clock → Type 0
Idle c d = (c.now ≤ d.now) × (d ≡ record c { now = d.now })

spent_at : (c : Clock) (n : ℕ) → n ≡ c.now → spent c.now c ≡ spent n (record c { now = n })
spent_at c n e = ap (λ m. if m == c.instant_time then c.instant_steps else 0) (sym e)

idle_at : (c : Clock) (n : ℕ) → c.now ≤ n → Advance c (record c { now = n })
idle_at c n h = record {
  forward = h;
  same_limit = refl;
  all_counted = λ e. ap (λ k. c.step_seq + k) (spent_at c n e);
  within = λ w. w;
}

ran_at :
    (c : Clock) (n : ℕ)
    → c.now ≤ n
    → counted n c.instant_time c.instant_steps ≤ c.max_steps_per_instant
    → Advance c (tick (record c { now = n }))
ran_at c n h r = record {
  forward = h;
  same_limit = refl;
  all_counted = λ e. ground (arith, e);
  within = λ w. r;
}

Idle-Advance : (c d : Clock) → Idle c d → Advance c d
Idle-Advance c d h = subst (λ x. Advance c x) (sym h.1) (idle_at c d.now h.0)

spent_within :
    (c : Clock)
    → c.instant_steps ≤ c.max_steps_per_instant
    → spent c.now c ≤ c.max_steps_per_instant
spent_within c h = ground (arith, h)

module _ {W : Type 0} {p : Prng} where
  Idle-Ran : (c : Clock) (s t : Loop W p) → Idle c (clock s) → Ran s t → Advance c (clock t)
  Idle-Ran c s t h r =
      subst (λ x. Advance c x) (sym (r.0 ∙ ap tick h.1))
        (ran_at c s.now h.0 (
          subst
            (λ x.
              counted (Clock.now x) (Clock.instant_time x) (Clock.instant_steps x)
              ≤ x.max_steps_per_instant)
            h.1 r.1))

  Chosen-Idle :
      (s : Loop W p) (c : Option (LoopHandle W)) (t : Loop W p)
      → Chosen s c t
      → Idle (clock s) (clock t)
  unfolding compact_ready
  Chosen-Idle s c u (over (checked d ms f g tg r k' o')) = (f, refl)
  Chosen-Idle s c u (nothing_due (was_ready r)) = (omega arith, refl)
  Chosen-Idle s c u (nothing_due (jumped now log r q f on tg k' j)) = (f, refl)
  Chosen-Idle s c u (chose (was_ready r) (popped index scheduler tape log' causes e)) =
      (omega arith, refl)
  Chosen-Idle s c u
        (chose (jumped now log r q f on tg k' j) (popped index scheduler tape log' causes e)) =
      (f, refl)

  run_chosen-Advance :
      (s : Loop W p) (c : Option (LoopHandle W)) (t : Loop W p)
      → Idle (clock s) (clock t)
      → After (λ u v. Advance (clock s) (clock v)) (λ e v. s.now ≤ v.now) (run_chosen c t)
  unfolding run_chosen
  run_chosen-Advance s none t h = Idle-Advance (clock s) (clock t) h
  run_chosen-Advance s (some g) t h =
      weaken-After (λ u v. Ran t v) (λ u v. Advance (clock s) (clock v))
        (λ e v. (v.now ≡ t.now) × (is_deadlock e ≡ false)) (λ e v. s.now ≤ v.now) (run_handle g t)
        (run_handle-Ran g t) (λ u v r. Idle-Ran (clock s) t v h r)
        (λ e v q. subst (λ n. s.now ≤ n) (sym q.0) h.0)

  run_once-Advance :
      (s : Loop W p)
      → After (λ u v. Advance (clock s) (clock v)) (λ e v. s.now ≤ v.now) (run_once s)
  unfolding run_once
  run_once-Advance s =
      bind-After (λ c t. Idle (clock s) (clock t)) (λ u v. Advance (clock s) (clock v))
        (λ e v. s.now ≤ v.now) choose_next run_chosen s
        (weaken-After (Chosen s) (λ c t. Idle (clock s) (clock t)) (Failed s) (λ e v. s.now ≤ v.now)
          (choose_next s) (choose_next-Chosen s) (Chosen-Idle s) (Failed-now s))
        (run_chosen-Advance s)

  turns-Advance :
      (n : ℕ) (s : Loop W p)
      → After (λ u v. Advance (clock s) (clock v)) (λ e v. s.now ≤ v.now) (turns n s)
  unfolding turns
  turns-Advance zero s = Advance-refl (clock s)
  turns-Advance (suc n) s = on_test s.stopping (more (turns-Advance n))
    where
      more :
          ((t : Loop W p)
            → After (λ u v. Advance (clock t) (clock v)) (λ e v. t.now ≤ v.now) (turns n t))
          → After
              (λ u v. Advance (clock s) (clock v))
              (λ e v. s.now ≤ v.now)
              ((run_once >> turns n) s)
      more ih =
          bind-After (λ u t. Advance (clock s) (clock t)) (λ u v. Advance (clock s) (clock v))
            (λ e v. s.now ≤ v.now) run_once (λ u. turns n) s (run_once-Advance s)
            (λ u t a.
              weaken-After (λ u v. Advance (clock t) (clock v)) (λ u v. Advance (clock s) (clock v))
                (λ e v. t.now ≤ v.now) (λ e v. s.now ≤ v.now) (turns n t) (ih t)
                (λ b v d. Advance-trans a d) (λ e v f. ground (arith, a.forward, f)))

      on_test :
          (b : Bool)
          → After
              (λ u v. Advance (clock s) (clock v))
              (λ e v. s.now ≤ v.now)
              ((run_once >> turns n) s)
          → After
              (λ u v. Advance (clock s) (clock v))
              (λ e v. s.now ≤ v.now)
              (let rest = (run_once >> turns n) s in if b then (ok true, s) else rest)
      on_test true h = Advance-refl (clock s)
      on_test false h = h

  -- From a count within the limit, and for any number of turns that raise nothing, the clock does
  -- not go back, and if it stands where it stood, then no more callbacks ran than
  -- max_steps_per_instant, whatever they do; the clock does not go back either when a turn
  -- raises.
  pub turns-IsProgress :
      (n : ℕ) (s : Loop W p)
      → s.instant_steps ≤ s.max_steps_per_instant
      → After
          (λ b t.
            (s.now ≤ t.now) × (t.now ≡ s.now → t.step_seq ≤ s.step_seq + s.max_steps_per_instant))
          (λ e t. s.now ≤ t.now)
          (turns n s)
  turns-IsProgress n s h =
      weaken-After (λ u v. Advance (clock s) (clock v)) _ (λ e v. s.now ≤ v.now)
        (λ e v. s.now ≤ v.now) (turns n s) (turns-Advance n s)
        (λ b t a. (a.forward, λ q. bounded t a q)) (λ e t f. f)
    where
      bounded :
          (t : Loop W p)
          → Advance (clock s) (clock t)
          → t.now ≡ s.now
          → t.step_seq ≤ s.step_seq + s.max_steps_per_instant
      bounded t a q =
          omega (arith, a.all_counted q, a.same_limit, spent_within (clock t) (a.within h))
