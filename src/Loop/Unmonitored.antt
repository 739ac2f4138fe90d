-- ===== src/Loop/Unmonitored.antt =====
-- The wait and the pick of a turn of src/simloom/_loop.py, without its monitors.
use simloom.Prelude.{
  ℕ, suc, Bool, true, false, not, ◌&&◌, Option, none, some, List, [], ◌∷◌, ◌≡◌, ◌≢◌, refl, sym, ap,
  ◌∙◌, arith, any, ltb, ◌==◌, map, get_elem?, Result, ok, err, Action, pure, ◌>>=◌, if◌then◌else◌,
}
use Prim.Native.Nat.{◌%◌}
use simloom.Tape.{Prng, Exception, Tape}
use simloom.Sched.{Pct, walk_pick, pct_pick}
use simloom.Loop.{
  LoopError, livelock, LoopHandle, Timer, Loop, Scheduler, random_walk, pct, emit, emit_at,
  garbage_collected, handle_is_dead, seen,
}
use simloom.Loop.Requests.{on_tape, run_body}
use simloom.Loop.Waiting.{
  compact_ready, compact, take_due, jump, wait_until, await_event, watched_deadline,
  report_deadlock, no_monitors,
}
use simloom.Loop.Step.{
  on_pct, pick, popped_at, pop_handle, cause_fields, next_handle, take_ready, take_next,
  detect_livelock, collect_garbage,
}
use simloom.Loop.Due.{taken, take_due_lem}
use simloom.Loop.Waited.{first_time}
use simloom.Loop.Erased.{erase, erased, bind-Commutes, if-erased, on_tape-erased, run_body-erase}

module _ {W : Type 0} {p : Prng} where
  abbrev Blind : {A : Type 0} → Action (Loop W p) LoopError A → Type 0
  Blind m = (s : Loop W p) → m (erase s) ≡ erased (m s)

  -- `await_event`, with the two queues apart.
  abbrev await_on :
      Loop W p → List (LoopHandle W) → List (Timer W) → Result LoopError Bool × Loop W p
  await_on s hs ts = elim hs [
    | h ∷ l ↦ (ok false, s)
    | [] ↦ elim ts [
      | [] ↦ (err (report_deadlock s).0, (report_deadlock s).1)
      | t ∷ l ↦ wait_until t.when (watched_deadline s) s
    ]
  ]

  pub if_erase :
      (b : Bool) (s t : Loop W p) → (if b then erase s else erase t) ≡ erase (if b then s else t)
  if_erase true s t = refl
  if_erase false s t = refl

  pub compact-erase : (s : Loop W p) → compact (erase s) ≡ erase (compact s)
  unfolding compact compact_ready handle_is_dead
  compact-erase s = if_erase (any (handle_is_dead s) s.ready) (compact_ready s) s

  pub compact_empty : (s : Loop W p) → s.ready ≡ [] → compact s ≡ s
  unfolding compact
  compact_empty s e = ap (λ hs. if any (handle_is_dead s) hs then compact_ready s else s) e

  on_pct-erased :
      (r : Result Exception ℕ × (Pct × Tape p)) (s : Loop W p)
      → on_pct r (erase s) ≡ erased (on_pct r s)
  unfolding on_pct
  on_pct-erased (ok i, (q, t)) s = refl
  on_pct-erased (err e, (q, t)) s = refl

  pick-Commutes : Blind pick
  unfolding pick
  pick-Commutes s = on_scheduler s.scheduler
    where
      on_scheduler :
          (c : Scheduler)
          → (elim c [
            | random_walk ↦
                on_tape
                  (walk_pick (map (λ h. seen (LoopHandle.callable h)) s.ready) s.tape)
                  (erase s)
            | pct q ↦
                on_pct
                  (pct_pick (map (λ h. seen (LoopHandle.callable h)) s.ready) (q, s.tape))
                  (erase s)
          ])
            ≡ erased (elim c [
              | random_walk ↦
                  on_tape (walk_pick (map (λ h. seen (LoopHandle.callable h)) s.ready) s.tape) s
              | pct q ↦
                  on_pct (pct_pick (map (λ h. seen (LoopHandle.callable h)) s.ready) (q, s.tape)) s
            ])
      on_scheduler random_walk = on_tape-erased _ s
      on_scheduler (pct q) = on_pct-erased _ s

  pop_handle-Commutes : (index : ℕ) → Blind (pop_handle index)
  unfolding pop_handle popped_at cause_fields emit emit_at
  pop_handle-Commutes index s = on_get (get_elem? s.ready index)
    where
      on_get :
          (o : Option (LoopHandle W)) → popped_at index (erase s) o ≡ erased (popped_at index s o)
      on_get none = refl
      on_get (some h) = refl

  next_handle-Commutes : Blind next_handle
  unfolding next_handle
  next_handle-Commutes = bind-Commutes pick pop_handle pick-Commutes pop_handle-Commutes

  take_ready-Commutes : Blind take_ready
  unfolding take_ready
  take_ready-Commutes s = on_ready s.ready
    where
      on_ready :
          (hs : List (LoopHandle W))
          → (elim hs [
            | [] ↦ (ok none, erase s)
            | h ∷ l ↦ (next_handle >>= (λ h. pure (some h))) (erase s)
          ])
            ≡ erased
                (elim hs [ [] ↦ (ok none, s) | h ∷ l ↦ (next_handle >>= (λ h. pure (some h))) s ])
      on_ready [] = refl
      on_ready (h ∷ l) =
          bind-Commutes next_handle (λ h. pure (some h)) next_handle-Commutes (λ h t. refl) s

  taken-erase : (ts : List (Timer W)) (s : Loop W p) → taken ts (erase s) ≡ erase (taken ts s)
  unfolding handle_is_dead
  taken-erase ts s = refl

  pub take_next-Commutes : Blind take_next
  unfolding take_next
  take_next-Commutes s =
      ap take_ready (
        take_due_lem s.scheduled (erase s)
        ∙ taken-erase s.scheduled s
        ∙ ap erase (sym (take_due_lem s.scheduled s)))
      ∙ take_ready-Commutes (take_due s.scheduled s)

  pub detect_livelock-Commutes : Blind detect_livelock
  unfolding detect_livelock
  detect_livelock-Commutes s =
      if-erased (ltb s.max_steps_per_instant steps) (err (livelock steps), t) (ok tt, t)
    where
      steps : ℕ
      steps = if s.now == s.instant_time then suc s.instant_steps else 1

      t : Loop W p
      t = record s { instant_time = s.now; instant_steps = steps }

  collect_garbage-erase : (s : Loop W p) → collect_garbage (erase s) ≡ erase (collect_garbage s)
  unfolding collect_garbage emit emit_at
  collect_garbage-erase s =
      if_erase (not (s.gc_interval == 0) && (s.step_seq % s.gc_interval == 0))
        (emit garbage_collected s) s

  pub callback-erase :
      (h : LoopHandle W) (s : Loop W p)
      → run_body h.body (collect_garbage (erase s)) ≡ erase (run_body h.body (collect_garbage s))
  callback-erase h s =
      ap (run_body h.body) (collect_garbage-erase s) ∙ run_body-erase h.body (collect_garbage s)

  -- Without monitors the wait is for the first timer.
  pub await_event-erase :
      (s : Loop W p) (target : ℕ)
      → s.ready ≡ []
      → first_time s.scheduled ≡ some target
      → await_event (erase s) ≡ (ok false, jump target (erase s))
  unfolding await_event wait_until watched_deadline no_monitors
  await_event-erase s target e f = on_lists s.ready s.scheduled e f
    where
      on_lists :
          (hs : List (LoopHandle W)) (ts : List (Timer W))
          → hs ≡ []
          → first_time ts ≡ some target
          → await_on (erase s) hs ts ≡ (ok false, jump target (erase s))
      on_lists (h ∷ l) ts e f = cc
      on_lists [] [] e f = cc
      on_lists [] (t ∷ l) e f = ap (λ n. (ok false, jump n (erase s))) (when_of f)
        where
          when_of : some t.when ≡ some target → t.when ≡ target
          when_of q = ground arith

  pub await_event_ready :
      (s : Loop W p) → s.ready ≢ [] → await_event (erase s) ≡ (ok false, erase s)
  unfolding await_event
  await_event_ready s n = on_ready s.ready n
    where
      on_ready :
          (hs : List (LoopHandle W))
          → hs ≢ []
          → await_on (erase s) hs s.scheduled ≡ (ok false, erase s)
      on_ready (h ∷ l) n = refl
      on_ready [] n = absurd (n refl)
