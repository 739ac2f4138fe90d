-- ===== src/Loop/Step.antt =====
-- src/simloom/_loop.py: `_run_once`, one turn of the loop.
use simloom.Prelude.{
  Bool, true, false, ◌>>◌, ℕ, suc, not, ◌&&◌, Option, none, some, List, [], ◌∷◌, map, ltb, ◌==◌,
  keep, remove_at, length, get_elem?, if◌then◌else◌, Result, ok, err, Action, pure, ◌>>=◌,
}
use Prim.Native.Nat.{◌%◌}
use simloom.Tape.{Prng, Exception, Tape}
use simloom.Sched.{Pct, walk_pick, pct_pick}
use simloom.Loop.{
  LoopError, tape_error, livelock, index_error, seen, LoopHandle, Cause, unrecorded, root, stepped,
  garbage_collected, random_walk, pct, Loop, emit,
}
use simloom.Loop.Calls.{describe_callback}
use simloom.Loop.Requests.{on_tape, run_body}
use simloom.Loop.Waiting.{drop_cancelled, no_monitors, compact, check_step, await_event, take_due}

unfoldable pub found_cause : ℕ → List (ℕ × Cause) → Cause
found_cause id [] = root
found_cause id ((i, cause) ∷ l) = let rest = found_cause id l in if i == id then cause else rest

module _ {W : Type 0} {p : Prng} where
  unfoldable pub on_pct :
      Result Exception ℕ × (Pct × Tape p) → Loop W p → Result LoopError ℕ × Loop W p
  on_pct (ok index, (q, t)) s = (ok index, record s { scheduler = pct q; tape = t })
  on_pct (err e, (q, t)) s = (err (tape_error e), record s { scheduler = pct q; tape = t })

  -- `self._scheduler.pick(self._ready)`
  unfoldable pub pick : Action (Loop W p) LoopError ℕ
  unfolding seen on_tape on_pct
  pick s =
      let handles = map (λ h. seen (h.callable)) s.ready in
      elim s.scheduler [
        | random_walk ↦ on_tape (walk_pick handles s.tape) s
        | pct q ↦ on_pct (pct_pick handles (q, s.tape)) s
      ]

  -- `_cause_fields`
  unfoldable pub cause_fields : LoopHandle W → Loop W p → Cause
  unfolding found_cause
  cause_fields h s = if s.causal then found_cause h.id s.handle_cause else unrecorded

  unfoldable pub popped_at :
      ℕ → Loop W p → Option (LoopHandle W) → Result LoopError (LoopHandle W) × Loop W p
  unfolding cause_fields emit describe_callback
  popped_at index s none = (err index_error, s)
  popped_at index s (some h) = (
    ok h,
    emit (stepped index (length s.ready) (describe_callback s.tasks h.callable) (cause_fields h s))
        (record s {
          ready = remove_at index s.ready;
          handle_cause = keep (λ x. not (x.0 == h.id)) s.handle_cause;
        }),
  )

  -- `handle = self._ready.pop(index)`, and its event.
  unfoldable pub pop_handle : ℕ → Action (Loop W p) LoopError (LoopHandle W)
  unfolding popped_at
  pop_handle index s = popped_at index s (get_elem? s.ready index)

  -- From `count = …` to the event `step`.
  unfoldable pub next_handle : Action (Loop W p) LoopError (LoopHandle W)
  unfolding pick pop_handle
  next_handle = do index ← pick; pop_handle index

  -- `_detect_livelock`
  unfoldable pub detect_livelock : Action (Loop W p) LoopError (Unit {0})
  detect_livelock s =
      let steps = if s.now == s.instant_time then suc s.instant_steps else 1 in
      let counted = record s { instant_time = s.now; instant_steps = steps } in
      if ltb s.max_steps_per_instant steps
      then (err (livelock steps), counted)
      else (ok tt, counted)

  unfoldable pub collect_garbage : Loop W p → Loop W p
  unfolding emit
  collect_garbage s =
      if not (s.gc_interval == 0) && (s.step_seq % s.gc_interval == 0)
      then emit garbage_collected s
      else s

  unfoldable pub begin_step : Loop W p → Loop W p
  begin_step s = record s { current_step = some s.step_seq; step_seq = suc s.step_seq }

  -- The callback, between the collection of garbage and the monitors.
  unfoldable pub run_callback : LoopHandle W → Action (Loop W p) LoopError (Unit {0})
  unfolding collect_garbage run_body check_step no_monitors
  run_callback h s =
      let s' = run_body h.body (collect_garbage s) in
      if s'.monitoring_enabled && not (no_monitors s'.monitors) then check_step s' else (ok tt, s')

  -- From `self._current_step = …` to the end of the turn.
  unfoldable pub run_handle : LoopHandle W → Action (Loop W p) LoopError (Unit {0})
  unfolding begin_step detect_livelock run_callback
  run_handle h s = (detect_livelock >> run_callback h) (begin_step s)

  -- `if not self._ready: return`, and the pick.
  unfoldable pub take_ready : Action (Loop W p) LoopError (Option (LoopHandle W))
  unfolding next_handle
  take_ready s = elim s.ready [
    | [] ↦ (ok none, s)
    | _ ∷ _ ↦ (next_handle >>= (λ h. pure (some h))) s
  ]

  -- From `while self._scheduled and …` to the event `step`.
  unfoldable pub take_next : Action (Loop W p) LoopError (Option (LoopHandle W))
  unfolding take_due take_ready
  take_next s = take_ready (take_due s.scheduled s)

  unfoldable pub unless_over : Bool → Action (Loop W p) LoopError (Option (LoopHandle W))
  unfolding take_next
  unless_over true s = (ok none, s)
  unless_over false s = take_next s

  -- The turn up to the callback that it runs, if it runs one.
  unfoldable pub choose_next : Action (Loop W p) LoopError (Option (LoopHandle W))
  unfolding drop_cancelled compact await_event unless_over
  choose_next s =
      (await_event >>= unless_over)
        (compact (record s { scheduled = drop_cancelled s.cancelled s.scheduled }))

  unfoldable pub run_chosen : Option (LoopHandle W) → Action (Loop W p) LoopError (Unit {0})
  unfolding run_handle
  run_chosen none s = (ok tt, s)
  run_chosen (some h) s = run_handle h s

  -- `_run_once`
  unfoldable pub run_once : Action (Loop W p) LoopError (Unit {0})
  unfolding choose_next run_chosen
  run_once = choose_next >>= run_chosen
