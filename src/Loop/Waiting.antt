-- ===== src/Loop/Waiting.antt =====
-- src/simloom/_loop.py: `_run_once` up to the pick: the dead handles and timers, the wait for the next event,
-- and the timers that are due.
use simloom.Prelude.{
  ℕ, suc, Bool, true, false, not, ◌&&◌, ◌||◌, Option, none, some, List, [], ◌∷◌, ◌++◌, map, ltb,
  leb, any, keep, if◌then◌else◌, Result, ok, err, Action, pure, ◌>>◌,
}
use simloom.Tape.{Prng}
use simloom.Monitors.{InvariantViolation, MonitorSet, after_step, fire_due, finalize, next_deadline}
use simloom.Loop.{
  LoopError, deadlock, violated, LoopHandle, Timer, Task, clock_jumped, invariant_broken,
  deadlocked, Loop, emit, emit_at, is_among, is_cancelled, is_crashed_owned, handle_is_dead,
}
use simloom.Loop.Calls.{label_at, sort_tasks}

-- The tasks that are not done and not crashed, from a place of the list on.
unfoldable pub pending_from : List ℕ → ℕ → List Task → List ℕ
pending_from crashed i [] = []
pending_from crashed i (t ∷ ts) =
    let rest = pending_from crashed (suc i) ts in
    if not t.done && not (is_among i crashed) then i ∷ rest else rest

module _ {W : Type 0} where
  -- `while self._scheduled and self._scheduled[0][2].cancelled(): heapq.heappop(…)`
  unfoldable pub drop_cancelled : List ℕ → List (Timer W) → List (Timer W)
  drop_cancelled cancelled [] = []
  drop_cancelled cancelled (t ∷ ts) =
      let rest = drop_cancelled cancelled ts in
      if is_cancelled cancelled t.handle then rest else t ∷ ts

  unfoldable pub no_monitors : MonitorSet W → Bool
  no_monitors ms = elim ms.always [
    | m ∷ l ↦ false
    | [] ↦ elim ms.eventually [
      | m ∷ l ↦ false
      | [] ↦ elim ms.leads_to [ m ∷ l ↦ false | [] ↦ true ]
    ]
  ]

module _ {W : Type 0} {p : Prng} where
  -- `_compact_ready`
  unfoldable pub compact_ready : Loop W p → Loop W p
  unfolding handle_is_dead is_cancelled is_crashed_owned
  compact_ready s = record s {
    ready = keep (λ h. not (handle_is_dead s h)) s.ready;
    parked =
        s.parked
        ++ keep (λ h. not (is_cancelled s.cancelled h) && is_crashed_owned s.crashed_tasks h)
            s.ready;
  }

  unfoldable pub compact : Loop W p → Loop W p
  unfolding handle_is_dead compact_ready
  compact s = if any (handle_is_dead s) s.ready then compact_ready s else s

  -- `_report_deadlock`
  unfoldable pub report_deadlock : Loop W p → LoopError × Loop W p
  unfolding pending_from sort_tasks label_at emit
  report_deadlock s =
      let pending =
        map (label_at s.tasks) (sort_tasks s.tasks (pending_from s.crashed_tasks 0 s.tasks)) in
      (deadlock pending, emit (deadlocked pending) s)

  -- `_emit_and_raise`, if there is a violation; the monitors were evaluated and the flag is down.
  unfoldable pub settle :
      Option InvariantViolation × MonitorSet W → Loop W p → Result LoopError (Unit {0}) × Loop W p
  unfolding emit_at
  settle (none, ms) s = (ok tt, record s { monitors = ms; evaluating_monitors = false })
  settle (some v, ms) s = (
    err (violated v),
    emit_at v.t (invariant_broken v) (record s { monitors = ms; evaluating_monitors = false }),
  )

  unfoldable pub check_step : Action (Loop W p) LoopError (Unit {0})
  unfolding settle
  check_step s = settle (after_step s.now s.world s.monitors) s

  unfoldable pub check_due : Action (Loop W p) LoopError (Unit {0})
  unfolding settle
  check_due s = settle (fire_due s.now s.world s.monitors) s

  unfoldable pub finalize_monitors : Action (Loop W p) LoopError (Unit {0})
  unfolding settle no_monitors
  finalize_monitors s =
      if no_monitors s.monitors then (ok tt, s) else settle (finalize s.now s.world s.monitors) s

  unfoldable pub watched_deadline : Loop W p → Option ℕ
  unfolding no_monitors
  watched_deadline s =
      if no_monitors s.monitors || not s.monitoring_enabled then none else next_deadline s.monitors

  -- `if target > self._now: …`
  unfoldable pub jump : ℕ → Loop W p → Loop W p
  unfolding emit
  jump target s = if ltb s.now target then emit clock_jumped (record s { now = target }) else s

  -- Nothing is ready: the clock goes to the next deadline or to the next timer. The answer is whether
  -- the turn ends here.
  unfoldable pub wait_until : ℕ → Option ℕ → Action (Loop W p) LoopError Bool
  unfolding check_due jump
  wait_until target none s = (ok false, jump target s)
  wait_until target (some deadline) s =
      if leb deadline s.now
      then (check_due >> pure true) s
      else if ltb deadline target
      then (check_due >> pure true) (record s { now = deadline })
      else (ok false, jump target s)

  unfoldable pub await_event : Action (Loop W p) LoopError Bool
  unfolding report_deadlock wait_until watched_deadline
  await_event s = elim s.ready [
    | h ∷ hs ↦ (ok false, s)
    | [] ↦ elim s.scheduled [
      | [] ↦ let (e, s') = report_deadlock s in (err e, s')
      | t ∷ ts ↦ wait_until t.when (watched_deadline s) s
    ]
  ]

  -- A timer that is due, behind those before it.
  unfoldable pub place : LoopHandle W → Loop W p → Loop W p
  unfolding is_cancelled is_crashed_owned
  place h s =
      if is_cancelled s.cancelled h
      then s
      else if is_crashed_owned s.crashed_tasks h
      then record s { parked = s.parked ++ h ∷ [] }
      else record s { ready = s.ready ++ h ∷ [] }

  -- `while self._scheduled and self._scheduled[0][0] <= self._now: …`
  unfoldable pub take_due : List (Timer W) → Loop W p → Loop W p
  unfolding place
  take_due [] s = record s { scheduled = [] }
  take_due (t ∷ ts) s =
      let rest = take_due ts (place t.handle s) in
      if leb t.when s.now then rest else record s { scheduled = t ∷ ts }
