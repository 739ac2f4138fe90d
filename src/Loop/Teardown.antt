-- ===== src/Loop/Teardown.antt =====
-- src/simloom/_loop.py: the life of a loop, and what its end does with the crashed tasks.
use simloom.Prelude.{
  ℕ, zero, suc, Bool, true, false, List, [], ◌∷◌, ◌++◌, if◌then◌else◌, Result, ok, err, Action,
  ◌>>=◌, ◌>>◌,
}
use simloom.Tape.{Prng}
use simloom.Loop.{LoopError, runtime_error, LoopHandle, Loop}
use simloom.Loop.Calls.{check_closed}
use simloom.Loop.Requests.{run_body}
use simloom.Loop.Step.{run_once, next_handle}
use simloom.Loop.Waiting.{compact}

module _ {W : Type 0} {p : Prng} where
  -- `_revive_crashed`
  unfoldable pub revive_crashed : Loop W p → List ℕ × Loop W p
  revive_crashed s =
      (s.crashed_tasks, record s { crashed_tasks = []; ready = s.ready ++ s.parked; parked = [] })

  -- `_drain_ready`, with the callbacks that are left of its limit, which is not 0 at first.
  unfoldable pub drain_ready : ℕ → Action (Loop W p) LoopError (Unit {0})
  unfolding compact next_handle run_body
  drain_ready zero s = (err (runtime_error "teardown drain exceeded its step limit"), s)
  drain_ready (suc left) s =
      let s' = compact s in
      elim s'.ready [
        | [] ↦ (ok tt, s')
        | _ ∷ _ ↦ (next_handle >>= (λ h t. drain_ready left (run_body (LoopHandle.body h) t))) s'
      ]

  -- `_check_running`; `outer` tells whether another event loop runs in the thread.
  unfoldable pub check_running : Bool → Action (Loop W p) LoopError (Unit {0})
  check_running outer s =
      if s.running
      then (err (runtime_error "this event loop is already running"), s)
      else if outer
      then (err (runtime_error "another event loop is running"), s)
      else (ok tt, s)

  -- `while not self._stopping: self._run_once()`, some turns of it: `true` when it has ended.
  unfoldable pub turns : ℕ → Action (Loop W p) LoopError Bool
  unfolding run_once
  turns zero s = (ok s.stopping, s)
  turns (suc n) s = let more = (run_once >> turns n) s in if s.stopping then (ok true, s) else more

  -- `finally: …`
  unfoldable pub ended :
      {A : Type 0} → Result LoopError A × Loop W p → Result LoopError A × Loop W p
  ended (r, s) = (r, record s { stopping = false; running = false })

  -- `run_forever`, up to a number of turns.
  unfoldable pub run_forever : ℕ → Bool → Action (Loop W p) LoopError Bool
  unfolding check_closed check_running turns ended
  run_forever n outer = do
    check_closed
    check_running outer
    (λ s. ended (turns n (record s { running = true })))

  -- `close`
  unfoldable pub close : Action (Loop W p) LoopError (Unit {0})
  close s =
      if s.running
      then (err (runtime_error "cannot close a running event loop"), s)
      else (ok tt, record s { closed = true; ready = []; scheduled = [] })
