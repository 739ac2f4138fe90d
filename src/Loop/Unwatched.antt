-- ===== src/Loop/Unwatched.antt =====
-- The turns of the loop of src/simloom/_loop.py, with its monitors and without them.
use simloom.Prelude.{
  ℕ, zero, suc, ◌≤◌, Bool, true, false, ◌≡◌, refl, sym, ap, ◌∙◌, arith, Result, ok, err, and_then,
  ◌>>◌, if◌then◌else◌, After, weaken-After,
}
use simloom.Tape.{Prng}
use simloom.Loop.{LoopError, Loop}
use simloom.Loop.Step.{run_once}
use simloom.Loop.Teardown.{turns}
use simloom.Loop.Erased.{erase}
use simloom.Loop.Unseen.{Turned, alike, paused, run_once-Turned}

module _ {W : Type 0} {p : Prng} where
  -- Two loops that show the same.
  pub record Agrees (u t : Loop W p) : Type 0 where
    pub same_log : u.log ≡ t.log
    pub same_tape : u.tape ≡ t.tape
    pub same_world : u.world ≡ t.world
    pub same_stop : u.stopping ≡ t.stopping

  -- The loop `v` without monitors goes on as `s` would, and shows the same.
  record Behind (v s : Loop W p) : Type 0 where
    next : run_once v ≡ run_once (erase s)
    agrees : Agrees v s

  pub record Unwatched (v : Loop W p) (n : ℕ) (b : Bool) (t : Loop W p) : Type 0 where
    pub count : ℕ
    pub last : Loop W p
    pub fewer : count ≤ n
    pub runs : turns count v ≡ (ok b, last)
    pub agrees : Agrees last t

  erase-Behind : (s : Loop W p) → Behind (erase s) s
  erase-Behind s = record {
    next = refl;
    agrees = record { same_log = refl; same_tape = refl; same_world = refl; same_stop = refl };
  }

  stays : (n : ℕ) (v s : Loop W p) (b : Bool) → Behind v s → s.stopping ≡ b → Unwatched v n b s
  unfolding turns
  stays n v s b h e = record {
    count = 0;
    last = v;
    fewer = omega arith;
    runs = λ i. (ok ((h.agrees.same_stop ∙ e) i), v);
    agrees = h.agrees;
  }

  -- One more turn.
  turned :
      (n : ℕ) (v s t u : Loop W p) (b : Bool)
      → Behind v s
      → s.stopping ≡ false
      → run_once (erase s) ≡ (ok tt, erase t)
      → Unwatched (erase t) n b u
      → Unwatched v (suc n) b u
  unfolding turns
  turned n v s t u b h e a w = record {
    count = suc w.count;
    last = w.last;
    fewer = ground arith;
    runs =
        ap (λ c. if c then (ok true, v) else (run_once >> turns w.count) v) (h.agrees.same_stop ∙ e)
        ∙ ap (λ r. and_then r.0 (λ x. turns w.count) r.1) (h.next ∙ a)
        ∙ w.runs;
    agrees = w.agrees;
  }

  paused-Behind :
      (v s t : Loop W p)
      → Behind v s
      → run_once (erase s) ≡ run_once (erase t)
      → Agrees s t
      → Behind v t
  paused-Behind v s t h e a = record {
    next = h.next ∙ e;
    agrees = record {
      same_log = h.agrees.same_log ∙ a.same_log;
      same_tape = h.agrees.same_tape ∙ a.same_tape;
      same_world = h.agrees.same_world ∙ a.same_world;
      same_stop = h.agrees.same_stop ∙ a.same_stop;
    };
  }

  -- A wait alone is no turn of the run without monitors.
  later_count : {n : ℕ} {b : Bool} {v t : Loop W p} → Unwatched v n b t → Unwatched v (suc n) b t
  later_count w = record {
    count = w.count;
    last = w.last;
    fewer = ground arith;
    runs = w.runs;
    agrees = w.agrees;
  }

  abbrev Follows : ℕ → Loop W p → Loop W p → Type 0
  Follows n v s = After (Unwatched v n) (λ e t. Unit {0}) (turns n s)

  goes_on :
      (n : ℕ) (v s t : Loop W p)
      → Behind v s
      → s.stopping ≡ false
      → t.evaluating_monitors ≡ false
      → Turned s t
      → ((w x : Loop W p) → x.evaluating_monitors ≡ false → Behind w x → Follows n w x)
      → After (Unwatched v (suc n)) (λ e u. Unit {0}) (turns n t)
  goes_on n v s t h e q (alike a) k =
      weaken-After (Unwatched (erase t) n) (Unwatched v (suc n)) (λ e u. Unit {0}) (λ e u. Unit {0})
        (turns n t) (k (erase t) t q (erase-Behind t)) (λ b u w. turned n v s t u b h e a w)
        (λ e u x. tt)
  goes_on n v s t h e q (paused a l d w z) k =
      weaken-After (Unwatched v n) (Unwatched v (suc n)) (λ e u. Unit {0}) (λ e u. Unit {0})
        (turns n t)
        (k v t q (
          paused-Behind v s t h a (record {
            same_log = sym l;
            same_tape = sym d;
            same_world = sym w;
            same_stop = sym z;
          })))
        (λ b u x. later_count x) (λ e u x. tt)

  ran :
      (n : ℕ) (v s : Loop W p) (r : Result LoopError (Unit {0}) × Loop W p)
      → Behind v s
      → s.stopping ≡ false
      → ((w x : Loop W p) → x.evaluating_monitors ≡ false → Behind w x → Follows n w x)
      → After (λ u t. Turned s t × (t.evaluating_monitors ≡ false)) (λ e t. Unit {0}) r
      → After
          (Unwatched v (suc n))
          (λ e t. Unit {0})
          (let (x, t) = r in and_then x (λ u. turns n) t)
  ran n v s (ok u, t) h e k (d, q) = goes_on n v s t h e q d k
  ran n v s (err x, t) h e k d = tt

  catch_up : (n : ℕ) (v s : Loop W p) → s.evaluating_monitors ≡ false → Behind v s → Follows n v s
  unfolding turns
  catch_up zero v s q h = stays 0 v s s.stopping h refl
  catch_up (suc n) v s q h = on_stop s.stopping refl (λ w x. catch_up n w x)
    where
      on_stop :
          (b : Bool)
          → s.stopping ≡ b
          → ((w x : Loop W p) → x.evaluating_monitors ≡ false → Behind w x → Follows n w x)
          → After
              (Unwatched v (suc n))
              (λ e t. Unit {0})
              (if b then (ok true, s) else (run_once >> turns n) s)
      on_stop true e k = stays (suc n) v s true h e
      on_stop false e k = ran n v s (run_once s) h e k (run_once-Turned s q)

  -- Monitors that pass are unseen: if no monitor is being evaluated and a run of the loop of up
  -- to `n` turns raises nothing, then the loop with all its monitors taken away, run for at most
  -- `n` turns, gives the same answer with the same log, the same tape, the same world and the same
  -- flag to stop. It may take fewer turns, since a turn that only waits for a deadline of a monitor
  -- is not one of its turns.
  pub turns-Unwatched :
      (n : ℕ) (s : Loop W p)
      → s.evaluating_monitors ≡ false
      → After (λ b t. Unwatched (erase s) n b t) (λ e t. Unit {0}) (turns n s)
  turns-Unwatched n s q = catch_up n (erase s) s q (erase-Behind s)
