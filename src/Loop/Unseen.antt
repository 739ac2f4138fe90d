-- ===== src/Loop/Unseen.antt =====
-- A turn of the loop of src/simloom/_loop.py, with its monitors and without them.
use simloom.Prelude.{
  ℕ, ◌≤◌, ◌<◌, Bool, true, false, Option, some, [], ◌≡◌, refl, sym, ap, ◌∙◌, subst, ◌⊎◌, inl, inr,
  arith, Result, ok, err, and_then, After, weaken-After,
}
use simloom.Tape.{Prng}
use simloom.Monitors.{MonitorSet}
use simloom.Loop.{LoopError, LoopHandle, Loop}
use simloom.Loop.Waiting.{drop_cancelled, compact_ready, compact, await_event, jump}
use simloom.Loop.Step.{unless_over, take_next, choose_next, run_chosen, run_once}
use simloom.Loop.Waited.{
  Waited, was_ready, jumped, checked, Refused, first_time, compact_lem, await_event-Waited,
  jump_taken,
}
use simloom.Loop.Chosen.{
  popped, Chosen, over, nothing_due, chose, Failed, prepared, take_next-Chosen,
}
use simloom.Loop.Erased.{erase, erased}
use simloom.Loop.Unmonitored.{compact-erase, compact_empty, take_next-Commutes, await_event-erase}
use simloom.Loop.Passing.{Unseen, drop_cancelled_twice, await_same, picked-Unseen}

module _ {W : Type 0} {p : Prng} where
  -- What a turn waits with.
  abbrev wake : Loop W p → Loop W p
  wake s = compact (record s { scheduled = drop_cancelled s.cancelled s.scheduled })

  -- The turn behind its wait.
  abbrev resumed : Result LoopError Bool × Loop W p → Result LoopError (Unit {0}) × Loop W p
  resumed r = let c = and_then r.0 unless_over r.1 in and_then c.0 run_chosen c.1

  run_once_lem : (s : Loop W p) → run_once s ≡ resumed (await_event (wake s))
  unfolding run_once choose_next
  run_once_lem s = refl

  erased_turn : (s : Loop W p) → run_once (erase s) ≡ resumed (await_event (erase (prepared s)))
  erased_turn s =
      run_once_lem (erase s)
      ∙ ap (λ v. resumed (await_event v)) (compact-erase dropped ∙ ap erase (compact_lem dropped))
    where
      dropped : Loop W p
      dropped = record s { scheduled = drop_cancelled s.cancelled s.scheduled }

  -- The clock stands before the first timer, or where it stood.
  jump_from :
      (s : Loop W p) (d target : ℕ)
      → s.now ≤ d
      → (d ≡ s.now) ⊎ (d < target)
      → jump target (record s { now = d }) ≡ jump target s
  jump_from s d target f (inl e) = λ i. jump target (record s { now = e i })
  jump_from s d target f (inr l) =
      jump_taken target (record s { now = d }) (ground arith)
      ∙ sym (jump_taken target s (ground arith))

  -- What a turn leaves, without monitors: the same; or the turn only waited, and did nothing else.
  pub data Turned (s : Loop W p) : Loop W p → Type 0 where
    alike : {t : Loop W p} → run_once (erase s) ≡ (ok tt, erase t) → Turned s t
    paused :
        {t : Loop W p}
        → run_once (erase s) ≡ run_once (erase t)
        → t.log ≡ s.log
        → t.tape ≡ s.tape
        → t.world ≡ s.world
        → t.stopping ≡ s.stopping
        → Turned s t

  Chosen_quiet :
      (s : Loop W p) (c : Option (LoopHandle W)) (t : Loop W p)
      → s.evaluating_monitors ≡ false
      → Chosen s c t
      → t.evaluating_monitors ≡ false
  unfolding compact_ready
  Chosen_quiet s c t q (over (checked d ms f g tg r k o)) = refl
  Chosen_quiet s c t q (nothing_due (was_ready r)) = q
  Chosen_quiet s c t q (nothing_due (jumped now log r g f on tg k j)) = q
  Chosen_quiet s c t q (chose (was_ready r) (popped i scheduler tape log causes e)) = q
  Chosen_quiet s c t q
        (chose (jumped now log r g f on tg k j) (popped i scheduler tape log' causes e)) =
      q

  -- A turn that goes on.
  going_on :
      (s t : Loop W p)
      → s.evaluating_monitors ≡ false
      → Waited (prepared s) false t
      → After
          (λ u v. Turned s v × (v.evaluating_monitors ≡ false))
          (λ e v. Unit {0})
          (let (x, u) = take_next t in and_then x run_chosen u)
  unfolding unless_over
  going_on s t q w =
      weaken-After (λ u v. Unseen alone v) (λ u v. Turned s v × (v.evaluating_monitors ≡ false))
        (λ e v. Unit {0}) (λ e v. Unit {0}) (let (x, u) = take_next t in and_then x run_chosen u)
        (picked-Unseen (take_next t) (
          weaken-After (Chosen s) (λ c v. v.evaluating_monitors ≡ false) (Failed s)
            (λ e v. Unit {0}) (take_next t) (take_next-Chosen s t w) (λ c v. Chosen_quiet s c v q)
            (λ e v h. tt)))
        (λ u v h. (alike (same ∙ h.0), h.1)) (λ e v h. tt)
    where
      alone : Result LoopError (Unit {0}) × Loop W p
      alone = let (x, u) = erased (take_next t) in and_then x run_chosen u

      same : run_once (erase s) ≡ alone
      same =
          erased_turn s
          ∙ ap resumed (await_same (prepared s) t w)
          ∙ ap (λ r. and_then r.0 run_chosen r.1) (take_next-Commutes t)

  waits_on :
      (s : Loop W p) (d target : ℕ) (ms : MonitorSet W)
      → s.evaluating_monitors ≡ false
      → s.now ≤ d
      → s.ready ≡ []
      → first_time s.scheduled ≡ some target
      → (d ≡ s.now) ⊎ (d < target)
      → drop_cancelled s.cancelled s.scheduled ≡ s.scheduled
      → resumed (await_event (erase s))
        ≡ run_once (erase (record s { now = d; monitors = ms; evaluating_monitors = false }))
  waits_on s d target ms q f r k o c =
      ap resumed (
        await_event-erase s target r k
        ∙ ap (λ v. (ok false, v))
            (sym (jump_from (erase s) d target f o)
              ∙ (λ i. jump target (record (erase s) { now = d; evaluating_monitors = q i })))
        ∙ sym (await_event-erase t target r k)
        ∙ ap await_event (
            sym (compact_empty (erase t) r)
            ∙ (λ i. compact (record (erase t) { scheduled = sym c i }))))
      ∙ sym (run_once_lem (erase t))
    where
      t : Loop W p
      t = record s { now = d; monitors = ms; evaluating_monitors = false }

  after_wait :
      (s : Loop W p) (ends : Bool) (t : Loop W p)
      → s.evaluating_monitors ≡ false
      → Waited (prepared s) ends t
      → After
          (λ u v. Turned s v × (v.evaluating_monitors ≡ false))
          (λ e v. Unit {0})
          (resumed (ok ends, t))
  unfolding unless_over run_chosen compact_ready
  after_wait s false t q w = going_on s t q w
  after_wait s true t q (checked d ms f g target r k o) = (
    paused
        (erased_turn s
          ∙ waits_on (prepared s) d target ms q f r k o
              (drop_cancelled_twice s.cancelled s.scheduled))
        refl refl refl refl,
    refl,
  )

  resumed-Turned :
      (s : Loop W p) (r : Result LoopError Bool × Loop W p)
      → s.evaluating_monitors ≡ false
      → After (Waited (prepared s)) (Refused (prepared s)) r
      → After (λ u v. Turned s v × (v.evaluating_monitors ≡ false)) (λ e v. Unit {0}) (resumed r)
  resumed-Turned s (ok b, t) q h = after_wait s b t q h
  resumed-Turned s (err e, t) q h = tt

  pub run_once-Turned :
      (s : Loop W p)
      → s.evaluating_monitors ≡ false
      → After (λ u v. Turned s v × (v.evaluating_monitors ≡ false)) (λ e v. Unit {0}) (run_once s)
  run_once-Turned s q =
      subst (After (λ u v. Turned s v × (v.evaluating_monitors ≡ false)) (λ e v. Unit {0}))
        (sym (
          run_once_lem s
          ∙ ap (λ v. resumed (await_event v))
              (compact_lem (record s { scheduled = drop_cancelled s.cancelled s.scheduled }))))
        (resumed-Turned s (await_event (prepared s)) q (await_event-Waited (prepared s)))
