-- ===== src/Systematic/Covers.antt =====
-- What a campaign of src/simloom/_systematic.py that rolls over has covered.
use simloom.Prelude.{
  ℕ, zero, suc, ◌-◌, ◌≡◌, ◌≢◌, refl, sym, subst, ◌∙◌, Bool, true, Option, none, some, List, [], ◌∷◌,
  ◌++◌, arith, inl, inr, Result, ok, err, bind_result,
}
use simloom.Tape.{Prng, Exception, Draw, fallback}
use simloom.Run.{Program, finish, request, Verdict, passed, raised, RunResult, replay}
use simloom.Run.Trace.{Trace, Trace-verdict, Feasible, complete}
use simloom.Run.Zero.{replay-complete}
use simloom.Systematic.{
  SystematicResult, proven_correct, delay, delays, next_plan, Campaign, start, note, note_first,
  conclude, continue, explore_from, explore_systematic,
}
use simloom.Systematic.Order.{
  Later, NotBefore, IsAllowed, Planned, some_path, Planned-cons, Planned-head, draw_path,
  next_plan-Feasible, default-NotBefore,
}

IsAllowed-tail :
    (max_delays max_bound : ℕ) (d e : Draw) (q : List Draw)
    → d.value ≡ e.value
    → IsAllowed max_delays max_bound (e ∷ q)
    → IsAllowed (max_delays - delay d) max_bound q
unfolding delays
IsAllowed-tail max_delays max_bound d e q v a = record {
  within = ground (arith, a.within, v);
  narrow = a.narrow.1;
}

-- If an allowed schedule stands behind `r`, the odometer has a plan, and does not pass it by.
pub next_plan-Planned :
    (max_bound : ℕ) (program : Program) (max_delays : ℕ) (r q : List Draw) (v w : Verdict)
    → Trace program r v
    → Trace program q w
    → IsAllowed max_delays max_bound q
    → Later r q
    → Planned max_delays max_bound program r q
next_plan-Planned max_bound (finish x) max_delays [] q v w s t a l = absurd l
next_plan-Planned max_bound (finish x) max_delays (d ∷ r) q v w s t a l = absurd s
next_plan-Planned max_bound (request label k next rescue) max_delays [] q v w s t a l = absurd l
next_plan-Planned max_bound (request label k next rescue) max_delays (d ∷ r) [] v w s t a l =
    absurd l
next_plan-Planned max_bound (request label k next rescue) max_delays (d ∷ r) (e ∷ q) v w s t a
      (inl lt) =
    Planned-head max_bound max_delays label k next rescue d r e q w s.0 t a lt
      (next_plan (max_delays - delay d) max_bound r) refl
next_plan-Planned max_bound (request label k next rescue) max_delays (d ∷ r) (e ∷ q) v w s t a
      (inr (same, l)) =
    let x =
      next_plan-Planned max_bound (next d.value) (max_delays - delay d) r q v w s.1
        (subst (λ y. Trace (next y) q w) (sym same) t.1)
        (IsAllowed-tail max_delays max_bound d e q same a) l in
    Planned-cons max_bound max_delays label k next rescue d r e q
      (draw_path d e (s.0.0 ∙ sym t.0.0) same (s.0.1 ∙ sym t.0.1)) x

append-ne-nil : {A : Type 0} (xs : List A) (x : A) → xs ++ x ∷ [] ≢ []
append-ne-nil [] x e = cc
append-ne-nil (y ∷ ys) x e = cc

failures-note_first :
    (first : Option RunResult) (r : RunResult) (c : Campaign)
    → (note_first first r c).failures ≡ c.failures
unfolding note_first
failures-note_first none r c = refl
failures-note_first (some r') r c = refl

note-failures :
    (verdict : Verdict) (r : RunResult) (c : Campaign)
    → (note verdict r c).failures ≡ []
    → (verdict ≡ passed) × (c.failures ≡ [])
unfolding note
note-failures passed r c h = (refl, h)
note-failures (raised e) r c h =
    absurd (append-ne-nil c.failures _ (sym (failures-note_first c.first r _) ∙ h))

bind_inversion :
    (m : Result Exception RunResult) (f : RunResult → Result Exception SystematicResult)
    (s : SystematicResult)
    → bind_result m f ≡ ok s
    → (r : RunResult) × (m ≡ ok r) × (f r ≡ ok s)
bind_inversion (ok r) f s h = (r, refl, h)
bind_inversion (err e) f s h = cc

module _ (p : Prng) (program : Program) (max_delays max_bound : ℕ) (stop_on_failure : Bool) where
  abbrev explored : ℕ → Campaign → Result Exception SystematicResult
  explored = explore_from p program max_delays max_bound stop_on_failure

  -- No failure that was found is dropped.
  abbrev KeepsFailures : (Campaign → Result Exception SystematicResult) → Type 0
  KeepsFailures loop =
      (c : Campaign) (s : SystematicResult) → loop c ≡ ok s → s.failures ≡ [] → c.failures ≡ []

  continue-KeepsFailures :
      (loop : Campaign → Result Exception SystematicResult) (verdict : Verdict)
      (next : Option (List Draw))
      → KeepsFailures loop
      → KeepsFailures (continue p program max_delays max_bound stop_on_failure loop verdict next)
  unfolding continue
  continue-KeepsFailures loop verdict none keep c s e h = ground arith
  continue-KeepsFailures loop verdict (some plan) keep c s e h =
      ground (arith, keep (record c { plan = plan }) s)

  explored-KeepsFailures : (left : ℕ) → KeepsFailures (explored left)
  unfolding explore_from
  explored-KeepsFailures zero c s e h = ground arith
  explored-KeepsFailures (suc left) c s e h =
      let (r, ran, went) = bind_inversion (replay p program c.plan fallback 0 "zero") _ s e in
      (note-failures r.verdict r c (
        continue-KeepsFailures (explored left) r.verdict (next_plan max_delays max_bound r.tape)
          (explored-KeepsFailures left) (note r.verdict r c) s went h)).1

  -- Every allowed schedule from the plan of `c` on passes.
  abbrev PassesFrom : List Draw → Type 0
  PassesFrom r =
      (q : List Draw) (w : Verdict)
      → Trace program q w
      → IsAllowed max_delays max_bound q
      → NotBefore r q
      → w ≡ passed

  -- A schedule that passed, and the allowed ones from the next plan on.
  passes_on :
      (r : List Draw)
      → Trace program r passed
      → ((plan : List Draw)
          → next_plan max_delays max_bound r ≡ some plan
          → PassesFrom (complete program plan))
      → PassesFrom r
  passes_on r t rest q w tq a (inl same) =
      Trace-verdict program r w passed (subst (λ ds. Trace program ds w) same tq) t
  passes_on r t rest q w tq a (inr later) =
      let x = next_plan-Planned max_bound program max_delays r q passed w t tq a later in
      rest x.plan x.planned q w tq a x.reached

  -- A loop that, if it rolls over and finds no failure, has passed all from its plan on.
  abbrev Covers : (Campaign → Result Exception SystematicResult) → Type 0
  Covers loop =
      (c : Campaign) (s : SystematicResult)
      → Feasible program c.plan
      → loop c ≡ ok s
      → s.exhaustive ≡ true
      → s.failures ≡ []
      → PassesFrom (complete program c.plan)

  continue-Covers :
      (loop : Campaign → Result Exception SystematicResult)
      → Covers loop
      → (r : List Draw) (c : Campaign) (s : SystematicResult) → Trace program r passed
      → (o : Option (List Draw)) → next_plan max_delays max_bound r ≡ o
      → continue p program max_delays max_bound stop_on_failure loop passed o c ≡ ok s
      → s.exhaustive ≡ true
      → s.failures ≡ []
      → PassesFrom r
  unfolding continue
  continue-Covers loop covers r c s t none h e x f = passes_on r t (λ plan h'. cc (h, h'))
  continue-Covers loop covers r c s t (some plan) h e x f = passes_on r t (λ plan' h'.
      let same : plan ≡ plan' = some_path (sym h ∙ h') in
      subst (λ ds. PassesFrom (complete program ds)) same
        (covers (record c { plan = plan }) s
          (next_plan-Feasible max_bound program max_delays r plan passed t h) e x f))

  explored-Covers : (left : ℕ) → Covers (explored left)
  unfolding explore_from conclude
  explored-Covers zero c s feasible e x f = cc
  explored-Covers (suc left) c s feasible e x f =
      let (r, ran, drew, trace) = replay-complete p program c.plan 0 feasible in
      let next = next_plan max_delays max_bound r.tape in
      let c' = note r.verdict r c in
      let went : continue p program max_delays max_bound stop_on_failure (explored left) r.verdict
            next c'
          ≡ ok s =
        rw ran at e in
      let kept : c'.failures ≡ [] =
        continue-KeepsFailures (explored left) r.verdict next (explored-KeepsFailures left) c' s
          went f in
      let passes : r.verdict ≡ passed = (note-failures r.verdict r c kept).0 in
      subst PassesFrom drew (
        continue-Covers (explored left) (explored-Covers left) r.tape c' s
          (subst (Trace program r.tape) passes trace) next refl
          (subst
            (λ v.
              continue p program max_delays max_bound stop_on_failure (explored left) v next c'
              ≡ ok s)
            passes went)
          x f)

proven_correct_parts :
    (s : SystematicResult) → proven_correct s ≡ true → (s.exhaustive ≡ true) × (s.failures ≡ [])
unfolding proven_correct
proven_correct_parts s h = ground arith

-- A campaign that reports `proven_correct` is a proof: every execution of the program passes that
-- makes at most `max_delays` choices other than the default, each among at most `max_bound`.
pub explore_systematic-proves :
    (p : Prng) (program : Program) (max_delays max_schedules max_bound : ℕ) (stop : Bool)
    (s : SystematicResult) (q : List Draw) (w : Verdict)
    → explore_systematic p program max_delays max_schedules max_bound stop ≡ ok s
    → proven_correct s ≡ true
    → Trace program q w
    → IsAllowed max_delays max_bound q
    → w ≡ passed
unfolding explore_systematic complete
explore_systematic-proves p program max_delays max_schedules max_bound stop s q w e h t a =
    let (x, f) = proven_correct_parts s h in
    explored-Covers p program max_delays max_bound stop max_schedules start s tt (ground arith) x f
      q w t a (default-NotBefore program q w t)
