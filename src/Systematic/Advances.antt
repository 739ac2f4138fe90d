-- ===== src/Systematic/Advances.antt =====
-- A step of the odometer of src/simloom/_systematic.py goes forward, and stays within the bounds.
use simloom.Prelude.{
  String, ℕ, ◌-◌, ◌<◌, ◌≤◌, ◌≡◌, refl, sym, subst, ◌∙◌, true, Option, none, some, List, [], ◌∷◌,
  arith, All, inl, inr, Bool-cases,
}
use simloom.Tape.{Draw}
use simloom.Run.{Program, finish, request, Verdict}
use simloom.Run.Trace.{Trace, default, complete}
use simloom.Systematic.{delay, delays, untried, bumped, next_plan}
use simloom.Systematic.Odometer.{plan_cons, next_plan-cons, next_plan-nil}
use simloom.Systematic.Order.{Later, IsAllowed, IsNarrow, some_path}

-- What a planned schedule is, behind the schedule `r`.
record Step (max_delays max_bound : ℕ) (program : Program) (r plan : List Draw) : Type 0 where
  later : Later r (complete program plan)
  within : delays plan ≤ max_delays
  some_budget : 0 < max_delays
  narrow : All (IsNarrow max_bound) plan

module _ (max_bound max_delays : ℕ) (label : String) (k : ℕ) (next : ℕ → Program) (rescue : Program)
    (d : Draw) (r : List Draw) where
  Step-cons :
      (plan : List Draw)
      → IsNarrow max_bound d
      → Step (max_delays - delay d) max_bound (next d.value) r plan
      → Step max_delays max_bound (request label k next rescue) (d ∷ r) (d ∷ plan)
  unfolding complete delays
  Step-cons plan n s = record {
    later = inr (refl, s.later);
    within = ground (arith, s.within, s.some_budget);
    some_budget = ground (arith, s.some_budget);
    narrow = (n, s.narrow);
  }

  Step-bumped :
      untried max_delays max_bound [] d ≡ true
      → Step max_delays max_bound (request label k next rescue) (d ∷ r) (bumped d ∷ [])
  unfolding complete delays untried
  Step-bumped h = record {
    later = inl (omega arith);
    within = ground arith;
    some_budget = ground arith;
    narrow = ((λ _. ground arith), tt);
  }

  plan_cons-Step :
      IsNarrow max_bound d
      → (o : Option (List Draw)) (plan : List Draw)
      → ((rest : List Draw)
          → o ≡ some rest
          → Step (max_delays - delay d) max_bound (next d.value) r rest)
      → plan_cons max_bound max_delays d o ≡ some plan
      → Step max_delays max_bound (request label k next rescue) (d ∷ r) plan
  plan_cons-Step n (some rest) plan ih c =
      subst (Step max_delays max_bound (request label k next rescue) (d ∷ r)) (some_path c)
        (Step-cons rest n (ih rest refl))
  plan_cons-Step n none plan ih c = elim (Bool-cases (untried max_delays max_bound [] d)) [
    | inl h ↦
        subst (Step max_delays max_bound (request label k next rescue) (d ∷ r))
          (some_path (rw h at c)) (Step-bumped h)
    | inr h ↦ cc (rw h at c)
  ]

next_plan-Step :
    (max_bound : ℕ) (program : Program) (max_delays : ℕ) (r plan : List Draw) (v : Verdict)
    → Trace program r v
    → All (IsNarrow max_bound) r
    → next_plan max_delays max_bound r ≡ some plan
    → Step max_delays max_bound program r plan
next_plan-Step max_bound (finish x) max_delays [] plan v t n e =
    cc (next_plan-nil max_delays max_bound)
next_plan-Step max_bound (finish x) max_delays (d ∷ r) plan v t n e = absurd t
next_plan-Step max_bound (request label k next rescue) max_delays [] plan v t n e = absurd t
next_plan-Step max_bound (request label k next rescue) max_delays (d ∷ r) plan v t n e =
    plan_cons-Step max_bound max_delays label k next rescue d r n.0
      (next_plan (max_delays - delay d) max_bound r) plan
      (λ rest. next_plan-Step max_bound (next d.value) (max_delays - delay d) r rest v t.1 n.1)
      (sym (next_plan-cons max_bound max_delays d r) ∙ e)

delays-default : (program : Program) → delays (default program) ≡ 0
unfolding delays default
delays-default (finish v) = refl
delays-default (request label k next rescue) = omega (arith, delays-default (next 0))

IsNarrow-default : (max_bound : ℕ) (program : Program) → All (IsNarrow max_bound) (default program)
unfolding default
IsNarrow-default max_bound (finish v) = tt
IsNarrow-default max_bound (request label k next rescue) =
    ((λ h. absurd (omega arith)), IsNarrow-default max_bound (next 0))

delays-complete :
    (program : Program) (plan : List Draw) → delays (complete program plan) ≤ delays plan
unfolding delays complete
delays-complete (finish v) [] = omega (arith, delays-default (finish v))
delays-complete (request label k next rescue) [] = omega (arith, delays-default (next 0))
delays-complete (finish v) (d ∷ ds) = omega arith
delays-complete (request label k next rescue) (d ∷ ds) =
    omega (arith, delays-complete (next d.value) ds)

IsNarrow-complete :
    (max_bound : ℕ) (program : Program) (plan : List Draw)
    → All (IsNarrow max_bound) plan
    → All (IsNarrow max_bound) (complete program plan)
unfolding complete
IsNarrow-complete max_bound (finish v) [] n = tt
IsNarrow-complete max_bound (request label k next rescue) [] n =
    IsNarrow-default max_bound (request label k next rescue)
IsNarrow-complete max_bound (finish v) (d ∷ ds) n = tt
IsNarrow-complete max_bound (request label k next rescue) (d ∷ ds) n =
    (n.0, IsNarrow-complete max_bound (next d.value) ds n.1)

-- The schedule that the odometer plans behind an allowed one is another and stands behind it in the
-- order of the search, so that none is run twice; and it is allowed too.
pub next_plan-advances :
    (program : Program) (max_delays max_bound : ℕ) (r plan : List Draw) (v : Verdict)
    → Trace program r v
    → IsAllowed max_delays max_bound r
    → next_plan max_delays max_bound r ≡ some plan
    → Later r (complete program plan) × IsAllowed max_delays max_bound (complete program plan)
next_plan-advances program max_delays max_bound r plan v t a e =
    let s = next_plan-Step max_bound program max_delays r plan v t a.narrow e in
    (
      s.later,
      record {
        within = omega (arith, delays-complete program plan, s.within);
        narrow = IsNarrow-complete max_bound program plan s.narrow;
      },
    )
