-- ===== src/Systematic/Order.antt =====
-- The order in which src/simloom/_systematic.py visits the schedules of a program.
use simloom.Prelude.{
  String, ℕ, suc, ◌+◌, ◌-◌, ◌<◌, ◌≤◌, ◌≡◌, refl, ap, sym, subst, ◌∙◌, true, Option, none, some,
  List, [], ◌∷◌, arith, All, ◌⊎◌, inl, inr, Bool-cases,
}
use simloom.Tape.{Draw}
use simloom.Tape.Drawing.{drawn}
use simloom.Run.{Program, finish, request, Verdict}
use simloom.Run.Trace.{Trace, Feasible, default, complete, Answers}
use simloom.Systematic.{delay, delays, untried, bumped, next_plan}
use simloom.Systematic.Odometer.{
  plan_cons, next_plan-cons, next_plan-nil, untried-lt, untried_below,
}

-- The second schedule stands behind the first: at the first difference its value is the larger.
abbrev pub Later : List Draw → List Draw → Type 0
Later [] q = ⊥
Later (d ∷ r) [] = ⊥
Later (d ∷ r) (e ∷ q) = (d.value < e.value) ⊎ ((d.value ≡ e.value) × Later r q)

-- A choice other than the default is one of at most `max_bound`.
abbrev pub IsNarrow : ℕ → Draw → Type 0
IsNarrow max_bound d = (0 < d.value → d.bound ≤ max_bound)

-- A schedule that the search is to cover.
pub record IsAllowed (max_delays max_bound : ℕ) (q : List Draw) : Type 0 where
  pub within : delays q ≤ max_delays
  pub narrow : All (IsNarrow max_bound) q

-- `q` is `r`, or stands behind it.
abbrev pub NotBefore : List Draw → List Draw → Type 0
NotBefore r q = (q ≡ r) ⊎ Later r q

pub draw_path : (d e : Draw) → d.label ≡ e.label → d.value ≡ e.value → d.bound ≡ e.bound → d ≡ e
draw_path d e l v b = λ i. record { label = l i; value = v i; bound = b i }

pub NotBefore-cons :
    (d e : Draw) (r q : List Draw) → d ≡ e → NotBefore r q → NotBefore (d ∷ r) (e ∷ q)
NotBefore-cons d e r q same (inl h) = inl (cc (same, h))
NotBefore-cons d e r q same (inr h) = inr (inr (ap (λ (x : Draw). x.value) same, h))

zero_or_pos : (n : ℕ) → (n ≡ 0) ⊎ (0 < n)
zero_or_pos n = ground arith

-- The default schedule comes first.
pub default-NotBefore :
    (program : Program) (q : List Draw) (w : Verdict)
    → Trace program q w
    → NotBefore (default program) q
unfolding default
default-NotBefore (finish v) [] w t = inl refl
default-NotBefore (finish v) (e ∷ q) w t = absurd t
default-NotBefore (request label k next rescue) [] w t = absurd t
default-NotBefore (request label k next rescue) (e ∷ q) w t = elim (zero_or_pos e.value) [
  | inl z ↦
      NotBefore-cons (drawn label 0 (suc k)) e (default (next 0)) q
        (draw_path (drawn label 0 (suc k)) e (sym t.0.0) (sym z) (sym t.0.1))
        (default-NotBefore (next 0) q w (subst (λ v. Trace (next v) q w) z t.1))
  | inr h ↦ inr (inl h)
]

-- Two schedules of a program are the same, or one stands behind the other.
pub Trace-trichotomy :
    (program : Program) (r q : List Draw) (v w : Verdict)
    → Trace program r v
    → Trace program q w
    → NotBefore r q ⊎ Later q r
Trace-trichotomy (finish x) [] [] v w s t = inl (inl refl)
Trace-trichotomy (finish x) [] (e ∷ q) v w s t = absurd t
Trace-trichotomy (finish x) (d ∷ r) q v w s t = absurd s
Trace-trichotomy (request label k next rescue) [] q v w s t = absurd s
Trace-trichotomy (request label k next rescue) (d ∷ r) [] v w s t = absurd t
Trace-trichotomy (request label k next rescue) (d ∷ r) (e ∷ q) v w s t =
    elim (order d.value e.value) [
      | inl (inl lt) ↦ inl (inr (inl lt))
      | inr gt ↦ inr (inl gt)
      | inl (inr same) ↦
          elim (Trace-trichotomy (next d.value) r q v w s.1
            (subst (λ x. Trace (next x) q w) (sym same) t.1)) [
              | inl h ↦ inl (
                  NotBefore-cons d e r q
                    (draw_path d e (s.0.0 ∙ sym t.0.0) same (s.0.1 ∙ sym t.0.1)) h)
              | inr h ↦ inr (inr (sym same, h))
            ]
    ]
  where
    order : (a b : ℕ) → ((a < b) ⊎ (a ≡ b)) ⊎ (b < a)
    order a b = ground arith

pub some_path : {plan plan' : List Draw} → some plan ≡ some plan' → plan ≡ plan'
some_path e = cc

-- The bumped draw answers the request that the draw answered.
bumped-Answers :
    (max_delays max_bound : ℕ) (label : String) (bound : ℕ) (d : Draw)
    → Answers label bound d
    → untried max_delays max_bound [] d ≡ true
    → Answers label bound (bumped d)
bumped-Answers max_delays max_bound label bound d a h =
    (a.0, a.1, let lt = untried-lt max_delays max_bound d h in omega (arith, lt, a.1))

module _ (max_bound max_delays : ℕ) (label : String) (k : ℕ) (next : ℕ → Program) (rescue : Program)
    (d : Draw) (answers : Answers label (suc k) d) where
  plan_cons-Feasible :
      (o : Option (List Draw)) (plan : List Draw)
      → ((rest : List Draw) → o ≡ some rest → Feasible (next d.value) rest)
      → plan_cons max_bound max_delays d o ≡ some plan
      → Feasible (request label k next rescue) plan
  plan_cons-Feasible (some rest) plan ih c =
      subst (Feasible (request label k next rescue)) (some_path c) (answers, ih rest refl)
  plan_cons-Feasible none plan ih c = elim (Bool-cases (untried max_delays max_bound [] d)) [
    | inl h ↦
        subst (Feasible (request label k next rescue)) (some_path (rw h at c))
          (bumped-Answers max_delays max_bound label (suc k) d answers h, tt)
    | inr h ↦ cc (rw h at c)
  ]

-- What the odometer plans can be run.
pub next_plan-Feasible :
    (max_bound : ℕ) (program : Program) (max_delays : ℕ) (r plan : List Draw) (v : Verdict)
    → Trace program r v
    → next_plan max_delays max_bound r ≡ some plan
    → Feasible program plan
next_plan-Feasible max_bound (finish x) max_delays [] plan v t e =
    cc (next_plan-nil max_delays max_bound)
next_plan-Feasible max_bound (finish x) max_delays (d ∷ r) plan v t e = absurd t
next_plan-Feasible max_bound (request label k next rescue) max_delays [] plan v t e = absurd t
next_plan-Feasible max_bound (request label k next rescue) max_delays (d ∷ r) plan v t e =
    plan_cons-Feasible max_bound max_delays label k next rescue d t.0
      (next_plan (max_delays - delay d) max_bound r) plan
      (λ rest. next_plan-Feasible max_bound (next d.value) (max_delays - delay d) r rest v t.1)
      (sym (next_plan-cons max_bound max_delays d r) ∙ e)

-- Behind the schedule `r`, the odometer plans the first allowed schedule.
pub record Planned (max_delays max_bound : ℕ) (program : Program) (r q : List Draw) : Type 0 where
  pub plan : List Draw
  pub planned : next_plan max_delays max_bound r ≡ some plan
  pub reached : NotBefore (complete program plan) q

module _ (max_bound max_delays : ℕ) (label : String) (k : ℕ) (next : ℕ → Program) (rescue : Program)
    (d : Draw) (r : List Draw) where
  -- What the tail plans, the whole plans.
  pub Planned-tail :
      (plan : List Draw)
      → next_plan (max_delays - delay d) max_bound r ≡ some plan
      → next_plan max_delays max_bound (d ∷ r) ≡ some (d ∷ plan)
  Planned-tail plan h =
      next_plan-cons max_bound max_delays d r ∙ ap (plan_cons max_bound max_delays d) h

  Planned-bump :
      next_plan (max_delays - delay d) max_bound r ≡ none
      → untried max_delays max_bound [] d ≡ true
      → next_plan max_delays max_bound (d ∷ r) ≡ some (bumped d ∷ [])
  Planned-bump h u =
      next_plan-cons max_bound max_delays d r ∙ ap (plan_cons max_bound max_delays d) h ∙ rw u refl

  pub Planned-cons :
      (e : Draw) (q : List Draw)
      → d ≡ e
      → Planned (max_delays - delay d) max_bound (next d.value) r q
      → Planned max_delays max_bound (request label k next rescue) (d ∷ r) (e ∷ q)
  unfolding complete
  Planned-cons e q same x = record {
    plan = d ∷ x.plan;
    planned = Planned-tail x.plan x.planned;
    reached = NotBefore-cons d e (complete (next d.value) x.plan) q same x.reached;
  }

  -- The first difference is at the head.
  pub Planned-head :
      (e : Draw) (q : List Draw) (w : Verdict)
      → Answers label (suc k) d
      → Trace (request label k next rescue) (e ∷ q) w
      → IsAllowed max_delays max_bound (e ∷ q)
      → d.value < e.value
      → (o : Option (List Draw)) → next_plan (max_delays - delay d) max_bound r ≡ o
      → Planned max_delays max_bound (request label k next rescue) (d ∷ r) (e ∷ q)
  unfolding complete delays
  Planned-head e q w s t a lt (some plan) h = record {
    plan = d ∷ plan;
    planned = Planned-tail plan h;
    reached = inr (inl lt);
  }
  Planned-head e q w s t a lt none h = record {
    plan = bumped d ∷ [];
    planned = Planned-bump h (
        untried_below max_delays max_bound d e (s.1 ∙ sym t.0.1) lt (rw t.0.1 t.0.2)
          (a.narrow.0 (omega arith)) (ground (arith, a.within)));
    reached = elim (order e.value) [
      | inl more ↦ inr (inl more)
      | inr same ↦
          NotBefore-cons (bumped d) e (default (next (d.value + 1))) q
            (draw_path (bumped d) e (s.0 ∙ sym t.0.0) same (s.1 ∙ sym t.0.1))
            (default-NotBefore (next (d.value + 1)) q w
              (subst (λ x. Trace (next x) q w) (sym same) t.1))
    ];
  }
    where
      order : (b : ℕ) → (d.value + 1 < e.value) ⊎ (d.value + 1 ≡ e.value)
      order b = ground (arith, lt)
