-- ===== src/Monitors/Due.antt =====
-- What `fire_due` and `finalize` of src/simloom/_monitors.py enforce.
use simloom.Prelude.{
  ℕ, suc, ◌≤◌, true, false, Option, none, some, List, [], ◌∷◌, arith, ◌≡◌, refl, All, Option-cases,
  ◌⊎◌, inl, inr,
}
use simloom.Monitors.{
  InvariantViolation, Eventually, LeadsTo, MonitorSet, scan_on, scan, scan_then, scan_both,
  fire_eventually, fire_leads_to, fire_due, finish_eventually, finish_leads_to, finalize,
}
use simloom.Monitors.Deadlines.{AnyOf, EventuallyFrom, LeadsToFrom, Due}

scan_on-All :
    {A : Type 0} (P : A → Type 0) (r : Option InvariantViolation × A) (xs : List A)
    (rest : Option InvariantViolation × List A)
    → (r.0 ≡ none → P r.1)
    → (rest.0 ≡ none → All P rest.1)
    → (scan_on r xs rest).0 ≡ none
    → All P (scan_on r xs rest).1
unfolding scan_on
scan_on-All P (none, x) xs rest h k e = (h refl, k e)
scan_on-All P (some violation, x) xs rest h k e = cc

scan-All :
    {A : Type 0} (P : A → Type 0) (check : A → Option InvariantViolation × A) (xs : List A)
    → ((x : A) → (check x).0 ≡ none → P (check x).1)
    → (scan check xs).0 ≡ none
    → All P (scan check xs).1
unfolding scan
scan-All P check [] h e = tt
scan-All P check (x ∷ xs) h e =
    scan_on-All P (check x) xs (scan check xs) (h x) (scan-All P check xs h) e

scan_on-one :
    {A : Type 0} (P : A → Type 0) (x : A) (r : Option InvariantViolation × A) (xs : List A)
    (rest : Option InvariantViolation × List A) (v : InvariantViolation)
    → (r.0 ≡ some v → P x)
    → (rest.0 ≡ some v → AnyOf P xs)
    → (scan_on r xs rest).0 ≡ some v
    → AnyOf P (x ∷ xs)
unfolding scan_on
scan_on-one P x (none, x') xs rest v h k e = inr (k e)
scan_on-one P x (some violation, x') xs rest v h k e = inl (h e)

-- The violation of a scan is that of some monitor.
scan-one :
    {A : Type 0} (P : A → Type 0) (check : A → Option InvariantViolation × A) (xs : List A)
    (v : InvariantViolation)
    → ((x : A) → (check x).0 ≡ some v → P x)
    → (scan check xs).0 ≡ some v
    → AnyOf P xs
unfolding scan
scan-one P check [] v h e = cc
scan-one P check (x ∷ xs) v h e =
    scan_on-one P x (check x) xs (scan check xs) v (h x) (scan-one P check xs v h) e

module _ {W : Type 0} (P : Eventually W → Type 0) (Q : LeadsTo W → Type 0) where
  scan_then-All :
      (r : Option InvariantViolation × List (Eventually W))
      (rest : Option InvariantViolation × List (LeadsTo W)) (s : MonitorSet W)
      → (r.0 ≡ none → All P r.1)
      → (rest.0 ≡ none → All Q rest.1)
      → (scan_then r rest s).0 ≡ none
      → All P (scan_then r rest s).1.eventually × All Q (scan_then r rest s).1.leads_to
  unfolding scan_then
  scan_then-All (none, es) rest s h k e = (h refl, k e)
  scan_then-All (some v, es) rest s h k e = cc

  scan_then-one :
      (r : Option InvariantViolation × List (Eventually W))
      (rest : Option InvariantViolation × List (LeadsTo W)) (s : MonitorSet W)
      (v : InvariantViolation)
      → (r.0 ≡ some v → AnyOf P s.eventually)
      → (rest.0 ≡ some v → AnyOf Q s.leads_to)
      → (scan_then r rest s).0 ≡ some v
      → AnyOf P s.eventually ⊎ AnyOf Q s.leads_to
  unfolding scan_then
  scan_then-one (none, es) rest s v h k e = inr (k e)
  scan_then-one (some v', es) rest s v h k e = inl (h e)

module _ {W : Type 0} (now : ℕ) (w : W) where
  -- The violation tells of a goal or an obligation that is still unmet at or past its deadline.
  abbrev pub Overdue : MonitorSet W → InvariantViolation → Type 0
  Overdue s v =
      AnyOf
        (λ (e : Eventually W).
          (e.satisfied ≡ false)
          × (e.deadline ≤ now)
          × (e.predicate w ≡ false)
          × (v.label ≡ e.label)
          × (v.t ≡ e.deadline))
        s.eventually
      ⊎ AnyOf
          (λ (m : LeadsTo W).
            (d : ℕ) × (m.armed_deadline ≡ some d)
            × (d ≤ now)
            × (m.response w ≡ false)
            × (v.label ≡ m.label)
            × (v.t ≡ d))
          s.leads_to

  fire_eventually-From :
      (e : Eventually W)
      → (fire_eventually now w e).0 ≡ none
      → EventuallyFrom (suc now) (fire_eventually now w e).1
  unfolding fire_eventually
  fire_eventually-From e h = ground arith

  fire_leads_to-From :
      (m : LeadsTo W)
      → (fire_leads_to now w m).0 ≡ none
      → LeadsToFrom (suc now) (fire_leads_to now w m).1
  unfolding fire_leads_to
  fire_leads_to-From m h d k = ground arith

  fire_eventually-Overdue :
      (e : Eventually W) (v : InvariantViolation)
      → (fire_eventually now w e).0 ≡ some v
      → (e.satisfied ≡ false)
        × (e.deadline ≤ now)
        × (e.predicate w ≡ false)
        × (v.label ≡ e.label)
        × (v.t ≡ e.deadline)
  unfolding fire_eventually
  fire_eventually-Overdue e v h = ground arith

  fire_leads_to-Overdue :
      (m : LeadsTo W) (v : InvariantViolation)
      → (fire_leads_to now w m).0 ≡ some v
      → (d : ℕ) × (m.armed_deadline ≡ some d)
        × (d ≤ now)
        × (m.response w ≡ false)
        × (v.label ≡ m.label)
        × (v.t ≡ d)
  unfolding fire_leads_to
  fire_leads_to-Overdue m v h = elim (Option-cases m.armed_deadline) [
    | inl q ↦ ground arith
    | inr (d, q) ↦ ground (arith, q)
  ]

  -- What the enforcement of the deadlines comes to.
  abbrev pub IsEnforced : MonitorSet W → Option InvariantViolation × MonitorSet W → Type 0
  IsEnforced s (none, s') = Due (suc now) s'
  IsEnforced s (some v, s') = Overdue s v

  fire_due-Due :
      (s : MonitorSet W) → (fire_due now w s).0 ≡ none → Due (suc now) (fire_due now w s).1
  unfolding fire_due scan_both
  fire_due-Due s h =
      let (eventually, leads_to) =
        scan_then-All (EventuallyFrom (suc now)) (LeadsToFrom (suc now))
          (scan (fire_eventually now w) s.eventually) (scan (fire_leads_to now w) s.leads_to) s
          (scan-All _ (fire_eventually now w) s.eventually fire_eventually-From)
          (scan-All _ (fire_leads_to now w) s.leads_to fire_leads_to-From) h in
      record { eventually = eventually; leads_to = leads_to }

  fire_due-Overdue :
      (s : MonitorSet W) (v : InvariantViolation) → (fire_due now w s).0 ≡ some v → Overdue s v
  unfolding fire_due scan_both
  fire_due-Overdue s v =
      scan_then-one _ _ (scan (fire_eventually now w) s.eventually)
        (scan (fire_leads_to now w) s.leads_to) s v
        (scan-one _ (fire_eventually now w) s.eventually v (λ e. fire_eventually-Overdue e v))
        (scan-one _ (fire_leads_to now w) s.leads_to v (λ m. fire_leads_to-Overdue m v))

-- When `fire_due` reports nothing, no armed deadline is left at or before the time it was called at, so
-- the clock can go on; when it reports a violation, this is a liveness goal that is not satisfied, or an
-- obligation that has no response, at or past its deadline, which the violation names.
pub fire_due-IsEnforced :
    {W : Type 0} (now : ℕ) (w : W) (s : MonitorSet W) → IsEnforced now w s (fire_due now w s)
fire_due-IsEnforced now w s =
    enforced now w s (fire_due now w s) (fire_due-Due now w s) (λ v. fire_due-Overdue now w s v)
  where
    enforced :
        {W : Type 0} (now : ℕ) (w : W) (s : MonitorSet W)
        (r : Option InvariantViolation × MonitorSet W)
        → (r.0 ≡ none → Due (suc now) r.1)
        → ((v : InvariantViolation) → r.0 ≡ some v → Overdue now w s v)
        → IsEnforced now w s r
    enforced now w s (none, s') h k = h refl
    enforced now w s (some v, s') h k = k v refl

module _ {W : Type 0} (w : W) where
  -- The goal is satisfied; the obligation is discharged, or answered at this moment.
  pub record Met (s : MonitorSet W) : Type 0 where
    pub eventually : All (λ (e : Eventually W). e.satisfied ≡ true) s.eventually
    pub leads_to :
        All (λ (m : LeadsTo W). (m.armed_deadline ≡ none) ⊎ (m.response w ≡ true)) s.leads_to

module _ {W : Type 0} (now : ℕ) (w : W) where
  finish_eventually-met :
      (e : Eventually W)
      → (finish_eventually now w e).0 ≡ none
      → (finish_eventually now w e).1.satisfied ≡ true
  unfolding finish_eventually
  finish_eventually-met e h = ground arith

  finish_leads_to-met :
      (m : LeadsTo W)
      → (finish_leads_to now w m).0 ≡ none
      → ((finish_leads_to now w m).1.armed_deadline ≡ none)
        ⊎ ((finish_leads_to now w m).1.response w ≡ true)
  unfolding finish_leads_to
  finish_leads_to-met m h = ground arith

-- A run that `finalize` lets end has met every liveness property: each `eventually` goal is satisfied,
-- and no `leads_to` obligation is open without its response.
pub finalize-Met :
    {W : Type 0} (now : ℕ) (w : W) (s : MonitorSet W)
    → (finalize now w s).0 ≡ none
    → Met w (finalize now w s).1
unfolding finalize scan_both
finalize-Met now w s h =
    let (eventually, leads_to) =
      scan_then-All _ _ (scan (finish_eventually now w) s.eventually)
        (scan (finish_leads_to now w) s.leads_to) s
        (scan-All _ (finish_eventually now w) s.eventually (finish_eventually-met now w))
        (scan-All _ (finish_leads_to now w) s.leads_to (finish_leads_to-met now w)) h in
    record { eventually = eventually; leads_to = leads_to }
