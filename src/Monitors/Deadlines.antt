-- ===== src/Monitors/Deadlines.antt =====
-- The deadlines of src/simloom/_monitors.py: `next_deadline` and `fire_due`.
use simloom.Prelude.{
  ℕ, ◌≤◌, false, not, Option, none, some, List, [], ◌∷◌, ltb, arith, if◌then◌else◌, ◌≡◌, sym, ap,
  ◌∙◌, All, Bool-cases, Option-cases, ◌⊎◌, inl, inr,
}
use simloom.Monitors.{
  Eventually, LeadsTo, MonitorSet, earlier, earliest_eventually, earliest_leads_to, next_deadline,
}

-- Nothing is due before `t`.
abbrev Later : ℕ → Option ℕ → Type 0
Later t none = Unit
Later t (some d) = t ≤ d

Later-earlier :
    (t : ℕ) (best : Option ℕ) (d : ℕ) → Later t (earlier best d) → Later t best × (t ≤ d)
unfolding earlier
Later-earlier t none d h = (tt, h)
Later-earlier t (some b) d h = elim (Bool-cases (ltb d b)) [
  | inl e ↦ ground arith
  | inr e ↦ ground arith
]

earlier-one : (best : Option ℕ) (d t : ℕ) → earlier best d ≡ some t → (best ≡ some t) ⊎ (d ≡ t)
unfolding earlier
earlier-one none d t h = inr (ground arith)
earlier-one (some b) d t h = elim (Bool-cases (ltb d b)) [
  | inl e ↦ inr (ground arith)
  | inr e ↦ inl (ground arith)
]

-- Some element satisfies the predicate.
abbrev pub AnyOf {ℓ} : {A : Type ℓ} → (A → Type 0) → List A → Type 0
AnyOf P [] = ⊥
AnyOf P (x ∷ xs) = P x ⊎ AnyOf P xs

same : {t : ℕ} (d d' : ℕ) → some d ≡ some d' → t ≤ d → t ≤ d'
same d d' e h = ground arith

module _ {W : Type 0} where
  abbrev pub EventuallyFrom : ℕ → Eventually W → Type 0
  EventuallyFrom t e = e.satisfied ≡ false → t ≤ e.deadline

  abbrev pub LeadsToFrom : ℕ → LeadsTo W → Type 0
  LeadsToFrom t m = (d : ℕ) → m.armed_deadline ≡ some d → t ≤ d

  -- Every armed liveness deadline is `t` or later.
  pub record Due (t : ℕ) (s : MonitorSet W) : Type 0 where
    pub eventually : All (EventuallyFrom t) s.eventually
    pub leads_to : All (LeadsToFrom t) s.leads_to

  Later-eventually :
      (t : ℕ) (best : Option ℕ) (es : List (Eventually W))
      → Later t (earliest_eventually best es)
      → Later t best × All (EventuallyFrom t) es
  unfolding earliest_eventually
  Later-eventually t best [] h = (h, tt)
  Later-eventually t best (e ∷ es) h =
      let (next, rest) =
        Later-eventually t (if not e.satisfied then earlier best e.deadline else best) es h in
      elim (Bool-cases e.satisfied) [
        | inl q ↦ (rw q at next, ((λ k. cc), rest))
        | inr q ↦
            let x = Later-earlier t best e.deadline (rw q at next) in (x.0, ((λ k. x.1), rest))
      ]

  Later-leads_to :
      (t : ℕ) (best : Option ℕ) (ms : List (LeadsTo W))
      → Later t (earliest_leads_to best ms)
      → Later t best × All (LeadsToFrom t) ms
  unfolding earliest_leads_to
  Later-leads_to t best [] h = (h, tt)
  Later-leads_to t best (m ∷ ms) h =
      let (next, rest) =
        Later-leads_to t (elim (m.armed_deadline) [ none ↦ best | some d ↦ earlier best d ]) ms h in
      elim (Option-cases m.armed_deadline) [
        | inl q ↦ (rw q at next, ((λ d k. cc), rest))
        | inr (d, q) ↦
            let x = Later-earlier t best d (rw q at next) in
            (x.0, ((λ d' k. same d d' (sym q ∙ k) x.1), rest))
      ]

  -- A deadline of `t` is armed.
  abbrev pub Armed : ℕ → MonitorSet W → Type 0
  Armed t s =
      AnyOf (λ (e : Eventually W). (e.satisfied ≡ false) × (e.deadline ≡ t)) s.eventually
      ⊎ AnyOf (λ (m : LeadsTo W). m.armed_deadline ≡ some t) s.leads_to

  eventually-one :
      (best : Option ℕ) (es : List (Eventually W)) (t : ℕ)
      → earliest_eventually best es ≡ some t
      → (best ≡ some t) ⊎ AnyOf (λ (e : Eventually W). (e.satisfied ≡ false) × (e.deadline ≡ t)) es
  unfolding earliest_eventually
  eventually-one best [] t h = inl h
  eventually-one best (e ∷ es) t h =
      elim (eventually-one (if not e.satisfied then earlier best e.deadline else best) es t h) [
        | inr later ↦ inr (inr later)
        | inl now ↦ elim (Bool-cases e.satisfied) [
          | inl q ↦ inl (rw q at now)
          | inr q ↦ elim (earlier-one best e.deadline t (rw q at now)) [
            | inl before ↦ inl before
            | inr here ↦ inr (inl (q, here))
          ]
        ]
      ]

  leads_to-one :
      (best : Option ℕ) (ms : List (LeadsTo W)) (t : ℕ)
      → earliest_leads_to best ms ≡ some t
      → (best ≡ some t) ⊎ AnyOf (λ (m : LeadsTo W). m.armed_deadline ≡ some t) ms
  unfolding earliest_leads_to
  leads_to-one best [] t h = inl h
  leads_to-one best (m ∷ ms) t h =
      elim (leads_to-one (elim (m.armed_deadline) [ none ↦ best | some d ↦ earlier best d ]) ms t
        h) [
          | inr later ↦ inr (inr later)
          | inl now ↦ elim (Option-cases m.armed_deadline) [
            | inl q ↦ inl (rw q at now)
            | inr (d, q) ↦ elim (earlier-one best d t (rw q at now)) [
              | inl before ↦ inl before
              | inr here ↦ inr (inl (q ∙ ap some here))
            ]
          ]
        ]

  -- What `next_deadline` answers: the earliest armed deadline, or that none is armed.
  abbrev pub IsEarliest : MonitorSet W → Option ℕ → Type 0
  IsEarliest s none = (t : ℕ) → Due t s
  IsEarliest s (some d) = Armed d s × Due d s

  Later-Due : (t : ℕ) (s : MonitorSet W) → Later t (next_deadline s) → Due t s
  unfolding next_deadline
  Later-Due t s h =
      let (first, leads_to) =
        Later-leads_to t (earliest_eventually none s.eventually) s.leads_to h in
      let (start, eventually) = Later-eventually t none s.eventually first in
      record { eventually = eventually; leads_to = leads_to }

  next_deadline-Armed : (s : MonitorSet W) (d : ℕ) → next_deadline s ≡ some d → Armed d s
  unfolding next_deadline
  next_deadline-Armed s d h =
      elim (leads_to-one (earliest_eventually none s.eventually) s.leads_to d h) [
        | inr found ↦ inr found
        | inl first ↦ elim (eventually-one none s.eventually d first) [
          | inr found ↦ inl found
          | inl start ↦ cc
        ]
      ]

  -- `next_deadline` is the earliest armed liveness deadline: it is armed, and no armed one is before it;
  -- it is None only when no deadline is armed.
  pub next_deadline-IsEarliest : (s : MonitorSet W) → IsEarliest s (next_deadline s)
  next_deadline-IsEarliest s = elim (Option-cases (next_deadline s)) [
    | inl e ↦ rw e (λ t. Later-Due t s (rw e tt))
    | inr (d, e) ↦ rw e (next_deadline-Armed s d e, Later-Due d s (rw e (omega arith)))
  ]
