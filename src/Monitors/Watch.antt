-- ===== src/Monitors/Watch.antt =====
-- The monitors of src/simloom/_monitors.py over the steps of a run, against what they promise.
use simloom.Prelude.{
  ℕ, ◌+◌, Bool, true, false, not, ◌&&◌, ◌||◌, Option, none, some, List, [], ◌∷◌, map, any, arith,
  if◌then◌else◌, ◌≡◌, refl, sym, ap, ap₂, ◌∙◌, All, Bool-cases, Option-cases, inl, inr, ◌↔◌,
}
use simloom.Monitors.{
  InvariantViolation, Always, Eventually, LeadsTo, MonitorSet, check_always, observe, arm,
  after_step,
}

abbrev pub from_now : ℕ → Option ℕ → Option ℕ
from_now within none = none
from_now within (some now) = some (now + within)

or_false : (a : Bool) → a || false ≡ a
or_false true = refl
or_false false = refl

some-none {ℓ} : {A : Type ℓ} {v : InvariantViolation} → some v ≡ none → A
some-none h = cc

or_assoc : (a b c : Bool) → (a || b) || c ≡ a || (b || c)
or_assoc true b c = refl
or_assoc false b c = refl

module _ {W : Type 0} where
  -- The monitors after the steps, each at its time, until the first violation.
  unfoldable pub watch : List (ℕ × W) → MonitorSet W → Option InvariantViolation × MonitorSet W
  watch [] s = (none, s)
  watch ((now, w) ∷ rest) s =
      let (found, s') = after_step now w s in
      elim found [ some violation ↦ (some violation, s') | none ↦ watch rest s' ]

  -- The steps behind the last one at which the response holds.
  pub since_response : (W → Bool) → List (ℕ × W) → List (ℕ × W)
  since_response response [] = []
  since_response response ((now, w) ∷ rest) =
      let later = since_response response rest in
      if any (λ x. response x.1) rest then later else if response w then rest else (now, w) ∷ rest

  pub first_trigger : (W → Bool) → List (ℕ × W) → Option ℕ
  first_trigger trigger [] = none
  first_trigger trigger ((now, w) ∷ rest) =
      let later = first_trigger trigger rest in if trigger w then some now else later

  -- The obligation that the steps leave open is due `within` the first trigger behind the last response;
  -- one that was open before them stays so without a response.
  abbrev pub obligation : List (ℕ × W) → (W → Bool) → (W → Bool) → ℕ → Option ℕ → Option ℕ
  obligation steps trigger response within before =
      let fresh = from_now within (first_trigger trigger (since_response response steps)) in
      if any (λ x. response x.1) steps
      then fresh
      else elim before [ none ↦ fresh | some d ↦ some d ]

  abbrev pub opened_by : List (ℕ × W) → LeadsTo W → LeadsTo W
  opened_by steps m = record m {
    armed_deadline = obligation steps m.trigger m.response m.within m.armed_deadline;
  }

  -- A goal is satisfied when its predicate held at some step.
  abbrev pub satisfied_by : List (ℕ × W) → Eventually W → Eventually W
  satisfied_by steps e = record e { satisfied = e.satisfied || any (λ x. e.predicate x.1) steps }

  observe_lem :
      (w : W) (e : Eventually W)
      → observe w e ≡ record e { satisfied = e.satisfied || e.predicate w }
  unfolding observe
  observe_lem w e = by_cases e.satisfied refl (e.predicate w) refl
    where
      by_cases :
          (s : Bool)
          → e.satisfied ≡ s
          → (b : Bool) → e.predicate w ≡ b
          → (if not s && b then record e { satisfied = true } else e)
            ≡ record e { satisfied = s || b }
      by_cases true q true r = λ i. record e { satisfied = q i }
      by_cases true q false r = λ i. record e { satisfied = q i }
      by_cases false q true r = refl
      by_cases false q false r = λ i. record e { satisfied = q i }

  any-since_response :
      (response : W → Bool) (steps : List (ℕ × W))
      → any (λ x. response x.1) steps ≡ false
      → since_response response steps ≡ steps
  unfolding since_response
  any-since_response response [] h = refl
  any-since_response response ((now, w) ∷ rest) h = ground arith

  -- What becomes of an armed deadline at a step.
  abbrev armed_at : ℕ → W → (W → Bool) → (W → Bool) → ℕ → Option ℕ → Option ℕ
  armed_at now w trigger response within none =
      if trigger w && not (response w) then some (now + within) else none
  armed_at now w trigger response within (some d) = if response w then none else some d

  arm_lem :
      (now : ℕ) (w : W) (m : LeadsTo W)
      → arm now w m ≡ record m {
        armed_deadline = armed_at now w m.trigger m.response m.within m.armed_deadline;
      }
  unfolding arm
  arm_lem now w m = by_cases m.armed_deadline refl (m.response w) (m.trigger w)
    where
      by_cases :
          (o : Option ℕ)
          → m.armed_deadline ≡ o
          → (b c : Bool)
          → (elim o [
            | some d ↦ if b then record m { armed_deadline = none } else m
            | none ↦ if c && not b then record m { armed_deadline = some (now + m.within) } else m
          ])
            ≡ record m {
              armed_deadline = elim o [
                | none ↦ if c && not b then some (now + m.within) else none
                | some d ↦ if b then none else some d
              ];
            }
      by_cases none q true true = λ i. record m { armed_deadline = q i }
      by_cases none q false true = refl
      by_cases none q b false = λ i. record m { armed_deadline = q i }
      by_cases (some d) q true c = refl
      by_cases (some d) q false c = λ i. record m { armed_deadline = q i }

  obligation-cons :
      (now : ℕ) (w : W) (rest : List (ℕ × W)) (trigger response : W → Bool) (within : ℕ)
      (before : Option ℕ)
      → obligation rest trigger response within (armed_at now w trigger response within before)
        ≡ obligation ((now, w) ∷ rest) trigger response within before
  unfolding since_response first_trigger
  obligation-cons now w rest trigger response within before =
      elim (Bool-cases (any (λ x. response x.1) rest)) [
        | inl q ↦ elim (Bool-cases (response w)) [ inl r ↦ rw (q, r) refl | inr r ↦ rw (q, r) refl ]
        | inr q ↦ last before (any-since_response response rest q) q
      ]
    where
      last :
          (before : Option ℕ)
          → since_response response rest ≡ rest
          → any (λ x. response x.1) rest ≡ false
          → obligation rest trigger response within (armed_at now w trigger response within before)
            ≡ obligation ((now, w) ∷ rest) trigger response within before
      last none e q = ground arith
      last (some d) e q = ground arith

  satisfied_by-observe :
      (now : ℕ) (w : W) (rest : List (ℕ × W)) (es : List (Eventually W))
      → map (satisfied_by rest) (map (observe w) es) ≡ map (satisfied_by ((now, w) ∷ rest)) es
  satisfied_by-observe now w rest [] = refl
  satisfied_by-observe now w rest (e ∷ es) =
      ap₂ (λ x xs. x ∷ xs)
        (ap (satisfied_by rest) (observe_lem w e) ∙ (λ i. record e {
          satisfied = or_assoc e.satisfied (e.predicate w) (any (λ x. e.predicate x.1) rest) i;
        }))
        (satisfied_by-observe now w rest es)

  opened_by-arm :
      (now : ℕ) (w : W) (rest : List (ℕ × W)) (ms : List (LeadsTo W))
      → map (opened_by rest) (map (arm now w) ms) ≡ map (opened_by ((now, w) ∷ rest)) ms
  opened_by-arm now w rest [] = refl
  opened_by-arm now w rest (m ∷ ms) =
      ap₂ (λ x xs. x ∷ xs)
        (ap (opened_by rest) (arm_lem now w m) ∙ (λ i. record m {
          armed_deadline =
              obligation-cons now w rest m.trigger m.response m.within m.armed_deadline i;
        }))
        (opened_by-arm now w rest ms)

  abbrev pub Holds : W → List (Always W) → Type 0
  Holds w ms = All (λ (m : Always W). m.predicate w ≡ true) ms

  check_always-none :
      (now : ℕ) (w : W) (ms : List (Always W)) → (check_always now w ms ≡ none) ↔ Holds w ms
  unfolding check_always
  check_always-none now w [] = ((λ h. tt), (λ h. refl))
  check_always-none now w (m ∷ ms) = (
    (λ h. elim (Bool-cases (m.predicate w)) [
      | inl e ↦ (e, (check_always-none now w ms).0 (rw e at h))
      | inr e ↦ ground arith
    ]),
    (λ h. rw h.0 ((check_always-none now w ms).1 h.1)),
  )

  abbrev stepped : ℕ → W → MonitorSet W → MonitorSet W
  stepped now w s = record s {
    eventually = map (observe w) s.eventually;
    leads_to = map (arm now w) s.leads_to;
  }

  abbrev after :
      ℕ → W → MonitorSet W → Option InvariantViolation → Option InvariantViolation × MonitorSet W
  after now w s (some v) = (some v, s)
  after now w s none = (none, stepped now w s)

  abbrev go_on :
      List (ℕ × W)
      → Option InvariantViolation × MonitorSet W
      → Option InvariantViolation × MonitorSet W
  go_on rest x = elim (x.0) [ some v ↦ (some v, x.1) | none ↦ watch rest x.1 ]

  watch-cons :
      (now : ℕ) (w : W) (rest : List (ℕ × W)) (s : MonitorSet W)
      → check_always now w s.always ≡ none
      → watch ((now, w) ∷ rest) s ≡ watch rest (stepped now w s)
  unfolding watch after_step
  watch-cons now w rest s e = ap (λ o. go_on rest (after now w s o)) e

  watch-found :
      (now : ℕ) (w : W) (rest : List (ℕ × W)) (s : MonitorSet W) (v : InvariantViolation)
      → check_always now w s.always ≡ some v
      → watch ((now, w) ∷ rest) s ≡ (some v, s)
  unfolding watch after_step
  watch-found now w rest s v e = ap (λ o. go_on rest (after now w s o)) e

  -- The steps of a run bring no safety violation just when every `always` predicate holds at every step.
  pub watch-Holds :
      (steps : List (ℕ × W)) (s : MonitorSet W)
      → ((watch steps s).0 ≡ none) ↔ All (λ x. Holds x.1 s.always) steps
  unfolding watch
  watch-Holds [] s = ((λ h. tt), (λ h. refl))
  watch-Holds ((now, w) ∷ rest) s = elim (Option-cases (check_always now w s.always)) [
    | inl e ↦
        let next = watch-cons now w rest s e in
        let x = watch-Holds rest (stepped now w s) in
        (
          (λ h. ((check_always-none now w s.always).0 e, x.0 (rw next at h))),
          (λ h. rw next (x.1 h.1)),
        )
    | inr (v, e) ↦
        let found = watch-found now w rest s v e in
        (
          (λ h. some-none (ap (λ x. x.0) (sym found) ∙ h)),
          (λ h. some-none (sym e ∙ (check_always-none now w s.always).1 h.0)),
        )
  ]

  satisfied_by-nil : (es : List (Eventually W)) → map (satisfied_by []) es ≡ es
  satisfied_by-nil [] = refl
  satisfied_by-nil (e ∷ es) =
      ap₂ (λ x xs. x ∷ xs) (λ i. record e { satisfied = or_false e.satisfied i })
        (satisfied_by-nil es)

  obligation-nil :
      (trigger response : W → Bool) (within : ℕ) (before : Option ℕ)
      → obligation [] trigger response within before ≡ before
  unfolding since_response first_trigger
  obligation-nil trigger response within none = refl
  obligation-nil trigger response within (some d) = refl

  opened_by-nil : (ms : List (LeadsTo W)) → map (opened_by []) ms ≡ ms
  opened_by-nil [] = refl
  opened_by-nil (m ∷ ms) =
      ap₂ (λ x xs. x ∷ xs)
        (λ i. record m {
          armed_deadline = obligation-nil m.trigger m.response m.within m.armed_deadline i;
        })
        (opened_by-nil ms)

  -- While no safety violation is found, `after_step` keeps track of the liveness properties of the steps so
  -- far: an `eventually` goal is satisfied just when it was, or its predicate held at a step; a `leads_to`
  -- obligation is open just when a trigger came behind the last response, and is due `within` the first
  -- such trigger, or it was open before and there was no response.
  pub watch_lem :
      (steps : List (ℕ × W)) (s : MonitorSet W)
      → (watch steps s).0 ≡ none
      → (watch steps s).1 ≡ record s {
        eventually = map (satisfied_by steps) s.eventually;
        leads_to = map (opened_by steps) s.leads_to;
      }
  unfolding watch
  watch_lem [] s h = λ i. record s {
    eventually = sym (satisfied_by-nil s.eventually) i;
    leads_to = sym (opened_by-nil s.leads_to) i;
  }
  watch_lem ((now, w) ∷ rest) s h = elim (Option-cases (check_always now w s.always)) [
    | inl e ↦
        let next = watch-cons now w rest s e in
        ap (λ x. x.1) next ∙ watch_lem rest (stepped now w s) (rw next at h) ∙ (λ i. record s {
          eventually = satisfied_by-observe now w rest s.eventually i;
          leads_to = opened_by-arm now w rest s.leads_to i;
        })
    | inr (v, e) ↦ some-none (ap (λ x. x.0) (sym (watch-found now w rest s v e)) ∙ h)
  ]
