-- ===== src/Monitors.antt =====
-- src/simloom/_monitors.py: the properties that are checked between the steps of a run. Predicates are
-- functions of the user's state, and times are numbers of ticks of the virtual clock.
pub mod Deadlines
pub mod Due
mod Examples
pub mod Watch
use simloom.Prelude.{
  ℕ, zero, suc, ◌+◌, String, Bool, true, false, not, ◌&&◌, Option, none, some, List, [], ◌∷◌, ◌++◌,
  map, ltb, leb, ◌==◌, str_eq, if◌then◌else◌, Result, ok, err,
}
use simloom.Tape.{Exception, value_error}

pub data Kind : Type 0 where
  safety liveness : Kind

pub record InvariantViolation : Type 0 where
  pub label : String
  pub kind : Kind
  pub t : ℕ
  pub detail : String

pub record Always (W : Type 0) : Type 0 where
  pub label : String
  pub predicate : W → Bool

pub record Eventually (W : Type 0) : Type 0 where
  pub label : String
  pub predicate : W → Bool
  pub deadline : ℕ
  pub satisfied : Bool

pub record LeadsTo (W : Type 0) : Type 0 where
  pub label : String
  pub trigger : W → Bool
  pub response : W → Bool
  pub within : ℕ
  pub armed_deadline : Option ℕ

pub record MonitorSet (W : Type 0) : Type 0 where
  pub always : List (Always W)
  pub eventually : List (Eventually W)
  pub leads_to : List (LeadsTo W)

-- `_validate`, of a predicate that is a plain callable.
pub validate : {A : Type 0} → String → A → Result Exception A
validate label a = if str_eq label "" then err value_error else ok a

-- `best is None or deadline < best`
unfoldable pub earlier : Option ℕ → ℕ → Option ℕ
earlier none deadline = some deadline
earlier (some best) deadline = if ltb deadline best then some deadline else some best

-- A loop that updates the monitors one by one, and returns at a violation: what follows is kept.
unfoldable pub scan_on :
    {A : Type 0}
    → Option InvariantViolation × A
    → List A
    → Option InvariantViolation × List A
    → Option InvariantViolation × List A
scan_on (some violation, x) xs rest = (some violation, x ∷ xs)
scan_on (none, x) xs rest = (rest.0, x ∷ rest.1)

unfoldable pub scan :
    {A : Type 0} → (A → Option InvariantViolation × A) → List A → Option InvariantViolation × List A
scan check [] = (none, [])
scan check (x ∷ xs) = let rest = scan check xs in scan_on (check x) xs rest

module _ {W : Type 0} where
  unfoldable pub new_monitors : MonitorSet W
  new_monitors = record { always = []; eventually = []; leads_to = [] }

  pub add_always : String → (W → Bool) → MonitorSet W → Result Exception (MonitorSet W)
  add_always label predicate s =
      validate label
        (record s { always = s.always ++ record { label = label; predicate = predicate } ∷ [] })

  pub add_eventually : String → (W → Bool) → ℕ → MonitorSet W → Result Exception (MonitorSet W)
  add_eventually label predicate deadline s = validate label (record s {
    eventually =
        s.eventually
        ++ record { label = label; predicate = predicate; deadline = deadline; satisfied = false }
          ∷ [];
  })

  pub add_leads_to :
      String → (W → Bool) → (W → Bool) → ℕ → MonitorSet W → Result Exception (MonitorSet W)
  add_leads_to label trigger response within s =
      if leb within 0
      then err value_error
      else validate label (record s {
        leads_to =
            s.leads_to
            ++ record {
              label = label;
              trigger = trigger;
              response = response;
              within = within;
              armed_deadline = none;
            }
              ∷ [];
      })

  -- `for m in self._always: if not m.predicate(): return InvariantViolation(...)`
  unfoldable pub check_always : ℕ → W → List (Always W) → Option InvariantViolation
  check_always now w [] = none
  check_always now w (m ∷ ms) =
      let rest = check_always now w ms in
      if not (m.predicate w)
      then some
          (record { label = m.label; kind = safety; t = now; detail = "predicate became false" })
      else rest

  unfoldable pub observe : W → Eventually W → Eventually W
  observe w e = if not e.satisfied && e.predicate w then record e { satisfied = true } else e

  unfoldable pub arm : ℕ → W → LeadsTo W → LeadsTo W
  arm now w m = elim (m.armed_deadline) [
    | some d ↦ if m.response w then record m { armed_deadline = none } else m
    | none ↦
        if m.trigger w && not (m.response w)
        then record m { armed_deadline = some (now + m.within) }
        else m
  ]

  unfoldable pub after_step : ℕ → W → MonitorSet W → Option InvariantViolation × MonitorSet W
  after_step now w s = elim (check_always now w s.always) [
    | some violation ↦ (some violation, s)
    | none ↦ (
      none,
      record s { eventually = map (observe w) s.eventually; leads_to = map (arm now w) s.leads_to },
    )
  ]

  unfoldable pub earliest_eventually : Option ℕ → List (Eventually W) → Option ℕ
  earliest_eventually best [] = best
  earliest_eventually best (e ∷ es) =
      earliest_eventually (if not e.satisfied then earlier best e.deadline else best) es

  unfoldable pub earliest_leads_to : Option ℕ → List (LeadsTo W) → Option ℕ
  earliest_leads_to best [] = best
  earliest_leads_to best (m ∷ ms) =
      earliest_leads_to (elim (m.armed_deadline) [ none ↦ best | some d ↦ earlier best d ]) ms

  unfoldable pub next_deadline : MonitorSet W → Option ℕ
  next_deadline s = earliest_leads_to (earliest_eventually none s.eventually) s.leads_to

  -- The two loops, one after the other.
  unfoldable pub scan_then :
      Option InvariantViolation × List (Eventually W)
      → Option InvariantViolation × List (LeadsTo W)
      → MonitorSet W
      → Option InvariantViolation × MonitorSet W
  scan_then (some violation, eventually) rest s =
      (some violation, record s { eventually = eventually })
  scan_then (none, eventually) rest s =
      (rest.0, record s { eventually = eventually; leads_to = rest.1 })

  unfoldable pub scan_both :
      (Eventually W → Option InvariantViolation × Eventually W)
      → (LeadsTo W → Option InvariantViolation × LeadsTo W)
      → MonitorSet W
      → Option InvariantViolation × MonitorSet W
  scan_both check_eventually check_leads_to s =
      scan_then (scan check_eventually s.eventually) (scan check_leads_to s.leads_to) s

  unfoldable pub fire_eventually : ℕ → W → Eventually W → Option InvariantViolation × Eventually W
  fire_eventually now w e =
      if not e.satisfied && leb e.deadline now
      then (if e.predicate w then (none, record e { satisfied = true }) else (
        some (record {
          label = e.label;
          kind = liveness;
          t = e.deadline;
          detail = "not satisfied within its deadline";
        }),
        e,
      ))
      else (none, e)

  unfoldable pub fire_leads_to : ℕ → W → LeadsTo W → Option InvariantViolation × LeadsTo W
  fire_leads_to now w m = elim (m.armed_deadline) [
    | none ↦ (none, m)
    | some d ↦
        if leb d now
        then (if m.response w then (none, record m { armed_deadline = none }) else (
          some (record {
            label = m.label;
            kind = liveness;
            t = d;
            detail = "response did not follow trigger within its deadline";
          }),
          m,
        ))
        else (none, m)
  ]

  unfoldable pub fire_due : ℕ → W → MonitorSet W → Option InvariantViolation × MonitorSet W
  fire_due now w s = scan_both (fire_eventually now w) (fire_leads_to now w) s

  pub finish_eventually : ℕ → W → Eventually W → Option InvariantViolation × Eventually W
  finish_eventually now w e =
      if not e.satisfied
      then (if e.predicate w then (none, record e { satisfied = true }) else (
        some (record {
          label = e.label;
          kind = liveness;
          t = now;
          detail = "never satisfied before the run ended";
        }),
        e,
      ))
      else (none, e)

  pub finish_leads_to : ℕ → W → LeadsTo W → Option InvariantViolation × LeadsTo W
  finish_leads_to now w m = elim (m.armed_deadline) [
    | none ↦ (none, m)
    | some d ↦
        if not (m.response w)
        then (
          some (record {
            label = m.label;
            kind = liveness;
            t = now;
            detail = "response still pending when the run ended";
          }),
          m,
        )
        else (none, m)
  ]

  pub finalize : ℕ → W → MonitorSet W → Option InvariantViolation × MonitorSet W
  finalize now w s = scan_both (finish_eventually now w) (finish_leads_to now w) s
