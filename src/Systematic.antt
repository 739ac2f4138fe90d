-- ===== src/Systematic.antt =====
-- src/simloom/_systematic.py: enumeration of the schedules within a number of delays.
pub mod Odometer
pub mod Order
pub mod Covers
pub mod Advances
pub mod Returns
mod Examples
use simloom.Prelude.{
  ℕ, zero, suc, ◌+◌, ◌-◌, Bool, true, false, ◌&&◌, Option, none, some, List, [], ◌∷◌, ◌++◌, ltb,
  leb, ◌==◌, if◌then◌else◌, length, get_elem?, take, Result, ok, err, bind_result,
}
use simloom.Tape.{Prng, Exception, value_error, Draw, fallback}
use simloom.Run.{Program, Verdict, passed, raised, RunResult, replay}
use simloom.Explore.{Failure}

pub record SystematicResult : Type 0 where
  pub schedules : ℕ
  pub failures : List Failure
  pub max_delays : ℕ
  pub exhaustive : Bool
  pub first_failure_at : Option ℕ
  pub first_failure_delays : Option ℕ
  pub first : Option RunResult

unfoldable pub proven_correct : SystematicResult → Bool
proven_correct r = elim r.failures [ [] ↦ r.exhaustive | f ∷ fs ↦ false ]

-- 1 for a choice other than the default.
abbrev pub delay : Draw → ℕ
delay d = if d.value == 0 then 0 else 1

unfoldable pub delays : List Draw → ℕ
delays [] = 0
delays (d ∷ ds) = delay d + delays ds

-- The draw has an untried alternative, and its prefix has delay budget for it.
unfoldable pub untried : ℕ → ℕ → List Draw → Draw → Bool
unfolding delays
untried max_delays max_bound before d =
    ltb d.value (d.bound - 1) && leb d.bound max_bound && ltb (delays before) max_delays

-- `while index >= 0`, for the indices below the last argument; `none` is an index of -1.
unfoldable pub last_untried : ℕ → ℕ → List Draw → ℕ → Option (ℕ × Draw)
unfolding untried
last_untried max_delays max_bound realized zero = none
last_untried max_delays max_bound realized (suc index) =
    let rest = last_untried max_delays max_bound realized index in
    elim (get_elem? realized index) [
      | none ↦ rest
      | some d ↦
          if untried max_delays max_bound (take index realized) d then some (index, d) else rest
    ]

abbrev pub bumped : Draw → Draw
bumped d = record d { value = d.value + 1 }

pub bump_at : List Draw → Option (ℕ × Draw) → Option (List Draw)
bump_at realized none = none
bump_at realized (some (index, d)) = some (take index realized ++ bumped d ∷ [])

-- The plan behind the schedule `realized`; `none` when the odometer rolls over.
unfoldable pub next_plan : ℕ → ℕ → List Draw → Option (List Draw)
unfolding bump_at last_untried
next_plan max_delays max_bound realized =
    bump_at realized (last_untried max_delays max_bound realized (length realized))

-- The variables of the loop of `explore_systematic`.
pub record Campaign : Type 0 where
  pub plan : List Draw
  pub failures : List Failure
  pub first : Option RunResult
  pub first_at : Option ℕ
  pub first_delays : Option ℕ
  pub explored : ℕ

abbrev pub start : Campaign
start = record {
  plan = [];
  failures = [];
  first = none;
  first_at = none;
  first_delays = none;
  explored = 0;
}

-- `if first is None: first, first_at, first_delays = …`
pub note_first : Option RunResult → RunResult → Campaign → Campaign
unfolding delays
note_first (some r') r c = c
note_first none r c = record c {
  first = some r;
  first_at = some c.explored;
  first_delays = some (delays r.tape);
}

-- What the loop keeps of a run.
pub note : Verdict → RunResult → Campaign → Campaign
unfolding note_first
note passed r c = record c { explored = c.explored + 1 }
note (raised e) r c =
    let explored = c.explored + 1 in
    note_first c.first r (record c {
      explored = explored;
      failures = c.failures ++ record { seed = explored; error = e } ∷ [];
    })

abbrev pub is_error : Verdict → Bool
is_error passed = false
is_error (raised e) = true

pub conclude : ℕ → Bool → Campaign → SystematicResult
conclude max_delays exhaustive c = record {
  schedules = c.explored;
  failures = c.failures;
  max_delays = max_delays;
  exhaustive = exhaustive;
  first_failure_at = c.first_at;
  first_failure_delays = c.first_delays;
  first = c.first;
}

module _ (p : Prng) (program : Program) (max_delays max_bound : ℕ) (stop_on_failure : Bool) where
  -- Behind a run: stop, roll over, or go on with the next plan.
  pub continue :
      (Campaign → Result Exception SystematicResult)
      → Verdict
      → Option (List Draw)
      → Campaign
      → Result Exception SystematicResult
  unfolding conclude
  continue loop verdict next c =
      if is_error verdict && stop_on_failure then ok (conclude max_delays false c) else elim next [
        | none ↦ ok (conclude max_delays true c)
        | some plan ↦ loop (record c { plan = plan })
      ]

  -- `while explored < max_schedules`, by recursion on the schedules that are left.
  pub explore_from : ℕ → Campaign → Result Exception SystematicResult
  unfolding continue note next_plan
  explore_from zero c = ok (conclude max_delays false c)
  explore_from (suc left) c = bind_result (replay p program c.plan fallback 0 "zero") λ r.
      continue (explore_from left) r.verdict (next_plan max_delays max_bound r.tape)
        (note r.verdict r c)

unfoldable pub explore_systematic :
    Prng
    → Program
    → (max_delays max_schedules max_bound : ℕ) → Bool
    → Result Exception SystematicResult
unfolding explore_from
explore_systematic p program max_delays max_schedules max_bound stop_on_failure =
    if ltb max_schedules 1
    then err value_error
    else if ltb max_bound 2
    then err value_error
    else explore_from p program max_delays max_bound stop_on_failure max_schedules start
