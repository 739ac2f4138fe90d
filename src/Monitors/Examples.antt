-- ===== src/Monitors/Examples.antt =====
-- A set of monitors of a counter, and the theorems of Monitors at it.
use simloom.Prelude.{
  ℕ, true, false, ◌==◌, ltb, none, some, List, [], ◌∷◌, ◌≡◌, refl, ◌↔◌, ok, err, All, map,
}
use simloom.Tape.{value_error}
use simloom.Monitors.{
  safety, liveness, MonitorSet, new_monitors, validate, add_always, add_eventually, add_leads_to,
  check_always, observe, arm, after_step, earlier, earliest_eventually, earliest_leads_to,
  next_deadline, scan_on, scan, scan_then, scan_both, fire_eventually, fire_leads_to, fire_due,
  finish_eventually, finish_leads_to, finalize,
}
use simloom.Monitors.Deadlines.{IsEarliest, next_deadline-IsEarliest}
use simloom.Monitors.Due.{IsEnforced, fire_due-IsEnforced, Met, finalize-Met}
use simloom.Monitors.Watch.{watch, Holds, watch-Holds, watch_lem, satisfied_by, opened_by}

program : Unit {0}
unfolding new_monitors validate add_always add_eventually add_leads_to check_always observe arm
    after_step earlier earliest_eventually earliest_leads_to next_deadline scan_on scan scan_then
    scan_both fire_eventually fire_leads_to fire_due finish_eventually finish_leads_to finalize
    watch
program = tt

-- The counter stays below 5, gets to 3 by time 20, and is 2 at most 4 ticks after it is 1.
abbrev watched : MonitorSet ℕ
watched = record {
  always = record { label = "small"; predicate = λ n. ltb n 5 } ∷ [];
  eventually =
      record { label = "three"; predicate = λ n. n == 3; deadline = 20; satisfied = false } ∷ [];
  leads_to =
      record {
        label = "one then two";
        trigger = λ n. n == 1;
        response = λ n. n == 2;
        within = 4;
        armed_deadline = none;
      }
      ∷ [];
}

add-watched :
    add_leads_to "one then two" (λ n. n == 1) (λ n. n == 2) 4 (record watched { leads_to = [] })
    ≡ ok watched
unfolding program
add-watched = refl

add-unlabelled : add_always "" (λ (n : ℕ). true) new_monitors ≡ err value_error
unfolding program
add-unlabelled = refl

add-at_once : add_leads_to "never" (λ (n : ℕ). true) (λ n. true) 0 new_monitors ≡ err value_error
unfolding program
add-at_once = refl

-- The obligation that is open after the counter was 0 and 1.
abbrev armed : MonitorSet ℕ
armed = record watched {
  leads_to =
      record {
        label = "one then two";
        trigger = λ n. n == 1;
        response = λ n. n == 2;
        within = 4;
        armed_deadline = some 7;
      }
      ∷ [];
}

watch-armed : watch ((0, 0) ∷ (3, 1) ∷ []) watched ≡ (none, armed)
unfolding program
watch-armed = refl

next_deadline-armed : next_deadline armed ≡ some 7
unfolding program
next_deadline-armed = refl

fire_due-armed :
    (fire_due 7 1 armed).0
    ≡ some (record {
      label = "one then two";
      kind = liveness;
      t = 7;
      detail = "response did not follow trigger within its deadline";
    })
unfolding program
fire_due-armed = refl

watch-unsafe :
    (watch ((0, 0) ∷ (3, 6) ∷ []) watched).0
    ≡ some (record { label = "small"; kind = safety; t = 3; detail = "predicate became false" })
unfolding program
watch-unsafe = refl

next_deadline-IsEarliest_example : IsEarliest armed (next_deadline armed)
next_deadline-IsEarliest_example = next_deadline-IsEarliest armed

fire_due-IsEnforced_example : IsEnforced 7 1 armed (fire_due 7 1 armed)
fire_due-IsEnforced_example = fire_due-IsEnforced 7 1 armed

finalize-armed : (finalize 9 2 (record armed { eventually = [] })).0 ≡ none
unfolding program
finalize-armed = refl

finalize-Met_example : Met 2 (finalize 9 2 (record armed { eventually = [] })).1
finalize-Met_example = finalize-Met 9 2 (record armed { eventually = [] }) finalize-armed

abbrev steps : List (ℕ × ℕ)
steps = (0, 0) ∷ (3, 1) ∷ (5, 3) ∷ (6, 2) ∷ []

watch-Holds_example : ((watch steps watched).0 ≡ none) ↔ All (λ x. Holds x.1 watched.always) steps
watch-Holds_example = watch-Holds steps watched

watch-steps : (watch steps watched).0 ≡ none
unfolding program
watch-steps = refl

watch_lem_example : (watch steps watched).1 ≡ record watched {
  eventually = map (satisfied_by steps) watched.eventually;
  leads_to = map (opened_by steps) watched.leads_to;
}
watch_lem_example = watch_lem steps watched watch-steps
