-- ===== src/Tests/EventRuns.antt =====
-- Runs of the event broadcaster with two robots.
use kuka_drivers.Prelude.{Bool, String, [], false, refl, some, true, ℕ, ◌∷◌, ◌≡◌}
use kuka_drivers.Controllers.Events.{Cycle, EventBroadcaster, Robot, on_activate, update}
use kuka_drivers.Controllers.Events.Runs.{run, steady_count}
use kuka_drivers.Controllers.Events.Messages.{locked_events_lost}

abbrev robot_named : String → Robot
robot_named name = record { name = name; last_event = 0; control_active = false }

abbrev two_prefixes : EventBroadcaster
two_prefixes = record {
  robot_prefixes = "a" ∷ "b" ∷ [];
  robots = robot_named "a" ∷ robot_named "b" ∷ [];
  interpolation_count = 7;
  published = [];
  commands = 0 ∷ 0 ∷ [];
}

-- Every robot reports the event.
abbrev reporting : ℕ → Bool → Cycle
reporting event free = record {
  reading = λ i. some event;
  lock_free = λ i. free;
  settable = λ i. true;
}

steady_count_example :
    let eb' = run (reporting 3 true ∷ reporting 3 true ∷ []) (on_activate two_prefixes).0 in
    (eb'.interpolation_count ≡ 2) × (eb'.commands ≡ 2 ∷ 2 ∷ [])
steady_count_example =
    steady_count (reporting 3 true) (reporting 3 true ∷ []) two_prefixes
      ((λ i. refl, λ i. refl), ((λ i. refl, λ i. refl), tt))

locked_events_lost_example :
    (update (reporting 6 true) (update (reporting 6 false) two_prefixes).0).0.published ≡ []
locked_events_lost_example =
    locked_events_lost (reporting 6 false) (reporting 6 true) two_prefixes (λ j. refl) (λ j. refl)
