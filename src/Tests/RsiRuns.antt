-- ===== src/Tests/RsiRuns.antt =====
-- Runs of the robot manager of kuka_rsi_driver with two robots.
use kuka_drivers.Prelude.{
  Bool, List, Option, String, [], arith, false, if◌then◌else◌, inl, refl, some, str_eq, true, ℕ,
  ◌+◌, ◌==◌, ◌∷◌, ◌≡◌, ◌≢◌,
}
use kuka_drivers.Controllers.Events.{
  Cycle, EventBroadcaster, next_count, note_event, observe, scan_robots, set_counts, update,
}
use kuka_drivers.Core.Modes.{
  CallbackReturn, Lifecycle, activating, active, control_started, inactive, success, u32_max,
}
use kuka_drivers.Core.Services.{
  Services, bring_up, change_hardware_state, rollback_hardware_states, send_request,
  set_hardware_component_state,
}
use kuka_drivers.Core.Services.Effects.{last_accepted}
use kuka_drivers.Core.Services.Loops.{AcceptsAll}
use kuka_drivers.Core.Clock.{exact_clock}
use kuka_drivers.Rsi.Hardware.{Hardware, write}
use kuka_drivers.Rsi.Hardware.Counts.{wrap_mismatch}
use kuka_drivers.Rsi.Manager.{
  RobotManager, activate_hardware, begin_activation, change_cycle_time,
  hardware_deactivation_timeout, on_activate,
}
use kuka_drivers.Rsi.Manager.Activation.{on_activate_puts_back}
use kuka_drivers.Rsi.Manager.Amid.{error_event_fails_activation, on_activate_amid}

abbrev two_robots : RobotManager
two_robots = record {
  robot_models = "a" ∷ "b" ∷ [];
  use_gpio = false;
  controller_handler =
      λ k. some (record { standard_controller = "jtc"; impedance_controller = "" });
  control_mode = 1;
  cycle_time = 1;
  terminate = false;
  is_configured_active = true;
  control_mode_change_finished = false;
  state = activating;
  published = [];
  log = [];
}

abbrev accept_all : Services
accept_all log request = some true

abbrev inactive_only : Lifecycle → Option Bool
inactive_only active = some false
inactive_only _ = some true

-- Accepts everything but the activation of the robot "b".
abbrev refuse_b : Services
refuse_b log (set_hardware_component_state name state timeout) =
    if str_eq name "b" then inactive_only state else some true
refuse_b log _ = some true

refuse_b-inactive : AcceptsAll refuse_b inactive hardware_deactivation_timeout
refuse_b-inactive log name = ground arith

abbrev to_inactive : Option CallbackReturn → Lifecycle
to_inactive result = inactive

-- The robot "c" is not of the node's and was active before.
abbrev beside_c : RobotManager
beside_c = record two_robots {
  log = record { request = set_hardware_component_state "c" active 2000; reply = some true } ∷ [];
}

on_activate_puts_back_example : last_accepted "c" beside_c.log ≡ some active
unfolding on_activate begin_activation activate_hardware change_cycle_time bring_up
    change_hardware_state send_request rollback_hardware_states
on_activate_puts_back_example =
    on_activate_puts_back refuse_b to_inactive [] beside_c "c" refuse_b-inactive tt refl refl

-- The one robot that came up is put back.
rolled_back :
    last_accepted "a" (on_activate refuse_b to_inactive [] two_robots).0.log ≡ some inactive
unfolding on_activate begin_activation activate_hardware change_cycle_time bring_up
    change_hardware_state send_request rollback_hardware_states
rolled_back = refl

-- An error event behind the request for the first of two robots.
error_event_fails_activation_example :
    (on_activate_amid accept_all to_inactive (λ i. if i == 0 then 6 ∷ [] else []) [] two_robots).1
    ≢ some success
error_event_fails_activation_example =
    error_event_fails_activation accept_all to_inactive (λ i. if i == 0 then 6 ∷ [] else []) []
      two_robots (inl refl)

abbrev one_name : List String
one_name = "a" ∷ []

abbrev late_hardware : Hardware
late_hardware = record {
  is_active = true;
  msg_received = true;
  is_async_hardware = true;
  last_interpolation_count_command = 4;
  interpolation_count_initialized = true;
  mismatches = [];
}

-- Sending takes a microsecond.
abbrev send_ok : ℕ → ℕ × Bool
send_ok w = (w + 1, true)

abbrev wrapping_hardware : Hardware
wrapping_hardware = record late_hardware {
  is_async_hardware = false;
  last_interpolation_count_command = u32_max;
}

abbrev all_in_control : Cycle
all_in_control = record {
  reading = λ i. some control_started;
  lock_free = λ i. true;
  settable = λ i. true;
}

abbrev full_broadcaster : EventBroadcaster
full_broadcaster = record {
  robot_prefixes = one_name;
  robots = record { name = "a"; last_event = 3; control_active = true } ∷ [];
  interpolation_count = u32_max;
  published = [];
  commands = u32_max ∷ [];
}

wrap_mismatch_example :
    (write exact_clock (λ w. w) send_ok wrapping_hardware 0 ≡ some (wrapping_hardware, 1, true))
    × ((hw' : Hardware) × (write exact_clock (λ w. w) send_ok wrapping_hardware 1
          ≡ some (hw', 2, true))
        × (hw'.mismatches ≡ (0, 1) ∷ []))
unfolding update scan_robots observe note_event next_count set_counts
wrap_mismatch_example =
    wrap_mismatch exact_clock (λ w. w) send_ok all_in_control all_in_control full_broadcaster 0
      wrapping_hardware 0 (λ i l. refl, λ i. refl) (λ i l. refl, λ i. refl) refl refl refl refl refl
      refl refl refl
