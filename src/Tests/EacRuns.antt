-- ===== src/Tests/EacRuns.antt =====
-- Runs of the robot manager for iiQKA.
use kuka_drivers.Prelude.{
  Bool, List, Option, [], arith, false, if◌then◌else◌, none, refl, some, str_eq, true, ℕ, ◌==◌, ◌∷◌,
  ◌≡◌,
}
use kuka_drivers.Core.Modes.{
  CallbackReturn, Lifecycle, activating, active, failure, inactive, unconfigured,
}
use kuka_drivers.Core.Services.{
  Services, bring_down, change_controller_state, change_hardware_state, rollback_hardware_states,
  send_request, set_hardware_component_state,
}
use kuka_drivers.Core.Services.Effects.{last_accepted}
use kuka_drivers.Core.Services.Loops.{AcceptsAll}
use kuka_drivers.Eac.Manager.{
  EacManager, deactivation_timeout, event_subscription_callback, handle_events, on_deactivate,
  rt_controllers,
}
use kuka_drivers.Core.Controllers.{get_controllers_for_mode, names_of}
use kuka_drivers.Eac.Manager.Amid.{activate_robots, failed_activation_puts_back, on_activate_amid}
use kuka_drivers.Eac.Manager.Fleet.{
  Call, activate, change_mode, configure, deactivate, run, set_models,
}

abbrev new_manager : EacManager
new_manager = record {
  robot_models = [];
  controller_handler =
      λ k. some (record { standard_controller = "jtc"; impedance_controller = "" });
  control_mode = 1;
  terminate = false;
  control_mode_change_finished = false;
  state = unconfigured;
  published = [];
  log = [];
}

abbrev accept_all : Services
accept_all log request = some true

abbrev to_inactive : Option CallbackReturn → Lifecycle
to_inactive result = inactive

abbrev day : List Call
day =
    set_models "/cell" ("a" ∷ "b" ∷ [])
    ∷ configure
    ∷ activate (3 ∷ [])
    ∷ change_mode true 4
    ∷ deactivate
    ∷ []

abbrev manager_or : EacManager → Option EacManager → EacManager
manager_or em none = em
manager_or em (some em') = em'

abbrev evening : EacManager
evening = manager_or new_manager (run accept_all to_inactive day new_manager)

-- The robot "c" is not of the node's and was active before.
abbrev beside_c : EacManager
beside_c = record new_manager {
  robot_models = "a" ∷ "b" ∷ [];
  state = activating;
  log = record { request = set_hardware_component_state "c" active 2000; reply = some true } ∷ [];
}

abbrev inactive_only : Lifecycle → Option Bool
inactive_only active = some false
inactive_only _ = some true

-- Accepts everything but the activation of the robot "b".
abbrev refuse_b : Services
refuse_b log (set_hardware_component_state name state timeout) =
    if str_eq name "b" then inactive_only state else some true
refuse_b log _ = some true

refuse_b-inactive : AcceptsAll refuse_b inactive deactivation_timeout
refuse_b-inactive log name = ground arith

-- A change of mode is reported behind the request for the first robot.
abbrev mode_switch : ℕ → List ℕ
mode_switch i = if i == 0 then 5 ∷ [] else []

failed_activation_puts_back_example : last_accepted "c" beside_c.log ≡ some active
unfolding on_activate_amid activate_robots handle_events event_subscription_callback
    change_hardware_state send_request rollback_hardware_states
failed_activation_puts_back_example =
    failed_activation_puts_back refuse_b to_inactive "c" mode_switch [] beside_c refuse_b-inactive
      refl refl refl refl

-- With an error event behind the request for the first robot, the second is activated all the same,
-- and stays active although the activation returns FAILURE.
abbrev error_behind_first : ℕ → List ℕ
error_behind_first i = if i == 0 then 6 ∷ [] else []

abbrev activating_fleet : EacManager
activating_fleet = record new_manager { robot_models = "a" ∷ "b" ∷ []; state = activating }

late_robot_stays_active :
    let (em, result) =
      on_activate_amid accept_all to_inactive error_behind_first [] activating_fleet in
    (result ≡ some failure)
    × (last_accepted "a" em.log ≡ some inactive)
    × (last_accepted "b" em.log ≡ some active)
unfolding on_activate_amid activate_robots handle_events event_subscription_callback on_deactivate
    bring_down change_hardware_state send_request rt_controllers get_controllers_for_mode names_of
    change_controller_state
late_robot_stays_active = (refl, refl, refl)
