-- ===== src/Rsi/Manager.antt =====
-- kuka_rsi_driver/src/robot_manager_base.cpp with robot_manager_node_rsi_only.cpp and
-- robot_manager_node_extended.cpp: the lifecycle node that drives the robots' hardware interfaces
-- and the controllers.
--
-- A callback takes the node's record and returns the new one with its result. A result `none` is
-- the `std::out_of_range` that a look-up of the control mode's controllers may throw. Messages are
-- recorded in `published`, the latest first.
pub mod Stages
pub mod Activation
pub mod Amid
pub mod Settings
pub mod Parameters
pub mod Requests
use Prim.Native.String.{◌++◌ as append}
use Prim.Native.Char.{code}
use kuka_drivers.Prelude.{
  Bool, List, Option, String, [], false, if◌then◌else◌, length, negsuc, none, not, pos, reverse,
  some, sub_ℕ, suc, true, ℕ, ℤ, ◌++◌, ◌/◌, ◌==◌, ◌||◌, ◌∷◌,
}
use kuka_drivers.Core.Modes.{
  CallbackReturn, Lifecycle, activating, active, control_mode_switch, control_started,
  control_stopped, error, error_event, failure, inactive, success, u32_max, u8, unconfigured,
}
use kuka_drivers.Core.Controllers.{ControlModeMap, get_controllers_for_mode}
use kuka_drivers.Core.Services.{
  Log, Services, best_effort, bring_down, bring_up, change_controller_state, default_timeout, is_ok,
  send_request, set_update_rate, strict,
}

pub data Publication : Type 0 where
  is_configured_msg : Bool → Publication
  cycle_time_msg : ℕ → Publication
  control_mode_msg : ℕ → Publication

-- enum class CycleTime over int: a 32-bit pattern with three names.
abbrev pub rsi_4ms : ℕ
rsi_4ms = 1

abbrev pub rsi_12ms : ℕ
rsi_12ms = 2

abbrev undefined_cycle : ℕ
undefined_cycle = u32_max

pub record RobotManager : Type 0 where
  pub robot_models : List String
  pub use_gpio : Bool
  pub controller_handler : ControlModeMap
  pub control_mode : ℕ
  pub cycle_time : ℕ
  pub terminate : Bool
  -- is_configured_pub_ is activated
  pub is_configured_active : Bool
  pub control_mode_change_finished : Bool
  pub state : Lifecycle
  pub published : List Publication
  pub log : Log

abbrev pub hardware_activation_timeout : ℕ
hardware_activation_timeout = 15000

abbrev pub hardware_deactivation_timeout : ℕ
hardware_deactivation_timeout = 15000

abbrev pub is_active_state : Lifecycle → Bool
is_active_state active = true
is_active_state _ = false

abbrev pub is_activating_state : Lifecycle → Bool
is_activating_state activating = true
is_activating_state _ = false

abbrev pub publish : Publication → RobotManager → RobotManager
publish msg rm = record rm { published = msg ∷ rm.published }

unfoldable pub cycle_time_to_int : ℕ → ℤ
cycle_time_to_int cycle =
    if cycle == rsi_4ms then pos 4 else if cycle == rsi_12ms then pos 12 else negsuc 0

-- `1000 / ms` on int, which rounds towards zero
abbrev rate_of : ℤ → ℤ
rate_of (pos ms) = pos (1000 / ms)
rate_of (negsuc ms) = sub_ℕ 0 (1000 / suc ms)

module _ (services : Services) where
  unfoldable pub change_cycle_time : ℕ → RobotManager → RobotManager × Bool
  unfolding cycle_time_to_int
  change_cycle_time cycle rm =
      if not (length rm.robot_models == 1)
      then (rm, true)
      else (let (log', reply) =
            send_request services (set_update_rate (rate_of (cycle_time_to_int cycle))) rm.log in
          (record rm { log = log' }, is_ok reply))

  unfoldable pub cleanup_driver : List String → RobotManager → RobotManager × CallbackReturn
  cleanup_driver controllers rm =
      let (log₁, stopped) = change_controller_state services [] controllers strict rm.log in
      let (log₂, all_cleaned) =
        bring_down services unconfigured default_timeout rm.robot_models true log₁ in
      let rm' = record rm { log = log₂ } in
      let rm'' =
        if rm.is_configured_active
        then record (publish (is_configured_msg false) rm') { is_configured_active = false }
        else rm' in
      (rm'', if all_cleaned then success else failure)

  abbrev configured : RobotManager → RobotManager
  configured rm =
      publish (cycle_time_msg (u8 rm.cycle_time))
        (publish (is_configured_msg true) (record rm { is_configured_active = true }))

  -- `on_cleanup` of either node is `cleanup_driver` of the controllers that it configures with.
  unfoldable pub configure_driver : List String → RobotManager → RobotManager × CallbackReturn
  configure_driver controllers rm =
      let (log₁, all_configured) =
        bring_up services inactive default_timeout unconfigured default_timeout rm.robot_models 0
          rm.robot_models rm.log in
      let (log₂, started) = change_controller_state services controllers [] strict log₁ in
      if not all_configured
      then (record rm { log = log₁ }, failure)
      else if not started
      then ((cleanup_driver controllers (record rm { log = log₂ })).0, failure)
      else (configured (record rm { log = log₂ }), success)

  -- The real-time controllers of the current control mode.
  unfoldable pub rt_controllers : RobotManager → Option (List String)
  rt_controllers rm = elim (get_controllers_for_mode rm.control_mode rm.controller_handler) [
    | none ↦ none
    | some names ↦
        some (
          names ++ "joint_state_broadcaster" ∷ (if rm.use_gpio then "gpio_controller" ∷ [] else []))
  ]

  abbrev stop_controllers :
      Option (List String) → RobotManager → RobotManager × Option CallbackReturn
  stop_controllers none rm = (rm, none)
  stop_controllers (some names) rm =
      let (log', stopped) = change_controller_state services [] names best_effort rm.log in
      (record rm { log = log' }, some (if stopped then success else error))

  unfoldable pub on_deactivate : RobotManager → RobotManager × Option CallbackReturn
  on_deactivate rm =
      let (log', all_deactivated) =
        bring_down services inactive hardware_deactivation_timeout (reverse rm.robot_models) true
          rm.log in
      let rm' = record rm { log = log' } in
      if not all_deactivated then (rm', some error) else stop_controllers (rt_controllers rm) rm'

  -- The loop of `on_activate`, which is reached if the cycle time could be changed.
  unfoldable pub activate_hardware : RobotManager → Bool → RobotManager × Bool
  activate_hardware rm false = (rm, false)
  activate_hardware rm true =
      let (log', all_activated) =
        bring_up services active hardware_activation_timeout inactive hardware_deactivation_timeout
          rm.robot_models 0 rm.robot_models rm.log in
      (record rm { log = log' }, all_activated)

  -- `on_activate` up to the pause of 20 ms; `false` means that it has returned FAILURE.
  unfoldable pub begin_activation : RobotManager → RobotManager × Bool
  begin_activation rm =
      let (rm', cycle_changed) =
        change_cycle_time rm.cycle_time (record rm { terminate = false }) in
      activate_hardware rm' cycle_changed

  abbrev start_controllers :
      Option (List String) → RobotManager → RobotManager × Option CallbackReturn
  start_controllers none rm = (rm, none)
  start_controllers (some names) rm =
      let (log', started) = change_controller_state services names [] strict rm.log in
      let rm' = record rm { log = log' } in
      let stopped = on_deactivate rm' in
      if not started
      then (stopped.0, elim stopped.1 [ none ↦ none | some result ↦ some failure ])
      else if rm'.terminate
      then (rm', some failure)
      else (rm', some success)

  -- The rest of `on_activate`.
  unfoldable pub finish_activation : RobotManager → RobotManager × Option CallbackReturn
  finish_activation rm = start_controllers (rt_controllers rm) rm

  -- `deactivated` is the state in which rclcpp's `deactivate()` leaves the node for a result of its
  -- callback.
  module _ (deactivated : Option CallbackReturn → Lifecycle) where
    abbrev stop_by_event : RobotManager → RobotManager
    stop_by_event rm =
        let (rm', result) = on_deactivate rm in
        if is_active_state rm.state
        then record rm' { state = deactivated result }
        else if is_activating_state rm.state
        then rm'
        else rm

    unfoldable pub event_subscription_callback : ℕ → RobotManager → RobotManager
    event_subscription_callback event rm =
        if u8 event == error_event then stop_by_event (record rm { terminate = true }) else rm

    -- The callback of the node for EKI and mxAutomation; a CONTROL_STOPPED ends control too.
    unfoldable pub extended_event_callback : ℕ → RobotManager → RobotManager
    extended_event_callback event rm =
        if u8 event == control_started
        then record rm { control_mode_change_finished = true }
        else if u8 event == control_stopped || u8 event == error_event
        then record (stop_by_event (record rm { terminate = true })) {
          control_mode_change_finished = false;
        }
        else if u8 event == control_mode_switch
        then record rm { control_mode_change_finished = false }
        else rm

    unfoldable pub handle_events : List ℕ → RobotManager → RobotManager
    handle_events [] rm = rm
    handle_events (event ∷ events) rm = handle_events events (event_subscription_callback event rm)

    -- `events` are the hardware events that arrive during the pause.
    unfoldable pub on_activate : List ℕ → RobotManager → RobotManager × Option CallbackReturn
    on_activate events rm =
        let (rm', begun) = begin_activation rm in
        let finished = finish_activation (handle_events events rm') in
        if not begun then (rm', some failure) else finished
