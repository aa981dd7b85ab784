-- ===== src/Eac/Manager.antt =====
-- kuka_iiqka_eac_driver/src/robot_manager_node.cpp: the lifecycle node that drives the robots'
-- hardware interfaces and the controllers for iiQKA.
--
-- A callback takes the node's record and returns the new one with its result. A result `none` is
-- the `std::out_of_range` that a look-up of the control mode's controllers may throw. Messages are
-- recorded in `published`, the latest first.
pub mod Activation
pub mod Amid
pub mod Fleet
pub mod Kept
pub mod Settings
pub mod Parameters
pub mod Stages
use kuka_drivers.Prelude.{
  Bool, List, Option, String, [], false, if◌then◌else◌, none, not, reverse, some, true, ℕ, ◌++◌,
  ◌==◌, ◌||◌, ◌∷◌,
}
use kuka_drivers.Core.Modes.{
  CallbackReturn, Lifecycle, active, control_mode_switch, control_started, control_stopped, error,
  error_event, failure, inactive, success, u8, unconfigured,
}
use kuka_drivers.Core.Controllers.{ControlModeMap, get_controllers_for_mode}
use kuka_drivers.Rsi.Manager.{is_activating_state, is_active_state}
use kuka_drivers.Core.Services.{
  Log, Services, best_effort, bring_down, bring_up, change_controller_state, default_timeout,
  strict,
}

pub data Publication : Type 0 where
  is_configured_msg : Bool → Publication
  control_mode_msg : ℕ → Publication

pub record EacManager : Type 0 where
  pub robot_models : List String
  pub controller_handler : ControlModeMap
  pub control_mode : ℕ
  pub terminate : Bool
  pub control_mode_change_finished : Bool
  pub state : Lifecycle
  pub published : List Publication
  pub log : Log

abbrev pub activation_timeout : ℕ
activation_timeout = 5000

abbrev pub deactivation_timeout : ℕ
deactivation_timeout = 3000

abbrev pub non_rt_controllers : List String
non_rt_controllers = "control_mode_handler" ∷ "event_broadcaster" ∷ []

abbrev pub publish : Publication → EacManager → EacManager
publish msg em = record em { published = msg ∷ em.published }

-- The real-time controllers of the current control mode.
unfoldable pub rt_controllers : EacManager → Option (List String)
rt_controllers em = elim (get_controllers_for_mode em.control_mode em.controller_handler) [
  | none ↦ none
  | some names ↦ some (names ++ "joint_state_broadcaster" ∷ [])
]

module _ (services : Services) where
  unfoldable pub on_cleanup : EacManager → EacManager × CallbackReturn
  on_cleanup em =
      let (log₁, stopped) = change_controller_state services [] non_rt_controllers strict em.log in
      let (log₂, all_cleaned) =
        bring_down services unconfigured default_timeout em.robot_models true log₁ in
      (
        publish (is_configured_msg false) (record em { log = log₂ }),
        if all_cleaned then success else failure,
      )

  unfoldable pub on_configure : EacManager → EacManager × CallbackReturn
  on_configure em =
      let em₁ = publish (control_mode_msg em.control_mode) em in
      let (log₁, all_configured) =
        bring_up services inactive default_timeout unconfigured default_timeout em₁.robot_models 0
          em₁.robot_models em₁.log in
      let em₂ = publish (is_configured_msg true) (record em₁ { log = log₁ }) in
      let (log₂, started) = change_controller_state services non_rt_controllers [] strict log₁ in
      let em₃ = record em₂ { log = log₂ } in
      if not all_configured
      then (record em₁ { log = log₁ }, failure)
      else if not started
      then ((on_cleanup em₃).0, failure)
      else (em₃, success)

  abbrev pub stop_controllers :
      Option (List String) → EacManager → EacManager × Option CallbackReturn
  stop_controllers none em = (em, none)
  stop_controllers (some names) em =
      let (log', stopped) = change_controller_state services [] names best_effort em.log in
      (record em { log = log' }, some (if stopped then success else error))

  unfoldable pub on_deactivate : EacManager → EacManager × Option CallbackReturn
  on_deactivate em =
      let (log', all_deactivated) =
        bring_down services inactive deactivation_timeout (reverse em.robot_models) true em.log in
      let em' = record em { log = log' } in
      if not all_deactivated then (em', some error) else stop_controllers (rt_controllers em) em'

  -- The loop of `on_activate`, with which it begins; `false` means that it has returned FAILURE.
  unfoldable pub activate_hardware : EacManager → EacManager × Bool
  activate_hardware em =
      let (log', all_activated) =
        bring_up services active activation_timeout inactive deactivation_timeout em.robot_models 0
          em.robot_models em.log in
      (record em { terminate = false; log = log' }, all_activated)

  abbrev pub start_controllers :
      Option (List String) → EacManager → EacManager × Option CallbackReturn
  start_controllers none em = (em, none)
  start_controllers (some names) em =
      let (log', started) = change_controller_state services names [] strict em.log in
      let em' = record em { log = log' } in
      let stopped = on_deactivate em' in
      if not started
      then (stopped.0, elim stopped.1 [ none ↦ none | some result ↦ some failure ])
      else if em'.terminate
      then (em', some failure)
      else (em', some success)

  -- `deactivated` is the state in which rclcpp's `deactivate()` leaves the node for a result of its
  -- callback.
  module _ (deactivated : Option CallbackReturn → Lifecycle) where
    abbrev pub stop_by_event : EacManager → EacManager
    stop_by_event em =
        let (em', result) = on_deactivate em in
        if is_active_state em.state
        then record em' { state = deactivated result }
        else if is_activating_state em.state
        then em'
        else em

    unfoldable pub event_subscription_callback : ℕ → EacManager → EacManager
    event_subscription_callback event em =
        if u8 event == control_started
        then record em { control_mode_change_finished = true }
        else if u8 event == control_stopped || u8 event == error_event
        then stop_by_event (record em { terminate = true })
        else if u8 event == control_mode_switch
        then record em { control_mode_change_finished = false }
        else em

    unfoldable pub handle_events : List ℕ → EacManager → EacManager
    handle_events [] em = em
    handle_events (event ∷ events) em = handle_events events (event_subscription_callback event em)

    -- `events` are the hardware events that arrive during the pause of 20 ms.
    unfoldable pub on_activate : List ℕ → EacManager → EacManager × Option CallbackReturn
    on_activate events em =
        let (em', begun) = activate_hardware em in
        let em'' = handle_events events em' in
        let finished = start_controllers (rt_controllers em'') em'' in
        if not begun then (em', some failure) else finished
