-- ===== src/Fri/Manager/Transitions.antt =====
-- The lifecycle callbacks of kuka_sunrise_fri_driver/src/robot_manager_node.cpp.
use kuka_drivers.Prelude.{
  List, Option, String, [], false, if◌then◌else◌, none, not, reverse, some, true, ℕ, ◌++◌, ◌==◌,
  ◌∷◌,
}
use kuka_drivers.Core.Modes.{
  CallbackReturn, Lifecycle, active, error, error_event, failure, inactive, success, u8,
  unconfigured,
}
use kuka_drivers.Core.Services.{
  Services, best_effort, bring_down, bring_up, change_controller_state, default_timeout, strict,
}
use kuka_drivers.Fri.Manager.{
  FriManager, control_mode_msg, get_controller_name, impedance_msg, interleave, is_activating_state,
  is_active_state, is_configured_msg, non_rt_controllers, publish, send_period_change_request,
}

abbrev pub rt_controllers : List String
rt_controllers =
    "joint_state_broadcaster" ∷ "external_torque_broadcaster" ∷ "fri_state_broadcaster" ∷ []

module _ {Double : Type 0} (services : Services) where
  -- The end of `on_configure`.
  abbrev configured :
      FriManager Double → Option (List Double) → FriManager Double × Option CallbackReturn
  configured fm none = (fm, none)
  configured fm (some values) = (
    publish (is_configured_msg true)
        (record (publish (impedance_msg values) fm) { is_configured_active = true }),
    some success,
  )

  unfoldable pub on_configure : FriManager Double → FriManager Double × Option CallbackReturn
  on_configure fm =
      let (fm₁, period_set) =
        send_period_change_request services (publish (control_mode_msg fm.control_mode) fm) in
      let (log₂, all_configured) =
        bring_up services inactive default_timeout unconfigured default_timeout fm₁.robot_models 0
          fm₁.robot_models fm₁.log in
      let (log₃, started) = change_controller_state services non_rt_controllers [] strict log₂ in
      if not period_set
      then (fm₁, some failure)
      else if not all_configured
      then (record fm₁ { log = log₂ }, some failure)
      else if not started
      then (record fm₁ { log = log₃ }, some failure)
      else configured (record fm₁ { log = log₃ }) (interleave fm₁.joint_stiffness fm₁.joint_damping)

  unfoldable pub on_cleanup : FriManager Double → FriManager Double × CallbackReturn
  on_cleanup fm =
      let (log₁, stopped) =
        change_controller_state services [] non_rt_controllers best_effort fm.log in
      let (log₂, all_cleaned) =
        bring_down services unconfigured default_timeout fm.robot_models true log₁ in
      let fm' = record fm { log = log₂ } in
      let fm'' =
        if fm.is_configured_active
        then record (publish (is_configured_msg false) fm') { is_configured_active = false }
        else fm' in
      (fm'', if not stopped then error else if all_cleaned then success else failure)

  abbrev pub stop_controllers :
      Option String → FriManager Double → FriManager Double × Option CallbackReturn
  stop_controllers none fm = (fm, none)
  stop_controllers (some name) fm =
      let (log', stopped) =
        change_controller_state services ("joint_group_impedance_controller" ∷ [])
          (name ∷ rt_controllers) best_effort fm.log in
      (record fm { log = log' }, some (if stopped then success else error))

  unfoldable pub on_deactivate : FriManager Double → FriManager Double × Option CallbackReturn
  on_deactivate fm =
      let (log', all_deactivated) =
        bring_down services inactive default_timeout (reverse fm.robot_models) true fm.log in
      let fm' = record fm { log = log' } in
      if not all_deactivated
      then (fm', some error)
      else stop_controllers (get_controller_name fm) fm'

  -- `on_activate` from the start of the controllers on.
  abbrev pub start_controllers :
      Option String → FriManager Double → FriManager Double × Option CallbackReturn
  start_controllers none fm = (fm, none)
  start_controllers (some name) fm =
      let (log', started) =
        change_controller_state services (rt_controllers ++ name ∷ [])
          ("joint_group_impedance_controller" ∷ []) strict fm.log in
      let fm' = record fm { log = log' } in
      let stopped = on_deactivate fm' in
      let (fm'', period_set) = send_period_change_request services fm' in
      if not started
      then (stopped.0, elim stopped.1 [ none ↦ none | some result ↦ some failure ])
      else if not period_set
      then (fm'', some failure)
      else (fm'', some success)

  -- `deactivated` is the state in which rclcpp's `deactivate()` leaves the node for a result of its
  -- callback.
  unfoldable pub event_subscription_callback :
      (Option CallbackReturn → Lifecycle) → ℕ → FriManager Double → FriManager Double
  event_subscription_callback deactivated event fm =
      let (fm', result) = on_deactivate fm in
      if not (u8 event == error_event)
      then fm
      else if is_active_state fm.state
      then record fm' { state = deactivated result }
      else if is_activating_state fm.state
      then fm'
      else fm

  unfoldable pub handle_events :
      (Option CallbackReturn → Lifecycle) → List ℕ → FriManager Double → FriManager Double
  handle_events deactivated [] fm = fm
  handle_events deactivated (event ∷ events) fm =
      handle_events deactivated events (event_subscription_callback deactivated event fm)

  -- `events` are the hardware events that arrive during the pause of 100 ms.
  unfoldable pub on_activate :
      (Option CallbackReturn → Lifecycle)
      → List ℕ
      → FriManager Double
      → FriManager Double × Option CallbackReturn
  on_activate deactivated events fm =
      let (log', all_activated) =
        bring_up services active default_timeout inactive default_timeout fm.robot_models 0
          fm.robot_models fm.log in
      let fm' = record fm { log = log' } in
      let fm'' = handle_events deactivated events fm' in
      let started = start_controllers (get_controller_name fm'') fm'' in
      if not all_activated then (fm', some failure) else started
