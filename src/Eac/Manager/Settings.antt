-- ===== src/Eac/Manager/Settings.antt =====
-- kuka_iiqka_eac_driver/src/robot_manager_node.cpp, from line 296: the callbacks of the node's
-- parameters. An int parameter is its 32-bit pattern. A result `none` is a thrown
-- `std::out_of_range`.
use kuka_drivers.Prelude.{
  Bool, List, Option, String, [], false, if◌then◌else◌, none, not, some, true, ℕ, ◌&&◌, ◌==◌, ◌||◌,
  ◌∷◌,
}
use kuka_drivers.Core.Modes.{
  joint_impedance_control, joint_position_control, joint_torque_control, u32, u8,
}
use kuka_drivers.Core.Controllers.{get_controllers_for_mode}
use kuka_drivers.Core.Services.{Services, change_controller_state, strict}
use kuka_drivers.Rsi.Manager.{is_active_state}
use kuka_drivers.Rsi.Manager.Settings.{add_models, prefix_of}
use kuka_drivers.Eac.Manager.{EacManager, control_mode_msg, on_deactivate, publish}

module _ (services : Services) where
  -- The failures of a change of mode deactivate the driver.
  abbrev pub give_up : EacManager → EacManager × Option Bool
  give_up em = ((on_deactivate services em).0, some false)

  abbrev pub start_new : Option (List String) → EacManager → EacManager × Option Bool
  start_new none em = (em, none)
  start_new (some names) em =
      let (log', started) = change_controller_state services names [] strict em.log in
      let em' = record em { log = log' } in if started then (em', some true) else give_up em'

  -- `signalled` tells whether a CONTROL_STARTED event comes within the 3 s of the wait.
  abbrev pub stop_old : Bool → ℕ → Option (List String) → EacManager → EacManager × Option Bool
  stop_old signalled target none em = (em, none)
  stop_old signalled target (some names) em =
      let (log', stopped) = change_controller_state services [] names strict em.log in
      let em' = record em { log = log' } in
      if not stopped
      then give_up em'
      else if not (em'.control_mode_change_finished || signalled)
      then give_up em'
      else start_new (get_controllers_for_mode target em'.controller_handler)
          (record em' { control_mode_change_finished = false })

  abbrev switch_mode : Bool → ℕ → EacManager → EacManager × Option Bool
  switch_mode signalled target em =
      if is_active_state em.state
      then stop_old signalled target
          (get_controllers_for_mode em.control_mode em.controller_handler) em
      else (em, some true)

  abbrev pub store_mode : ℕ → EacManager × Option Bool → EacManager × Option Bool
  store_mode target (em, some true) = (record em { control_mode = target }, some true)
  store_mode target (em, result) = (em, result)

  unfoldable pub on_control_mode_change_request : Bool → ℕ → EacManager → EacManager × Option Bool
  on_control_mode_change_request signalled control_mode em =
      let target = u8 control_mode in
      let switched =
        switch_mode signalled target (publish (control_mode_msg (u32 control_mode)) em) in
      if em.control_mode == target
      then (em, some true)
      else if not (control_mode == joint_position_control)
          && not (control_mode == joint_impedance_control)
          && not (control_mode == joint_torque_control)
      then (em, some false)
      else store_mode target switched

unfoldable pub on_robot_models_change_request :
    String → List String → EacManager → EacManager × Bool
on_robot_models_change_request ns [] em = (em, false)
on_robot_models_change_request ns (model ∷ models) em =
    let (built, ok) = add_models (prefix_of ns) [] (model ∷ models) in
    (record em { robot_models = built }, ok)
