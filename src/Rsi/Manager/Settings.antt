-- ===== src/Rsi/Manager/Settings.antt =====
-- kuka_rsi_driver/src/robot_manager_base.cpp, from line 275, with the control mode tasks of
-- robot_manager_node_rsi_only.cpp and robot_manager_node_extended.cpp: the callbacks of the node's
-- parameters. An int parameter is its 32-bit pattern. A result `none` is a thrown
-- `std::out_of_range`.
use Prim.Native.Char.{code}
use Prim.Native.String.{◌++◌ as append}
use kuka_drivers.Prelude.{
  Bool, List, Option, String, [], false, if◌then◌else◌, none, not, some, str_eq, true, ℕ, ◌&&◌,
  ◌++◌, ◌==◌, ◌||◌, ◌∷◌,
}
use kuka_drivers.Core.Modes.{joint_position_control, u32, u8}
use kuka_drivers.Core.Services.{Services, change_controller_state, strict}
use kuka_drivers.Core.Controllers.{get_controllers_for_mode}
use Prim.Native.Char.{code}
use Prim.Native.String.{◌++◌ as append}
use kuka_drivers.Rsi.Manager.{
  RobotManager, control_mode_msg, cycle_time_msg, is_active_state, on_deactivate, publish, rsi_12ms,
  rsi_4ms,
}

unfoldable pub validate_cycle_time : ℕ → RobotManager → RobotManager × Bool
validate_cycle_time cycle rm =
    if is_active_state rm.state
    then (rm, false)
    else if not (cycle == rsi_4ms) && not (cycle == rsi_12ms)
    then (rm, false)
    else if rm.cycle_time == cycle
    then (rm, true)
    else (record (publish (cycle_time_msg (u8 cycle)) rm) { cycle_time = cycle }, true)

-- The end of a request whose additional tasks are done.
abbrev pub store_mode : ℕ → RobotManager → Option Bool → RobotManager × Option Bool
store_mode target rm none = (rm, none)
store_mode target rm (some false) = (rm, some false)
store_mode target rm (some true) = (record rm { control_mode = target }, some true)

-- `additional` stands for the virtual OnControlModeChangeRequestAdditionalTasks.
unfoldable pub on_control_mode_change_request :
    (ℕ → RobotManager → RobotManager × Option Bool) → ℕ → RobotManager → RobotManager × Option Bool
on_control_mode_change_request additional control_mode rm =
    let target = u8 control_mode in
    let (rm', done) = additional control_mode rm in
    if rm.control_mode == target
    then (rm, some true)
    else if not (target == joint_position_control)
    then (rm, some false)
    else store_mode target rm' done

-- RobotManagerNodeRsi
unfoldable pub rsi_only_tasks : ℕ → RobotManager → RobotManager × Option Bool
rsi_only_tasks control_mode rm = (rm, some (not (is_active_state rm.state)))

module _ (services : Services) where
  -- The failures of the extended node's tasks deactivate the driver.
  abbrev pub give_up : RobotManager → RobotManager × Option Bool
  give_up rm = ((on_deactivate services rm).0, some false)

  abbrev pub start_new : Option (List String) → RobotManager → RobotManager × Option Bool
  start_new none rm = (rm, none)
  start_new (some names) rm =
      let (log', started) = change_controller_state services names [] strict rm.log in
      let rm' = record rm { log = log' } in if started then (rm', some true) else give_up rm'

  -- `signalled` tells whether a CONTROL_STARTED event comes within the 3 s of the wait.
  abbrev pub stop_old : Bool → ℕ → Option (List String) → RobotManager → RobotManager × Option Bool
  stop_old signalled target none rm = (rm, none)
  stop_old signalled target (some names) rm =
      let (log', stopped) = change_controller_state services [] names strict rm.log in
      let rm' = record rm { log = log' } in
      if not stopped
      then give_up rm'
      else if not (rm'.control_mode_change_finished || signalled)
      then give_up rm'
      else start_new (get_controllers_for_mode target rm'.controller_handler)
          (record rm' { control_mode_change_finished = false })

  -- RobotManagerNodeEkiRsi, which serves mxAutomation too
  unfoldable pub extended_tasks : Bool → ℕ → RobotManager → RobotManager × Option Bool
  extended_tasks signalled control_mode rm =
      let rm' = publish (control_mode_msg (u32 control_mode)) rm in
      if is_active_state rm.state
      then stop_old signalled (u8 control_mode)
          (get_controllers_for_mode rm.control_mode rm.controller_handler) rm'
      else (rm', some true)

-- `ns` with its leading slash removed, and an underscore behind it unless nothing is left
abbrev pub prefix_of : String → String
prefix_of String.[] = ""
prefix_of (String.◌∷◌ c s) =
    let rest = if code c == b'/' then s else (String.◌∷◌ c s) in
    if str_eq rest "" then "" else append rest "_"

-- The loop that builds robot_models_; an empty name ends it with what was built so far.
unfoldable pub add_models : String → List String → List String → List String × Bool
add_models ns built [] = (built, true)
add_models ns built (model ∷ models) =
    let rest = add_models ns (built ++ append ns model ∷ []) models in
    if str_eq model "" then (built, false) else rest

unfoldable pub on_robot_models_change_request :
    String → List String → RobotManager → RobotManager × Bool
on_robot_models_change_request ns [] rm = (rm, false)
on_robot_models_change_request ns (model ∷ models) rm =
    let (built, ok) = add_models (prefix_of ns) [] (model ∷ models) in
    (record rm { robot_models = built }, ok)
