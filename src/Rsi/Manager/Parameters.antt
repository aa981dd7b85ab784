-- ===== src/Rsi/Manager/Parameters.antt =====
-- The parameters of the nodes of kuka_rsi_driver, which the constructor in
-- src/robot_manager_base.cpp registers. Publishers, clients and subscriptions that it makes are left
-- out. `additional` stands for the virtual OnControlModeChangeRequestAdditionalTasks.
use kuka_drivers.Prelude.{
  Bool, List, Option, String, [], false, inl, inr, pos, refl, some, true, ℕ, ◌∷◌, ◌≡◌,
}
use kuka_drivers.Core.Modes.{
  ControllerType, active, joint_position_control, joint_position_controller_type,
}
use kuka_drivers.Core.Controllers.{update_controller_name}
use kuka_drivers.Core.Validator.{contains}
use kuka_drivers.Core.Parameters.{on_param_change}
use kuka_drivers.Core.Parameters.Values.{
  Handler, Node, ParameterValue, Registration, any_time, bool_value, construct, get_bool, get_int,
  get_string, get_strings, int_value, pattern_of, returning, startup_only, string_value,
  strings_value, typed_parameter, while_inactive,
}
use kuka_drivers.Core.Parameters.Registered.{NamesNone, constructed_locked}
use kuka_drivers.Rsi.Manager.{RobotManager}
use kuka_drivers.Rsi.Manager.Settings.{
  on_control_mode_change_request, on_robot_models_change_request, validate_cycle_time,
}

abbrev update_name : ControllerType → String → RobotManager → RobotManager × Option Bool
update_name type name rm =
    let (handler, ok) = update_controller_name type name rm.controller_handler in
    (record rm { controller_handler = handler }, some ok)

module _ {Double : Type 0} (additional : ℕ → RobotManager → RobotManager × Option Bool)
    (ns : String) where
  unfoldable pub rsi_registrations : List (Registration RobotManager Double)
  rsi_registrations =
      record {
        parameter =
            typed_parameter get_string "position_controller_name" while_inactive
              (update_name joint_position_controller_type);
        default_ = string_value "joint_trajectory_controller";
        static_ = false;
      }
      ∷ record {
        parameter =
            typed_parameter get_int "control_mode" any_time
              (λ mode rm. on_control_mode_change_request additional (pattern_of mode) rm);
        default_ = int_value (pos joint_position_control);
        static_ = false;
      }
      ∷ record {
        parameter =
            typed_parameter get_strings "robot_models" startup_only
              (λ models rm. returning (on_robot_models_change_request ns models rm));
        default_ = strings_value ("kr6_r700_sixx" ∷ []);
        static_ = true;
      }
      ∷ record {
        parameter =
            typed_parameter get_bool "use_gpio" startup_only
              (λ use_gpio rm. (record rm { use_gpio = use_gpio }, some true));
        default_ = bool_value false;
        static_ = true;
      }
      ∷ record {
        parameter =
            typed_parameter get_int "cycle_time" any_time
              (λ cycle rm. returning (validate_cycle_time (pattern_of cycle) rm));
        default_ = int_value (pos 1);
        static_ = false;
      }
      ∷ []

  unfoldable pub construct_rsi_node :
      (String → Option (ParameterValue Double))
      → RobotManager
      → Option (Handler RobotManager Double × Node RobotManager)
  unfolding rsi_registrations construct
  construct_rsi_node overrides initial =
      construct (λ rm. rm.state) rsi_registrations overrides initial

  -- Once a node of the RSI driver is constructed, a request that names neither the control mode nor
  -- the cycle time is refused while the node is active, and leaves the node as it is.
  active_rsi_node_unchanged :
      (initial : RobotManager) (overrides : String → Option (ParameterValue Double))
      (h : Handler RobotManager Double) (constructed node : Node RobotManager)
      (requests : List (String × ParameterValue Double))
      → construct_rsi_node overrides initial ≡ some (h, constructed)
      → node.manager.state ≡ active
      → NamesNone ("control_mode" ∷ "cycle_time" ∷ []) requests
      → on_param_change h requests node ≡ (node, false)
  unfolding construct_rsi_node rsi_registrations contains
  active_rsi_node_unchanged initial overrides h constructed node requests built is_active others =
      let f : false ≡ false = refl in
      constructed_locked ("control_mode" ∷ "cycle_time" ∷ []) (λ rm. rm.state) rsi_registrations
        overrides initial h constructed node requests
        (inl f, (inr refl, (inl f, (inl f, (inr refl, tt))))) built is_active others
