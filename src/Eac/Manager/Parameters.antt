-- ===== src/Eac/Manager/Parameters.antt =====
-- The parameters of the node of kuka_iiqka_eac_driver/src/robot_manager_node.cpp, which its
-- constructor registers. Publishers, clients and subscriptions that it makes are left out.
use kuka_drivers.Prelude.{
  Bool, List, Option, String, [], false, inl, inr, pos, refl, some, true, ◌∷◌, ◌≡◌,
}
use kuka_drivers.Core.Modes.{
  ControllerType, active, joint_impedance_controller_type, joint_position_control,
  joint_position_controller_type, torque_controller_type,
}
use kuka_drivers.Core.Controllers.{update_controller_name}
use kuka_drivers.Core.Services.{Services}
use kuka_drivers.Core.Validator.{contains}
use kuka_drivers.Core.Parameters.{on_param_change}
use kuka_drivers.Core.Parameters.Values.{
  Handler, Node, ParameterValue, Registration, any_time, construct, get_int, get_string,
  get_strings, int_value, pattern_of, returning, startup_only, string_value, strings_value,
  typed_parameter, while_inactive,
}
use kuka_drivers.Core.Parameters.Registered.{NamesNone, constructed_locked}
use kuka_drivers.Eac.Manager.{EacManager}
use kuka_drivers.Eac.Manager.Settings.{
  on_control_mode_change_request, on_robot_models_change_request,
}

abbrev update_name : ControllerType → String → EacManager → EacManager × Option Bool
update_name type name em =
    let (handler, ok) = update_controller_name type name em.controller_handler in
    (record em { controller_handler = handler }, some ok)

module _ {Double : Type 0} (services : Services) (signalled : Bool) (ns : String) where
  unfoldable pub eac_registrations : List (Registration EacManager Double)
  eac_registrations =
      record {
        parameter =
            typed_parameter get_string "position_controller_name" while_inactive
              (update_name joint_position_controller_type);
        default_ = string_value "joint_trajectory_controller";
        static_ = false;
      }
      ∷ record {
        parameter =
            typed_parameter get_string "impedance_controller_name" while_inactive
              (update_name joint_impedance_controller_type);
        default_ = string_value "joint_group_impedance_controllers";
        static_ = false;
      }
      ∷ record {
        parameter =
            typed_parameter get_string "torque_controller_name" while_inactive
              (update_name torque_controller_type);
        default_ = string_value "effort_controller";
        static_ = false;
      }
      ∷ record {
        parameter =
            typed_parameter get_int "control_mode" any_time
              (λ mode em. on_control_mode_change_request services signalled (pattern_of mode) em);
        default_ = int_value (pos joint_position_control);
        static_ = false;
      }
      ∷ record {
        parameter =
            typed_parameter get_string "controller_ip" startup_only (λ ip em. (em, some true));
        default_ = string_value "";
        static_ = true;
      }
      ∷ record {
        parameter =
            typed_parameter get_strings "robot_models" startup_only
              (λ models em. returning (on_robot_models_change_request ns models em));
        default_ = strings_value ("lbr_iisy3_r760" ∷ []);
        static_ = true;
      }
      ∷ []

  unfoldable pub construct_eac_node :
      (String → Option (ParameterValue Double))
      → EacManager
      → Option (Handler EacManager Double × Node EacManager)
  unfolding eac_registrations construct
  construct_eac_node overrides initial =
      construct (λ em. em.state) eac_registrations overrides initial

  -- Once the EAC driver's node is constructed, a request that does not name the control mode is
  -- refused while the node is active, and leaves the node as it is.
  active_eac_node_unchanged :
      (initial : EacManager) (overrides : String → Option (ParameterValue Double))
      (h : Handler EacManager Double) (constructed node : Node EacManager)
      (requests : List (String × ParameterValue Double))
      → construct_eac_node overrides initial ≡ some (h, constructed)
      → node.manager.state ≡ active
      → NamesNone ("control_mode" ∷ []) requests
      → on_param_change h requests node ≡ (node, false)
  unfolding construct_eac_node eac_registrations contains
  active_eac_node_unchanged initial overrides h constructed node requests built is_active others =
      let f : false ≡ false = refl in
      constructed_locked ("control_mode" ∷ []) (λ em. em.state) eac_registrations overrides initial
        h constructed node requests (inl f, (inl f, (inl f, (inr refl, (inl f, (inl f, tt))))))
        built is_active others
