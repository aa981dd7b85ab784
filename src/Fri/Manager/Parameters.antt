-- ===== src/Fri/Manager/Parameters.antt =====
-- The parameters of the node of kuka_sunrise_fri_driver/src/robot_manager_node.cpp: its constructor,
-- which registers them, and the callback of the robot models. Publishers, clients and subscriptions
-- that the constructor makes are left out.
pub mod Locked
use kuka_drivers.Prelude.{Bool, List, Option, String, [], false, pos, true, ◌∷◌}
use kuka_drivers.Core.Modes.{
  joint_position_control, joint_position_controller_type, torque_controller_type,
}
use kuka_drivers.Core.Parameters.Values.{
  Handler, Node, ParameterValue, Registration, bytes_of, construct, doubles_value, get_doubles,
  get_int, get_string, get_strings, int_value, returning, startup_only, string_value, strings_value,
  typed_parameter, while_inactive,
}
use kuka_drivers.Rsi.Manager.Settings.{add_models, prefix_of}
use kuka_drivers.Fri.Address.{validate_ip_adress}
use kuka_drivers.Fri.Manager.Settings.{
  on_control_mode_change_request, on_controller_name_change_request,
  on_joint_damping_change_request, on_joint_stiffness_change_request,
  on_receive_multiplier_change_request,
}
use kuka_drivers.Fri.Manager.{FriManager, int32, validate_period}

unfoldable pub on_robot_models_change_request :
    {Double : Type 0} → String → List String → FriManager Double → FriManager Double × Bool
on_robot_models_change_request ns [] fm = (fm, false)
on_robot_models_change_request ns (model ∷ models) fm =
    let (built, ok) = add_models (prefix_of ns) [] (model ∷ models) in
    (record fm { robot_models = built }, ok)

module _ {Double : Type 0} where
  module _ (ns : String) (below : Double → Double → Bool) (zero_double one_double : Double)
      (initial : FriManager Double) where
    unfoldable pub fri_registrations : List (Registration (FriManager Double) Double)
    fri_registrations =
        record {
          parameter =
              typed_parameter get_strings "robot_models" startup_only
                (λ models fm. returning (on_robot_models_change_request ns models fm));
          default_ = strings_value ("lbr_iiwa14_r820" ∷ []);
          static_ = true;
        }
        ∷ record {
          parameter =
              typed_parameter get_string "controller_ip" startup_only
                (λ ip fm. (fm, validate_ip_adress (bytes_of ip)));
          default_ = string_value "";
          static_ = true;
        }
        ∷ record {
          parameter =
              typed_parameter get_int "cycle_time" while_inactive
                (λ period fm. returning (validate_period (int32 period) fm));
          default_ = int_value (pos 10);
          static_ = false;
        }
        ∷ record {
          parameter = typed_parameter get_int "receive_multiplier" while_inactive (λ multiplier fm.
              returning (on_receive_multiplier_change_request (int32 multiplier) fm));
          default_ = int_value (pos 1);
          static_ = false;
        }
        ∷ record {
          parameter =
              typed_parameter get_int "control_mode" while_inactive
                (λ mode fm. returning (on_control_mode_change_request (int32 mode) fm));
          default_ = int_value (pos joint_position_control);
          static_ = false;
        }
        ∷ record {
          parameter =
              typed_parameter get_string "position_controller_name" while_inactive (λ name fm.
                returning
                  (on_controller_name_change_request name joint_position_controller_type fm));
          default_ = string_value "";
          static_ = false;
        }
        ∷ record {
          parameter = typed_parameter get_string "torque_controller_name" while_inactive (λ name fm.
              returning (on_controller_name_change_request name torque_controller_type fm));
          default_ = string_value "";
          static_ = false;
        }
        ∷ record {
          parameter =
              typed_parameter get_doubles "joint_stiffness" while_inactive
                (on_joint_stiffness_change_request below zero_double one_double);
          default_ = doubles_value initial.joint_stiffness;
          static_ = false;
        }
        ∷ record {
          parameter =
              typed_parameter get_doubles "joint_damping" while_inactive
                (on_joint_damping_change_request below zero_double one_double);
          default_ = doubles_value initial.joint_damping;
          static_ = false;
        }
        ∷ []

    unfoldable pub construct_fri_node :
        (String → Option (ParameterValue Double))
        → Option (Handler (FriManager Double) Double × Node (FriManager Double))
    unfolding fri_registrations construct
    construct_fri_node overrides = construct (λ fm. fm.state) fri_registrations overrides initial
