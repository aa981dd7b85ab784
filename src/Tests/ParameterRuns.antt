-- ===== src/Tests/ParameterRuns.antt =====
-- Runs of the nodes' parameters.
use kuka_drivers.Prelude.{
  Bool, Option, String, [], false, if◌then◌else◌, none, pos, refl, replicate, some, str_eq, true, ℕ,
  ◌∷◌, ◌≡◌,
}
use kuka_drivers.Core.Modes.{active, unconfigured}
use kuka_drivers.Rsi.Manager.Settings.{add_models}
use kuka_drivers.Fri.Address.{
  check_part, check_parts, read_digits, split_ip, stoi, validate_ip_adress,
}
use kuka_drivers.Fri.Manager.Settings.{
  on_control_mode_change_request, on_controller_name_change_request,
  on_joint_damping_change_request, on_joint_stiffness_change_request,
  on_receive_multiplier_change_request,
}
use kuka_drivers.Core.Parameters.{
  block_parameter, call_callback, can_set_parameter, change_all, change_one, find_param,
  is_set_allowed, on_param_change, register_parameter,
}
use kuka_drivers.Core.Parameters.Values.{
  Handler, Node, ParameterValue, construct, int_value, register_all, string_value,
}
use kuka_drivers.Fri.Manager.{FriManager, int32, interleave, validate_period}
use kuka_drivers.Fri.Manager.Parameters.{
  construct_fri_node, fri_registrations, on_robot_models_change_request,
}
use kuka_drivers.Fri.Manager.Parameters.Locked.{active_fri_node_unchanged}

abbrev new_fri : FriManager ℕ
new_fri = record {
  robot_models = [];
  send_period_ms = pos 0;
  receive_multiplier = pos 0;
  joint_stiffness = replicate 7 100;
  joint_damping = replicate 7 1;
  control_mode = 0;
  joint_pos_controller_name = "";
  joint_torque_controller_name = "";
  is_configured_active = false;
  state = unconfigured;
  published = [];
  log = [];
}

abbrev with_address : String → Option (ParameterValue ℕ)
with_address key = if str_eq key "controller_ip" then some (string_value "10.0.0.2") else none

abbrev never : ℕ → ℕ → Bool
never x y = false

abbrev node_of : {M : Type 0} → M → Node M
node_of manager = record { manager = manager; thrown = false }

-- What a construction leaves.
abbrev made_handler : {M : Type 0} → Option (Handler M ℕ × Node M) → Handler M ℕ
made_handler none = record { params = []; current_state = λ s. none }
made_handler (some made) = made.0

abbrev made_node : {M : Type 0} → M → Option (Handler M ℕ × Node M) → Node M
made_node initial none = node_of initial
made_node initial (some made) = made.1

abbrev built_fri : Option (Handler (FriManager ℕ) ℕ × Node (FriManager ℕ))
built_fri = construct_fri_node "/cell" never 0 1 new_fri with_address

is_made : {A : Type 0} → Option A → Bool
is_made none = false
is_made (some a) = true

made_of : {A : Type 0} (o : Option A) → is_made o ≡ true → (a : A) × (o ≡ some a)
unfolding is_made
made_of none e = cc
made_of (some a) e = (a, refl)

built_fri-made : is_made built_fri ≡ true
unfolding construct_fri_node fri_registrations construct register_all register_parameter
    on_param_change change_all change_one find_param can_set_parameter is_set_allowed call_callback
    block_parameter add_models on_robot_models_change_request validate_ip_adress split_ip
    check_parts check_part stoi read_digits validate_period int32
    on_receive_multiplier_change_request on_control_mode_change_request
    on_controller_name_change_request on_joint_stiffness_change_request
    on_joint_damping_change_request interleave is_made
built_fri-made = refl

fri_made : (made : Handler (FriManager ℕ) ℕ × Node (FriManager ℕ)) × (built_fri ≡ some made)
fri_made = made_of built_fri built_fri-made

active_fri_node_unchanged_example :
    let node = node_of (record new_fri { state = active }) in
    on_param_change fri_made.0.0 (("cycle_time", int_value (pos 4)) ∷ []) node ≡ (node, false)
active_fri_node_unchanged_example =
    active_fri_node_unchanged "/cell" never 0 1 new_fri with_address fri_made.0.0 fri_made.0.1
      (node_of (record new_fri { state = active })) (("cycle_time", int_value (pos 4)) ∷ [])
      fri_made.1 refl
