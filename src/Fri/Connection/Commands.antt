-- ===== src/Fri/Connection/Commands.antt =====
-- The commands of kuka_sunrise_fri_driver/src/connection_helpers/fri_connection.cpp. `reachable`
-- says whether the constructor of the TCP connection succeeds, and `inet_addr` is the system's.
use kuka_drivers.Prelude.{Bool, List, String, [], false, if◌then◌else◌, not, true, ℕ, ◌∷◌}
use kuka_drivers.Fri.Bytes.{serialize_double, serialize_int}
use kuka_drivers.Fri.Connection.{
  FriConnection, Outcome, activate_control_id, blocked, connect_id, deactivate_control_id,
  disconnect_id, end_fri_id, fault, joint_impedance_control_mode, position_control_mode, returned,
  send_command_and_wait, set_command_mode_id, set_control_mode_id, set_fri_config_id, start_fri_id,
}

unfoldable pub connect : Bool → List (List ℕ) → FriConnection → Outcome
connect reachable packets fc =
    let fc' = record fc { connected = reachable } in
    if not fc'.connected
    then returned false fc' packets
    else send_command_and_wait connect_id [] packets fc'

unfoldable pub close_if_success : Outcome → Outcome
close_if_success (returned true fc packets) =
    returned true (record fc { connected = false }) packets
close_if_success (returned false fc packets) = returned false fc packets
close_if_success blocked = blocked
close_if_success fault = fault

unfoldable pub disconnect : List (List ℕ) → FriConnection → Outcome
disconnect packets fc =
    if not fc.connected
    then returned true fc packets
    else close_if_success (send_command_and_wait disconnect_id [] packets fc)

unfoldable pub start_fri : List (List ℕ) → FriConnection → Outcome
start_fri = send_command_and_wait start_fri_id []

unfoldable pub end_fri : List (List ℕ) → FriConnection → Outcome
end_fri = send_command_and_wait end_fri_id []

unfoldable pub activate_control : List (List ℕ) → FriConnection → Outcome
activate_control = send_command_and_wait activate_control_id []

unfoldable pub deactivate_control : List (List ℕ) → FriConnection → Outcome
deactivate_control = send_command_and_wait deactivate_control_id []

unfoldable pub set_position_control_mode : List (List ℕ) → FriConnection → Outcome
set_position_control_mode = send_command_and_wait set_control_mode_id (position_control_mode ∷ [])

unfoldable pub set_client_command_mode : ℕ → List (List ℕ) → FriConnection → Outcome
set_client_command_mode client_command_mode =
    send_command_and_wait set_command_mode_id (client_command_mode ∷ [])

abbrev fri_config_header : List ℕ
fri_config_header = 172 ∷ 237 ∷ 0 ∷ 5 ∷ 119 ∷ 16 ∷ []

abbrev pub control_mode_header : List ℕ
control_mode_header = 172 ∷ 237 ∷ 0 ∷ 5 ∷ 119 ∷ 112 ∷ []

-- One of the two loops over the joints.
unfoldable pub serialize_joints : List ℕ → List ℕ → List ℕ
serialize_joints [] serialized = serialized
serialize_joints (value ∷ values) serialized =
    serialize_joints values (serialize_double value serialized).0

unfoldable pub impedance_data : List ℕ → List ℕ → List ℕ
impedance_data joint_stiffness joint_damping =
    let serialized = joint_impedance_control_mode ∷ control_mode_header in
    serialize_joints joint_damping (serialize_joints joint_stiffness serialized)

unfoldable pub set_joint_impedance_control_mode :
    List ℕ → List ℕ → List (List ℕ) → FriConnection → Outcome
set_joint_impedance_control_mode joint_stiffness joint_damping =
    send_command_and_wait set_control_mode_id (impedance_data joint_stiffness joint_damping)

module _ (inet_addr : String → ℕ) where
  unfoldable pub fri_config_data : String → ℕ → ℕ → ℕ → List ℕ
  fri_config_data client_ip remote_port send_period_ms receive_multiplier =
      let port = (serialize_int remote_port fri_config_header).0 in
      let period = (serialize_int send_period_ms port).0 in
      let multiplier = (serialize_int receive_multiplier period).0 in
      (serialize_int (inet_addr client_ip) multiplier).0

  unfoldable pub set_fri_config : String → ℕ → ℕ → ℕ → List (List ℕ) → FriConnection → Outcome
  set_fri_config client_ip remote_port send_period_ms receive_multiplier =
      send_command_and_wait set_fri_config_id
        (fri_config_data client_ip remote_port send_period_ms receive_multiplier)

unfoldable pub connection_lost_callback : Bool → List (List ℕ) → FriConnection → Outcome
connection_lost_callback = connect
