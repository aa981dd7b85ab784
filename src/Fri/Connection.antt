-- ===== src/Fri/Connection.antt =====
-- kuka_sunrise_fri_driver/src/connection_helpers/fri_connection.cpp: commands to the robot
-- controller over TCP, one at a time, each waiting for its answer.
--
-- The listener thread hands every packet to `handle_received_tcp_data`. The packets that come while
-- a command waits are an argument of it, in their order; an outcome tells which are left.
pub mod Commands
pub mod Answers
pub mod Stale
pub mod Messages
use kuka_drivers.Prelude.{
  Bool, List, Option, [], false, if◌then◌else◌, none, some, true, ℕ, ◌&&◌, ◌==◌, ◌∷◌,
}

-- enum CommandState, CommandID and CommandSuccess over uint8_t; a byte of a packet is cast to them.
abbrev pub accepted : ℕ
accepted = 1

abbrev pub rejected : ℕ
rejected = 2

abbrev pub unknown : ℕ
unknown = 3

abbrev pub error_control_ended : ℕ
error_control_ended = 4

abbrev pub error_fri_ended : ℕ
error_fri_ended = 5

abbrev pub connect_id : ℕ
connect_id = 1

abbrev pub disconnect_id : ℕ
disconnect_id = 2

abbrev pub start_fri_id : ℕ
start_fri_id = 3

abbrev pub end_fri_id : ℕ
end_fri_id = 4

abbrev pub activate_control_id : ℕ
activate_control_id = 5

abbrev pub deactivate_control_id : ℕ
deactivate_control_id = 6

abbrev pub set_fri_config_id : ℕ
set_fri_config_id = 8

abbrev pub set_control_mode_id : ℕ
set_control_mode_id = 10

abbrev pub set_command_mode_id : ℕ
set_command_mode_id = 12

abbrev pub command_success : ℕ
command_success = 1

abbrev command_no_success : ℕ
command_no_success = 2

abbrev pub position_control_mode : ℕ
position_control_mode = 1

abbrev pub joint_impedance_control_mode : ℕ
joint_impedance_control_mode = 2

pub data Handler : Type 0 where
  handle_control_ended_error handle_fri_ended_error : Handler

pub record FriConnection : Type 0 where
  -- tcp_connection_ is not null
  pub connected : Bool
  pub last_command_state : ℕ
  pub last_command_id : ℕ
  pub last_command_success : ℕ
  pub answer_wanted : Bool
  pub answer_received : Bool
  -- the packets sent and the handlers started in threads of their own, the latest first
  pub sent : List (List ℕ)
  pub handlers : List Handler

-- The constructor.
abbrev pub new_connection : FriConnection
new_connection = record {
  connected = false;
  last_command_state = accepted;
  last_command_id = connect_id;
  last_command_success = command_no_success;
  answer_wanted = false;
  answer_received = false;
  sent = [];
  handlers = [];
}

abbrev ended : ℕ → Handler → FriConnection → FriConnection
ended state handler fc =
    if fc.answer_wanted
    then record fc { last_command_state = state; answer_received = true }
    else record fc { handlers = handler ∷ fc.handlers }

-- `data[1]` and `data[2]` of a packet that is too short are reads out of bounds: `none`.
abbrev take_accepted : List ℕ → FriConnection → Option FriConnection
take_accepted (id ∷ result ∷ rest) fc = some (record fc {
  last_command_state = accepted;
  last_command_id = id;
  last_command_success = result;
  answer_received = true;
})
take_accepted (id ∷ []) fc = none
take_accepted [] fc = none

abbrev take_rejected : List ℕ → FriConnection → Option FriConnection
take_rejected (id ∷ rest) fc =
    some (record fc { last_command_state = rejected; last_command_id = id; answer_received = true })
take_rejected [] fc = none

unfoldable pub handle_received_tcp_data : List ℕ → FriConnection → Option FriConnection
handle_received_tcp_data [] fc = some fc
handle_received_tcp_data (state ∷ rest) fc =
    if state == accepted
    then take_accepted rest fc
    else if state == rejected
    then take_rejected rest fc
    else if state == error_control_ended
    then some (ended error_control_ended handle_control_ended_error fc)
    else if state == error_fri_ended
    then some (ended error_fri_ended handle_fri_ended_error fc)
    else some (record fc { last_command_state = unknown; answer_received = true })

unfoldable pub assert_last_command_success : ℕ → FriConnection → Bool
assert_last_command_success id fc =
    fc.last_command_state == accepted
    && fc.last_command_id == id
    && fc.last_command_success == command_success

-- How a call ends: it returns, with the packets that it has not consumed; it waits for ever, as no
-- packet is left; or it reads out of bounds or through the null `tcp_connection_`.
pub data Outcome : Type 0 where
  returned : Bool → FriConnection → List (List ℕ) → Outcome
  blocked : Outcome
  fault : Outcome

abbrev finish : ℕ → FriConnection → List (List ℕ) → Outcome
finish id fc packets =
    returned (assert_last_command_success id fc)
      (record fc { answer_received = false; answer_wanted = false }) packets

-- `cv_.wait(lk, [this] { return answer_received_; })` and what follows it.
unfoldable pub wait_for_answer : ℕ → List (List ℕ) → FriConnection → Outcome
wait_for_answer id [] fc = if fc.answer_received then finish id fc [] else blocked
wait_for_answer id (packet ∷ packets) fc =
    let next : Outcome = elim (handle_received_tcp_data packet fc) [
      | none ↦ fault
      | some fc' ↦ wait_for_answer id packets fc'
    ] in
    if fc.answer_received then finish id fc (packet ∷ packets) else next

-- Both overloads: a command with no data is sent as its one byte.
unfoldable pub send_command_and_wait : ℕ → List ℕ → List (List ℕ) → FriConnection → Outcome
send_command_and_wait id command_data packets fc =
    let fc' = record fc { answer_wanted = true; sent = (id ∷ command_data) ∷ fc.sent } in
    if fc.connected then wait_for_answer id packets fc' else fault
