-- ===== src/Tests/RsiBaseRuns.antt =====
-- Runs of the hardware interfaces of kuka_rsi_driver and of the reader of their configuration.
use kuka_drivers.Prelude.{
  Bool, List, Option, String, [], false, if◌then◌else◌, inl, length, ltb, none, not, pos, refl,
  some, str_eq, true, ℕ, ◌+◌, ◌==◌, ◌∷◌, ◌≡◌, ◌≢◌,
}
use kuka_drivers.Core.Modes.{command_accepted, control_started, error_event, success}
use kuka_drivers.Core.Clock.{exact_clock}
use kuka_drivers.Rsi.Xml.{
  JointField, MotionStateXml, Yaml, position_signal, torque_signal, velocity_signal,
}
use kuka_drivers.Rsi.Xml.Motion.{
  append_joint_fields, append_optional_joint_fields, field_texts, optional_fields,
  parse_joint_motion_state, position_fields, text_of,
}
use kuka_drivers.Rsi.Status.{
  StatusInterfaces, drives_are_powered, is_emergency_stop_active, is_krc_in_ext_mode,
  is_motion_possible, wait_for_drives,
}
use kuka_drivers.Rsi.Base.{
  Flags, Robot, RsiHardware, error_code, ok_code, receive, reset_diagnostics, save_gpio_values,
  send_commands, set_server_event, take_motion_state,
}
use kuka_drivers.Rsi.Base.Setup.{HardwareInfo}
use kuka_drivers.Rsi.Base.Gpio.{
  copy_by_name, copy_gpio_states_to_commands, copy_states_to_commands, lookup, named_values,
  states_to_commands_map,
}
use kuka_drivers.Rsi.Base.Activation.{
  change_cycle_time, extended_activation, first_commands, first_cycle, rsi_only_activate,
  start_session,
}
use kuka_drivers.Rsi.Base.Reading.{
  check_status, eki_rsi, extended_read, fault_is_reported, mxa_rsi, reports_error,
}
use kuka_drivers.Rsi.Base.Connecting.{
  Arriving, Connection, connect_robot, extended_configure, on_connected, read_addresses, report_of,
  set_up_robot, wait_for_report, waits_for_ever,
}
use kuka_drivers.Rsi.Base.Connecting.Reconnecting.{late_report_ignored}
use kuka_drivers.Rsi.Xml.Fields.{ExtendsBy, section_described}
use kuka_drivers.Rsi.Base.Power.{extended_activation_success}
use kuka_drivers.Rsi.Base.Unseen.{signalled, unseen_activation_succeeds}

-- A file as a table of numbered nodes: 0 is a section of joints with the list 1 of positions, 2 its
-- one entry with the text 3 for each key, 5 the root, 6 the configuration and 7 a motion state
-- section without joints. 9 is not defined.
abbrev child_number : String → ℕ → ℕ
child_number key node =
    if node == 0
    then if str_eq key "positions" then 1 else 9
    else if node == 2
    then 3
    else if node == 5
    then 6
    else if node == 6
    then 7
    else 9

abbrev entries : ℕ → List ℕ
entries node = if node == 1 then 2 ∷ [] else []

abbrev file_table : Yaml ℕ
file_table = record {
  subscript = λ key node. some (child_number key node);
  at_index = λ i node. none;
  is_defined = λ node. not (node == 9);
  size = λ node. length (entries node);
  items = entries;
  as_string = λ node. if node == 3 then some "A1" else none;
  as_bool = λ node. none;
}

abbrev new_motion : MotionStateXml
new_motion = record {
  cartesian_enabled = false;
  cartesian_xml_element = "RIst";
  cartesian_xml_attributes = "X" ∷ [];
  joint_fields = [];
  gpio_xml_element = "GPIO";
  gpio_xml_attributes = [];
}

abbrev one_field : MotionStateXml
one_field = record new_motion {
  joint_fields =
      record {
        joint_identifier = "A1";
        signal_type = position_signal;
        xml_element = "A1";
        xml_attribute = "A1";
      }
      ∷ [];
}

section_described_example :
    (positions : List JointField) × (velocities : List JointField) × ExtendsBy file_table
      position_signal "positions" 0 1 [] positions
    × ExtendsBy file_table velocity_signal "velocities" 0 0 positions velocities
    × ExtendsBy file_table torque_signal "torques" 0 0 velocities one_field.joint_fields
unfolding parse_joint_motion_state position_fields append_joint_fields field_texts text_of
    optional_fields append_optional_joint_fields
section_described_example =
    section_described file_table 1 0 new_motion one_field (λ node. refl) refl

abbrev all_flags : Flags
all_flags = record {
  has_velocity_state_interface = true;
  has_torque_state_interface = true;
  has_velocity_command_interface = true;
  has_torque_command_interface = true;
}

abbrev pub off_in_ext : StatusInterfaces
off_in_ext = record {
  control_mode = 0;
  cycle_time = 0;
  drives_powered = 0;
  emergency_stop = 0;
  guard_stop = 0;
  in_motion = 0;
  motion_possible = 0;
  operation_mode = 4;
  robot_stopped = 1;
}

-- The drives come on after 150 ms.
abbrev slow_drives : ℕ → StatusInterfaces
slow_drives w = record off_in_ext { drives_powered = if ltb w 150000 then 0 else 1 }

abbrev state_values : List ℕ
state_values = 5 ∷ 6 ∷ []

abbrev command_values : List ℕ
command_values = 1 ∷ 2 ∷ []

copy_by_name_example :
    copy_states_to_commands
      (states_to_commands_map ("a" ∷ "b" ∷ []) ("b" ∷ "c" ∷ []))
      state_values
      command_values
    ≡ some (named_values ("a" ∷ "b" ∷ []) ("b" ∷ "c" ∷ []) state_values command_values)
copy_by_name_example =
    copy_by_name ("a" ∷ "b" ∷ []) ("b" ∷ "c" ∷ []) state_values command_values refl refl

-- The command "b" has the value of the state "b".
copied : named_values ("a" ∷ "b" ∷ []) ("b" ∷ "c" ∷ []) state_values command_values ≡ 1 ∷ 5 ∷ []
unfolding named_values lookup
copied = refl

-- A robot with one joint that stands at 7.
abbrev standing : Robot ℕ ℕ
standing = record {
  receive_motion_state = λ timeout w. (w, ok_code);
  measured_positions = λ w. 7 ∷ [];
  measured_velocities = λ w. 0 ∷ [];
  measured_torques = λ w. 0 ∷ [];
  gpio_values = λ w. [];
  get_delay = λ w. 0;
  get_ipoc = λ w. 4;
  add_joint_position_values = λ ps w. w;
  add_velocity_values = λ vs w. w;
  add_torque_values = λ ts w. w;
  add_gpio_values = λ gs w. w;
  send_control_signal = λ w. (w + 1, ok_code);
  set_cycle_time = λ n w. (w, ok_code);
  start_controlling = λ mode w. (w, ok_code);
  stop_controlling = λ w. w;
  reset_control_signal = λ w. (w, ok_code);
  cancel_rsi_program = λ w. w;
  turn_on_drives = λ w. w;
  turn_off_drives = λ w. w;
}

abbrev pub one_joint : RsiHardware ℕ
one_joint = record {
  position_states = 0 ∷ [];
  velocity_states = 0 ∷ [];
  torque_states = 0 ∷ [];
  gpio_states = [];
  position_commands = 9 ∷ [];
  velocity_commands = 9 ∷ [];
  torque_commands = 9 ∷ [];
  gpio_commands = [];
  flags = all_flags;
  server_state = 0;
  last_event = 0;
  gpio_states_to_commands_map = [];
  runtime = record {
    is_active = false;
    msg_received = false;
    is_async_hardware = false;
    last_interpolation_count_command = 0;
    interpolation_count_initialized = true;
    mismatches = [];
  };
  packet_loss_count = 0;
  last_ipoc = 0;
  status = off_in_ext;
  hw_control_mode_command = 1;
  cycle_time_command = 2;
  prev_control_mode = 1;
  prev_cycle_time = 1;
}

abbrev activated : RsiHardware ℕ
activated = record one_joint {
  position_states = 7 ∷ [];
  position_commands = 7 ∷ [];
  velocity_commands = 0 ∷ [];
  torque_commands = 0 ∷ [];
  runtime = record one_joint.runtime { is_active = true; interpolation_count_initialized = false };
  last_ipoc = 4;
  status = slow_drives 200000;
  prev_cycle_time = 2;
}

extended_activation_success_example :
    (is_emergency_stop_active one_joint.status ≡ false)
    × (is_krc_in_ext_mode 4 one_joint.status ≡ true)
    × (drives_are_powered activated.status ≡ true)
    × (activated.runtime.is_active ≡ true)
    × (activated.runtime.interpolation_count_initialized ≡ false)
unfolding extended_activation reset_diagnostics wait_for_drives drives_are_powered
    is_emergency_stop_active is_krc_in_ext_mode start_session change_cycle_time first_cycle receive
    check_status reports_error is_motion_possible take_motion_state save_gpio_values first_commands
    copy_gpio_states_to_commands copy_states_to_commands send_commands
extended_activation_success_example =
    extended_activation_success standing 0 exact_clock slow_drives 4 mxa_rsi one_joint activated 0
      300001 refl

-- A robot that sends nothing.
abbrev silent : Robot ℕ ℕ
silent = record standing { receive_motion_state = λ timeout w. (w, error_code) }

unseen_activation_succeeds_example :
    (hw' : RsiHardware ℕ) × (w' : ℕ) × (rsi_only_activate 0 silent one_joint 0
      ≡ some (hw', w', some success))
    × (hw'.last_event ≡ control_started)
    × (hw'.position_commands ≡ 0 ∷ [])
    × (hw'.position_states ≡ 0 ∷ [])
    × (w' ≡ signalled silent 0 (0 ∷ []) hw' 0)
unfolding copy_states_to_commands
unseen_activation_succeeds_example =
    unseen_activation_succeeds silent 0 one_joint 0 [] refl refl refl (λ v. refl)

-- The drives are on, but the emergency stop is pressed.
abbrev stopped_status : ℕ → StatusInterfaces
stopped_status w = record off_in_ext { drives_powered = 1; emergency_stop = 1 }

abbrev after_stop : RsiHardware ℕ
after_stop = record activated {
  status = stopped_status 0;
  last_event = 6;
  runtime = record activated.runtime { msg_received = true };
}

abbrev after_report : RsiHardware ℕ
after_report = record after_stop { server_state = 6 }

fault_is_reported_example : after_report.server_state ≡ error_event
unfolding extended_read check_status reports_error is_emergency_stop_active receive
    take_motion_state save_gpio_values set_server_event
fault_is_reported_example =
    fault_is_reported standing exact_clock stopped_status eki_rsi true activated after_stop
      after_report 0 0 5 5 refl (inl refl) refl refl

abbrev accepting : Connection ℕ
accepting = record {
  register_event_handler = λ w. (w, ok_code);
  register_event_handler_extension = λ w. (w, ok_code);
  setup = λ w. (w + 1, ok_code);
  register_status_response_handler = λ w. (w, ok_code);
  release = λ w. 0;
}

abbrev parameter_of : String → Option String
parameter_of key =
    if str_eq key "verify_robot_model"
    then some "True"
    else if str_eq key "client_port"
    then some "59152"
    else some "127.0.0.1"

abbrev no_gpio_info : HardwareInfo
no_gpio_info = record {
  name = "kr";
  is_async = false;
  joints = [];
  gpios = [];
  hardware_parameters = parameter_of;
}

-- What comes in first, that the model fits, is the report that is kept.
abbrev fitting : Arriving
fitting = record { early = some true; late = none; first_status = none }

late_report_ignored_example :
    let configure_again = λ (late : Option Bool).
      extended_configure accepting
        (λ text. some (pos 59152))
        1
        eki_rsi
        no_gpio_info
        (record { early = none; late = late; first_status = none })
        one_joint
        (report_of true)
        9 in
    (configure_again (some false) ≡ configure_again none) × (configure_again none ≢ waits_for_ever)
unfolding extended_configure connect_robot wait_for_report read_addresses set_up_robot on_connected
late_report_ignored_example =
    late_report_ignored accepting (λ text. some (pos 59152)) 1 eki_rsi no_gpio_info fitting
      one_joint (set_server_event command_accepted one_joint) one_joint (report_of false)
      (report_of true) 7 8 9 false refl
