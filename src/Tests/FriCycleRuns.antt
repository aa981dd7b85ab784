-- ===== src/Tests/FriCycleRuns.antt =====
-- Runs of the hardware interface of kuka_sunrise_fri_driver. The world is the list of what the FRI
-- client library was told, and values of joints are natural numbers.
use kuka_drivers.Prelude.{
  List, Option, String, [], arith, false, if◌then◌else◌, none, pos, refl, some, str_eq, true, ℕ,
  ◌&&◌, ◌-◌, ◌==◌, ◌||◌, ◌↔◌, ◌∷◌, ◌≡◌,
}
use kuka_drivers.Core.Modes.{CallbackReturn, control_started, error, success}
use kuka_drivers.Fri.Connection.{
  FriConnection, activate_control_id, new_connection, set_fri_config_id, start_fri_id,
}
use kuka_drivers.Fri.Connection.Answers.{Answer, answer, packet_of, verdict}
use kuka_drivers.Fri.Client.{
  FriHardware, Reals, RobotState, Sdk, analog, client_app_read, client_app_update, digital, read,
  set_values, take_message,
}
use kuka_drivers.Fri.Client.Rates.{command_every, commands, updates}
use kuka_drivers.Fri.Client.Holding.{waiting_holds_position}
use kuka_drivers.Fri.Hardware.{Addresses, finished, on_activate, on_deactivate}
use kuka_drivers.Fri.Hardware.Motion.{activation_outcome, stale_flags_succeed}
use kuka_drivers.Fri.Hardware.Setup.{HardwareInfo, Settings}

abbrev pub zero_state : RobotState ℕ
zero_state = record {
  tracking_performance = 0;
  session_state = 3;
  connection_quality = 0;
  command_mode = 0;
  safety_state = 0;
  control_mode = 0;
  operation_mode = 0;
  drive_state = 0;
  overlay_type = 0;
}

-- A robot with one joint that stands at 7.
abbrev standing : Sdk (List (List ℕ)) ℕ
standing = record {
  is_open = λ w. true;
  receive = λ w. (w, pos 60);
  decode = λ w. (w, true);
  is_expected_message = λ w. true;
  session_state = λ w. 3;
  receive_multiplier = λ w. 1;
  measured_joint_position = λ w. 7 ∷ [];
  measured_torque = λ w. 0 ∷ [];
  external_torque = λ w. 0 ∷ [];
  robot_state = λ w. zero_state;
  io_value = λ type name w. 0;
  reset_command_message = λ w. w;
  set_joint_position = λ ps w. ps ∷ w;
  set_torque = λ ts w. ts ∷ w;
  set_io_value = λ type name value w. w;
  set_sequence_counter = λ n w. w;
  encode = λ w. (w, true);
  send = λ w. (w, true);
  on_state_change = λ old new w. w;
  monitor = λ w. w;
}

abbrev naturals : Reals ℕ
naturals = record {
  is_zero = λ x. x == 0;
  minus = λ x y. x - y;
  times = λ x y. x;
  over = λ x y. 1;
  fabs = λ x. x;
  tenth = 0;
}

abbrev pub one_joint : FriHardware ℕ
one_joint = record {
  client = record { last_state = 0; last_send_counter = 0; sequence_counter = 0 };
  position_commands = 9 ∷ [];
  torque_commands = 0 ∷ [];
  stiffness_commands = 0 ∷ [];
  damping_commands = 0 ∷ [];
  position_states = 0 ∷ [];
  torque_states = 0 ∷ [];
  ext_torque_states = 0 ∷ [];
  commanded_position_states = 0 ∷ [];
  robot_state = zero_state;
  gpio_inputs = [];
  gpio_outputs = [];
  control_mode = 1;
  send_period_ms = 10;
  receive_multiplier = 2;
  receive_counter = 0;
  counting = record {
    is_async_hardware = false;
    last_interpolation_count_command = 0;
    interpolation_count_initialized = false;
    mismatches = [];
  };
  active_read = false;
  fri_started = false;
  control_activated = false;
  thread_running = false;
  last_event = 0;
  server_state = 0;
}

command_every_example :
    commands naturals standing 7 one_joint []
    ≡ (record one_joint { receive_counter = 1 }, updates naturals standing 3 one_joint [])
command_every_example =
    command_every naturals standing 7 one_joint [] refl (omega arith) (omega arith)

-- The command 9 of the controllers is passed over.
abbrev after_read : FriHardware ℕ
after_read = record one_joint {
  position_states = 7 ∷ [];
  commanded_position_states = 9 ∷ [];
  active_read = true;
}

waiting_holds_position_example :
    (v' : List (List ℕ)) × ((client_app_update naturals standing after_read []).1
      ≡ set_values naturals standing [] ((7 ∷ []) ∷ v'))
unfolding read client_app_read take_message
waiting_holds_position_example =
    waiting_holds_position naturals standing one_joint after_read [] [] refl refl refl [] refl

abbrev local_addresses : Addresses
local_addresses = record { client_ip = "127.0.0.1"; client_port = 30200 }

abbrev open_connection : FriConnection
open_connection = record new_connection { connected = true }

-- An acceptance with success, and a rejection.
abbrev accepts : ℕ → Answer
accepts id = answer 1 id 1 []

abbrev rejects : ℕ → Answer
rejects id = answer 2 id 0 []

abbrev answers : List (List ℕ)
answers =
    packet_of (accepts 8)
    ∷ packet_of (accepts 10)
    ∷ packet_of (accepts 12)
    ∷ packet_of (accepts 3)
    ∷ packet_of (accepts 5)
    ∷ []

activation_outcome_example :
    (c : CallbackReturn) × (hw' : FriHardware ℕ) × (fc' : FriConnection) × (left' : List (List ℕ))
    × (on_activate
          (λ ip. 16777343)
          (λ x. x)
          naturals
          standing
          local_addresses
          2
          []
          answers
          one_joint
          open_connection
        ≡ finished c hw' fc' left')
    × ((c ≡ success) ↔ (
        (verdict set_fri_config_id (accepts 8)
          && verdict start_fri_id (accepts 3)
          && verdict activate_control_id (accepts 5))
        ≡ true))
    × (c ≡ success → hw'.last_event ≡ control_started)
activation_outcome_example =
    activation_outcome naturals standing (λ ip. 16777343) (λ x. x) local_addresses 2 [] (accepts 8)
      (accepts 10) (accepts 12) (accepts 3) (accepts 5) [] one_joint open_connection (refl, refl)
      refl refl refl

abbrev was_active : FriHardware ℕ
was_active = record one_joint { fri_started = true; control_activated = true; last_event = 3 }

abbrev refused_start : List (List ℕ)
refused_start =
    packet_of (accepts 8)
    ∷ packet_of (accepts 10)
    ∷ packet_of (accepts 12)
    ∷ packet_of (rejects 3)
    ∷ packet_of (accepts 5)
    ∷ []

stale_flags_succeed_example :
    (fc₀ : FriConnection) × (on_deactivate
        (packet_of (rejects 6) ∷ refused_start)
        was_active
        open_connection
      ≡ finished error was_active fc₀ refused_start)
    × ((hw' : FriHardware ℕ) × (fc' : FriConnection) × (left' : List (List ℕ)) × (on_activate
            (λ ip. 16777343)
            (λ x. x)
            naturals
            standing
            local_addresses
            2
            []
            refused_start
            was_active
            fc₀
          ≡ finished success hw' fc' left')
        × (hw'.last_event ≡ 3))
stale_flags_succeed_example =
    stale_flags_succeed naturals standing (λ ip. 16777343) (λ x. x) local_addresses 2 [] (rejects 6)
      (accepts 8) (accepts 10) (accepts 12) (rejects 3) (accepts 5) [] was_active open_connection
      (refl, refl) refl refl refl refl refl refl

abbrev parameter_of : String → Option String
parameter_of key =
    if str_eq key "client_port"
    then some "30200"
    else if str_eq key "controller_ip" || str_eq key "client_ip"
    then some "127.0.0.1"
    else none

-- One joint, and a GPIO with one input and one output.
abbrev one_joint_info : HardwareInfo
one_joint_info = record {
  name = "lbr";
  is_async = false;
  joints =
      record {
        command_interfaces = "position" ∷ "stiffness" ∷ "damping" ∷ "effort" ∷ [];
        state_interfaces = "position" ∷ "effort" ∷ "external_torque" ∷ "commanded_position" ∷ [];
      }
      ∷ [];
  gpios =
      record {
        command_interfaces =
            record { name = "in"; data_type = "digital"; initial_value = "0" } ∷ [];
        state_interfaces = record { name = "out"; data_type = "analog"; initial_value = "" } ∷ [];
      }
      ∷ [];
  hardware_parameters = parameter_of;
}

abbrev settings : Settings
settings = record {
  controller_ip = "127.0.0.1";
  client_ip = "127.0.0.1";
  client_port = pos 30200;
  interface_prefix = "lbr/";
}

abbrev with_ios : FriHardware ℕ
with_ios = record one_joint {
  gpio_inputs = record { name = "in"; type = digital; data_ = 0 } ∷ [];
  gpio_outputs = record { name = "out"; type = analog; data_ = 0 } ∷ [];
}
