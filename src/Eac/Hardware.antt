-- ===== src/Eac/Hardware.antt =====
-- kuka_iiqka_eac_driver/src/hardware_interface.cpp and include/kuka_iiqka_eac_driver/
-- event_observer.hpp: the hardware interface of a robot with iiQKA.
--
-- `W` is everything outside the hardware interface. The robot library is no code of the
-- repository: `Robot` is what the code calls of it, a parameter. `Double` is the type of the values
-- of the joints. The commands of the control mode and of the interpolation count are doubles that
-- are cast to integers: here they are those integers.
pub mod Setup
pub mod Holding
use kuka_drivers.Prelude.{
  Bool, List, Option, copy_into, false, if◌then◌else◌, none, not, some, true, ℕ, ℤ, ◌+◌, ◌==◌,
  ◌>>=◌,
}
use kuka_drivers.Core.Modes.{
  CallbackReturn, control_mode_switch, control_started, control_stopped, error_event, failure,
  success, u32, u8,
}
use kuka_drivers.Core.Clock.{Clock}
use kuka_drivers.Core.Counting.{Counting, count_check}

-- kuka::external::control::ReturnCode, as far as the code names its values.
pub data ReturnCode : Type 0 where
  ok_code error_code other_code : ReturnCode

abbrev pub is_ok_code : ReturnCode → Bool
is_ok_code ok_code = true
is_ok_code error_code = false
is_ok_code other_code = false

abbrev pub is_error_code : ReturnCode → Bool
is_error_code error_code = true
is_error_code ok_code = false
is_error_code other_code = false

pub record Robot (W Double : Type 0) : Type 0 where
  pub setup : W → W × ReturnCode
  -- lost packets in a time frame, consecutive lost packets, time frame
  pub set_qos_profile : ℤ → ℤ → ℤ → W → W × ReturnCode
  pub register_event_handler : W → W × ReturnCode
  pub start_controlling : ℕ → W → W × ReturnCode
  pub stop_controlling : W → W
  -- time-out in ms
  pub receive_motion_state : ℕ → W → W × ReturnCode
  -- of the last motion state
  pub measured_positions : W → List Double
  pub measured_torques : W → List Double
  -- the values that the next control signal will have
  pub add_joint_position_values : List Double → W → W
  pub add_torque_values : List Double → W → W
  pub add_stiffness_and_damping_values : List Double → List Double → W → W
  pub switch_control_mode : ℕ → W → W × ReturnCode
  pub send_control_signal : W → W × ReturnCode

pub record EacHardware (Double : Type 0) : Type 0 where
  pub position_commands : List Double
  pub torque_commands : List Double
  pub stiffness_commands : List Double
  pub damping_commands : List Double
  pub position_states : List Double
  pub commanded_position_states : List Double
  pub torque_states : List Double
  pub control_mode_command : ℕ
  pub prev_control_mode : ℕ
  pub last_event : ℕ
  pub server_state : ℕ
  -- an int, which is taken to wrap around
  pub cycle_count : ℕ
  pub msg_received : Bool
  pub counting : Counting

module _ {Double : Type 0} where
  unfoldable pub set_server_event : ℕ → EacHardware Double → EacHardware Double
  set_server_event event hw = record hw { last_event = event }

  abbrev reset_cycle_count : EacHardware Double → EacHardware Double
  reset_cycle_count hw = record hw { cycle_count = 0 }

  -- KukaEACEventObserver, whose methods the robot library calls.
  unfoldable pub on_sampling : EacHardware Double → EacHardware Double
  on_sampling hw = set_server_event control_started hw

  unfoldable pub on_control_mode_switch : EacHardware Double → EacHardware Double
  on_control_mode_switch hw = reset_cycle_count (set_server_event control_mode_switch hw)

  unfoldable pub on_stopped : EacHardware Double → EacHardware Double
  on_stopped hw = set_server_event control_stopped hw

  unfoldable pub on_error : EacHardware Double → EacHardware Double
  on_error hw = set_server_event error_event hw

  abbrev uninitialized : EacHardware Double → EacHardware Double
  uninitialized hw = record hw {
    counting = record hw.counting { interpolation_count_initialized = false };
  }

  abbrev pub publish_event : EacHardware Double → EacHardware Double
  publish_event hw = record hw { server_state = hw.last_event }

  module _ {W : Type 0} (robot : Robot W Double) where
    open robot use {
      register_event_handler, start_controlling, stop_controlling, receive_motion_state,
      measured_positions, measured_torques, add_joint_position_values, add_torque_values,
      add_stiffness_and_damping_values, switch_control_mode, send_control_signal,
    }

    unfoldable pub on_activate : EacHardware Double → W → EacHardware Double × W × CallbackReturn
    on_activate hw w =
        let (w₁, registered) = register_event_handler w in
        let (w₂, started) = start_controlling hw.control_mode_command w₁ in
        if is_error_code started then (hw, w₂, failure) else (
          uninitialized
              (record hw { prev_control_mode = u8 hw.control_mode_command; cycle_count = 0 }),
          w₂,
          success,
        )

    unfoldable pub on_deactivate : EacHardware Double → W → EacHardware Double × W × CallbackReturn
    on_deactivate hw w = (uninitialized hw, stop_controlling w, success)

    abbrev first_commands : List Double → EacHardware Double → Option (List Double)
    first_commands positions hw =
        if hw.cycle_count == 0
        then copy_into positions hw.position_commands
        else some hw.position_commands

    -- The copies of a motion state that was received. The first one after an activation or a
    -- change of mode is the command too.
    unfoldable pub take_motion_state : W → EacHardware Double → Option (EacHardware Double)
    take_motion_state w hw = do
      positions ← copy_into (measured_positions w) hw.position_states
      torques ← copy_into (measured_torques w) hw.torque_states
      commands ← first_commands positions hw
      commanded ← copy_into commands hw.commanded_position_states
      some (record hw {
        position_states = positions;
        torque_states = torques;
        position_commands = commands;
        commanded_position_states = commanded;
        cycle_count = u32 (hw.cycle_count + 1);
      })

    -- It always returns OK; `none` is a write past the end of a vector.
    unfoldable pub read : EacHardware Double → W → Option (EacHardware Double × W)
    read hw w =
        let (w', code) = receive_motion_state 10 w in
        let hw' = record hw { msg_received = is_ok_code code } in
        let taken : Option (EacHardware Double) =
          if is_ok_code code then take_motion_state w' hw' else some hw' in
        do hw'' ← taken; some (publish_event hw'', w')

    -- The values that `write` hands to the control signal.
    abbrev pub add_values : EacHardware Double → W → W
    add_values hw w =
        add_stiffness_and_damping_values hw.stiffness_commands hw.damping_commands
          (add_torque_values hw.torque_commands (add_joint_position_values hw.position_commands w))

    -- The reply: a switch of the control mode, or else the control signal. `false` is the exception
    -- that is thrown when it cannot be sent.
    unfoldable pub reply : EacHardware Double → W → EacHardware Double × W × Bool
    reply hw w =
        let mode = u8 hw.control_mode_command in
        let (w₁, switched) = switch_control_mode hw.control_mode_command w in
        let (w₂, sent) = send_control_signal w in
        if not (mode == hw.prev_control_mode)
        then (record hw { prev_control_mode = mode }, w₁, is_ok_code switched)
        else (hw, w₂, is_ok_code sent)

    module _ (clock : Clock W) (count_command : W → ℕ) where
      abbrev pub counted :
          EacHardware Double → Option (Counting × W) → Option (EacHardware Double × W × Bool)
      counted hw none = none
      counted hw (some (counting, w)) =
          let hw' = record hw { counting = counting } in some (reply hw' (add_values hw' w))

      -- A result `none` would mean that the fuel of the wait ran out.
      unfoldable pub write : EacHardware Double → W → Option (EacHardware Double × W × Bool)
      write hw w =
          if not hw.msg_received
          then some (hw, w, true)
          else counted hw (count_check clock count_command hw.counting w)
