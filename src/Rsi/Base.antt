-- ===== src/Rsi/Base.antt =====
-- kuka_rsi_driver/src/hardware_interface_rsi_base.cpp: the state of the hardware interfaces for RSI
-- and their cyclic part. The check of the interpolation count in `write` stands in Hardware.
--
-- `W` is everything outside the hardware interface. The robot library is no code of the repository:
-- `Robot` is what the code calls of it, a parameter. `Double` is the type of the interfaces' values;
-- commands that stand for integers are those integers. The times that are only logged are left out.
pub mod Setup
pub mod Gpio
pub mod Received
pub mod Reading
pub mod Connecting
pub mod Activation
pub mod Outcomes
pub mod Power
pub mod Unseen
pub mod Optional
use kuka_drivers.Prelude.{
  Bool, List, Option, [], copy_into, false, if◌then◌else◌, none, not, some, true, ℕ, ◌%◌, ◌+◌, ◌==◌,
  ◌>>=◌, ◌∷◌,
}
use kuka_drivers.Core.Modes.{error_event}
use kuka_drivers.Core.Clock.{Clock}
use kuka_drivers.Rsi.Hardware.{Hardware, write}
use kuka_drivers.Rsi.Status.{StatusInterfaces}

-- kuka::external::control::ReturnCode, as far as the code names its values.
pub data ReturnCode : Type 0 where
  ok_code error_code other_code : ReturnCode

abbrev pub is_ok_code : ReturnCode → Bool
is_ok_code ok_code = true
is_ok_code error_code = false
is_ok_code other_code = false

abbrev pub is_error_code : ReturnCode → Bool
is_error_code error_code = true
is_error_code ok_code = false
is_error_code other_code = false

pub record Robot (W Double : Type 0) : Type 0 where
  -- time-out in ms
  pub receive_motion_state : ℕ → W → W × ReturnCode
  -- of the last motion state; a GPIO may have no value
  pub measured_positions : W → List Double
  pub measured_velocities : W → List Double
  pub measured_torques : W → List Double
  pub gpio_values : W → List (Option Double)
  pub get_delay : W → ℕ
  pub get_ipoc : W → ℕ
  -- the values that the next control signal will have
  pub add_joint_position_values : List Double → W → W
  pub add_velocity_values : List Double → W → W
  pub add_torque_values : List Double → W → W
  pub add_gpio_values : List Double → W → W
  pub send_control_signal : W → W × ReturnCode
  pub set_cycle_time : ℕ → W → W × ReturnCode
  pub start_controlling : ℕ → W → W × ReturnCode
  pub stop_controlling : W → W
  pub reset_control_signal : W → W × ReturnCode
  pub cancel_rsi_program : W → W
  pub turn_on_drives : W → W
  pub turn_off_drives : W → W

pub record Flags : Type 0 where
  pub has_velocity_state_interface : Bool
  pub has_torque_state_interface : Bool
  pub has_velocity_command_interface : Bool
  pub has_torque_command_interface : Bool

pub record RsiHardware (Double : Type 0) : Type 0 where
  pub position_states : List Double
  pub velocity_states : List Double
  pub torque_states : List Double
  pub gpio_states : List Double
  pub position_commands : List Double
  pub velocity_commands : List Double
  pub torque_commands : List Double
  pub gpio_commands : List Double
  pub flags : Flags
  pub server_state : ℕ
  pub last_event : ℕ
  -- `none` is -1
  pub gpio_states_to_commands_map : List (Option ℕ)
  -- what the check of the interpolation count works on, `is_active` and `msg_received` included
  pub runtime : Hardware
  pub packet_loss_count : ℕ
  pub last_ipoc : ℕ
  pub status : StatusInterfaces
  pub hw_control_mode_command : ℕ
  pub cycle_time_command : ℕ
  pub prev_control_mode : ℕ
  pub prev_cycle_time : ℕ

-- The loop over the GPIO states; `none` is the `std::out_of_range` of a value that is missing.
unfoldable pub save_gpio_values :
    {Double : Type 0} → List Double → List (Option Double) → Option (List Double)
save_gpio_values [] values = some []
save_gpio_values (state ∷ states) [] = none
save_gpio_values (state ∷ states) (value ∷ values) = do
  rest ← save_gpio_values states values
  some (elim value [ none ↦ state | some v ↦ v ] ∷ rest)

abbrev pub copy_if : {Double : Type 0} → Bool → List Double → List Double → Option (List Double)
copy_if flag source target = if flag then copy_into source target else some target

module _ {Double : Type 0} where
  unfoldable pub set_server_event : ℕ → RsiHardware Double → RsiHardware Double
  set_server_event event hw = record hw { last_event = event }

  unfoldable pub initialize_command_interfaces : ℕ → ℕ → RsiHardware Double → RsiHardware Double
  initialize_command_interfaces control_mode cycle_time hw = record hw {
    prev_control_mode = control_mode;
    prev_cycle_time = cycle_time;
    hw_control_mode_command = control_mode;
    cycle_time_command = cycle_time;
  }

  unfoldable pub reset_diagnostics : RsiHardware Double → RsiHardware Double
  reset_diagnostics hw = record hw { packet_loss_count = 0; last_ipoc = 0 }

  abbrev pub with_msg_received : Bool → RsiHardware Double → RsiHardware Double
  with_msg_received received hw = record hw {
    runtime = record hw.runtime { msg_received = received };
  }

  module _ {W : Type 0} (robot : Robot W Double) where
    -- What `Read` takes from a motion state; `none` is a write past the end of a vector, or a GPIO
    -- value that is missing.
    unfoldable pub take_motion_state : W → RsiHardware Double → Option (RsiHardware Double)
    take_motion_state w hw = do
      positions ← copy_into (robot.measured_positions w) hw.position_states
      velocities ←
          copy_if hw.flags.has_velocity_state_interface (robot.measured_velocities w)
            hw.velocity_states
      torques ←
          copy_if hw.flags.has_torque_state_interface (robot.measured_torques w) hw.torque_states
      gpios ← save_gpio_values hw.gpio_states (robot.gpio_values w)
      some (record hw {
        position_states = positions;
        velocity_states = velocities;
        torque_states = torques;
        gpio_states = gpios;
        packet_loss_count =
            if not (robot.get_delay w == 0)
            then (hw.packet_loss_count + 1) % 18446744073709551616
            else hw.packet_loss_count;
        last_ipoc = robot.get_ipoc w;
      })

    -- `Read`
    unfoldable pub receive : ℕ → RsiHardware Double → W → Option (RsiHardware Double × W)
    receive request_timeout hw w =
        let (w', code) = robot.receive_motion_state request_timeout w in
        let hw' = with_msg_received (is_ok_code code) hw in
        let taken : Option (RsiHardware Double) =
          if is_ok_code code
          then take_motion_state w' hw'
          else some (set_server_event error_event hw') in
        do hw'' ← taken; some (hw'', w')

    -- `Write`; `false` is the exception that it throws when the signal cannot be sent.
    unfoldable pub send_commands : RsiHardware Double → W → W × Bool
    send_commands hw w =
        let w₁ = robot.add_joint_position_values hw.position_commands w in
        let w₂ =
          if hw.flags.has_velocity_command_interface
          then robot.add_velocity_values hw.velocity_commands w₁
          else w₁ in
        let w₃ =
          if hw.flags.has_torque_command_interface
          then robot.add_torque_values hw.torque_commands w₂
          else w₂ in
        let (w₄, code) = robot.send_control_signal (robot.add_gpio_values hw.gpio_commands w₃) in
        (w₄, is_ok_code code)

    module _ (clock : Clock W) where
      -- It always returns OK.
      unfoldable pub read : RsiHardware Double → W → Option (RsiHardware Double × W)
      read hw w =
          let hw' = record hw { server_state = hw.last_event } in
          if not hw.runtime.is_active then some (hw', clock.sleep 2000 w) else receive 1000 hw' w

      abbrev written :
          RsiHardware Double → Option (Hardware × W × Bool) → Option (RsiHardware Double × W × Bool)
      written hw none = none
      written hw (some (runtime, w, ok)) = some (record hw { runtime = runtime }, w, ok)

      -- `false` is the exception of `Write`.
      unfoldable pub write_cycle :
          (W → ℕ) → RsiHardware Double → W → Option (RsiHardware Double × W × Bool)
      write_cycle count_command hw w =
          written hw (write clock count_command (send_commands hw) hw.runtime w)
