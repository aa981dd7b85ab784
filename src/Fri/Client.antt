-- ===== src/Fri/Client.antt =====
-- The cyclic communication of kuka_sunrise_fri_driver: src/fri_client_sdk/HWIFClientApplication.cpp
-- and the callbacks, `read` and `write` of src/hardware_interface.cpp that run in it.
--
-- `W` is everything outside the hardware interface. The FRI client library and the arithmetic of
-- doubles are parameters, `Sdk` and `Reals`, with what the code calls of them. Commands that are
-- doubles but stand for integers are those integers here. The application has no transformation
-- client.
pub mod Rates
pub mod Holding
use kuka_drivers.Prelude.{
  Bool, List, Option, String, [], copy_into, false, if◌then◌else◌, leb, ltb_ℤ, map, none, not, pos,
  some, true, ℕ, ℤ, ◌+◌, ◌==◌, ◌>>=◌, ◌||◌, ◌∷◌,
}
use kuka_drivers.Core.Modes.{
  joint_impedance_control, joint_position_control, joint_torque_control, u32, u8,
}
use kuka_drivers.Core.Clock.{Clock}
use kuka_drivers.Core.Counting.{Counting, count_check}

-- enum ESessionState
abbrev monitoring_wait : ℕ
monitoring_wait = 1

abbrev monitoring_ready : ℕ
monitoring_ready = 2

abbrev pub commanding_wait : ℕ
commanding_wait = 3

abbrev commanding_active : ℕ
commanding_active = 4

pub data IoTypes : Type 0 where
  analog digital boolean : IoTypes

-- GPIOReader and GPIOWriter
pub record Gpio (Double : Type 0) : Type 0 where
  pub name : String
  pub type : IoTypes
  pub data_ : Double

pub record RobotState (Double : Type 0) : Type 0 where
  pub tracking_performance : Double
  pub session_state : Double
  pub connection_quality : Double
  pub command_mode : Double
  pub safety_state : Double
  pub control_mode : Double
  pub operation_mode : Double
  pub drive_state : Double
  pub overlay_type : Double

pub record Sdk (W Double : Type 0) : Type 0 where
  pub is_open : W → Bool
  -- a message is put in the buffer; its size
  pub receive : W → W × ℤ
  pub decode : W → W × Bool
  pub is_expected_message : W → Bool
  -- of the decoded message
  pub session_state : W → ℕ
  pub receive_multiplier : W → ℕ
  pub measured_joint_position : W → List Double
  pub measured_torque : W → List Double
  pub external_torque : W → List Double
  pub robot_state : W → RobotState Double
  pub io_value : IoTypes → String → W → Double
  -- the command message
  pub reset_command_message : W → W
  pub set_joint_position : List Double → W → W
  pub set_torque : List Double → W → W
  pub set_io_value : IoTypes → String → Double → W → W
  -- together with the reflected counter of the message
  pub set_sequence_counter : ℕ → W → W
  pub encode : W → W × Bool
  pub send : W → W × Bool
  -- the callbacks of LBRClient that the driver leaves as they are
  pub on_state_change : ℕ → ℕ → W → W
  pub monitor : W → W

pub record Reals (Double : Type 0) : Type 0 where
  pub is_zero : Double → Bool
  pub minus : Double → Double → Double
  pub times : Double → Double → Double
  pub over : Double → Double → Double
  pub fabs : Double → Double
  pub tenth : Double

-- The members of ClientData that the application counts in.
pub record ClientData : Type 0 where
  pub last_state : ℕ
  pub last_send_counter : ℕ
  pub sequence_counter : ℕ

pub record FriHardware (Double : Type 0) : Type 0 where
  pub client : ClientData
  pub position_commands : List Double
  pub torque_commands : List Double
  pub stiffness_commands : List Double
  pub damping_commands : List Double
  pub position_states : List Double
  pub torque_states : List Double
  pub ext_torque_states : List Double
  pub commanded_position_states : List Double
  pub robot_state : RobotState Double
  pub gpio_inputs : List (Gpio Double)
  pub gpio_outputs : List (Gpio Double)
  pub control_mode : ℕ
  pub send_period_ms : ℕ
  pub receive_multiplier : ℕ
  -- an int, which is taken to wrap around
  pub receive_counter : ℕ
  pub counting : Counting
  pub active_read : Bool
  pub fri_started : Bool
  pub control_activated : Bool
  pub thread_running : Bool
  pub last_event : ℕ
  pub server_state : ℕ

module _ {Double : Type 0} (reals : Reals Double) where
  open reals use {is_zero, minus, times, over, fabs, tenth}

  -- activateFrictionCompensation, for one joint
  unfoldable pub compensate_friction : Double → Double
  compensate_friction value =
      if not (is_zero value)
      then minus value (times (over value (fabs value)) tenth)
      else minus value tenth

  module _ {W : Type 0} (sdk : Sdk W Double) where
    unfoldable pub set_values : List (Gpio Double) → W → W
    set_values [] w = w
    set_values (input ∷ inputs) w =
        set_values inputs (sdk.set_io_value input.type input.name input.data_ w)

    unfoldable pub update_command : FriHardware Double → W → W
    update_command hw w =
        let mode = u8 hw.control_mode in
        let corrected = map compensate_friction (sdk.measured_joint_position w) in
        if mode == joint_position_control || mode == joint_impedance_control
        then set_values hw.gpio_inputs (sdk.set_joint_position hw.position_commands w)
        else if mode == joint_torque_control
        then set_values hw.gpio_inputs
            (sdk.set_torque hw.torque_commands (sdk.set_joint_position corrected w))
        else w

    unfoldable pub wait_for_command : FriHardware Double → W → FriHardware Double × W
    wait_for_command hw w =
        let hw' = record hw { position_commands = hw.position_states } in
        (hw', update_command hw' w)

    unfoldable pub command : FriHardware Double → W → FriHardware Double × W
    command hw w =
        let counter = u32 (hw.receive_counter + 1) in
        if counter == hw.receive_multiplier
        then (record hw { receive_counter = 0 }, update_command hw w)
        else (record hw { receive_counter = counter }, w)

    unfoldable pub client_app_read : W → W × Bool
    client_app_read w =
        let (w₁, size) = sdk.receive w in
        let (w₂, decoded) = sdk.decode w₁ in
        if not (sdk.is_open w)
        then (w, false)
        else if not (ltb_ℤ (pos 0) size)
        then (w₁, false)
        else if not decoded
        then (w₂, false)
        else if not (sdk.is_expected_message w₂)
        then (w₂, false)
        else (w₂, true)

    unfoldable pub change_state : ℕ → FriHardware Double → W → FriHardware Double × W
    change_state state hw w =
        if not (hw.client.last_state == state)
        then (
          record hw { client = record hw.client { last_state = state } },
          sdk.on_state_change hw.client.last_state state w,
        )
        else (hw, w)

    unfoldable pub client_app_update : FriHardware Double → W → FriHardware Double × W
    client_app_update hw w =
        let state = sdk.session_state w in
        let (hw', w') = change_state state hw (sdk.reset_command_message w) in
        if state == monitoring_wait || state == monitoring_ready
        then (hw', sdk.monitor w')
        else if state == commanding_wait
        then wait_for_command hw' w'
        else if state == commanding_active
        then command hw' w'
        else (hw', w')

    -- The message is sent: `false` if it cannot be.
    abbrev send_command : W → W × Bool
    send_command w =
        let (w₁, encoded) = sdk.encode w in
        if not encoded
        then (w₁, false)
        else if not (sdk.is_open w₁)
        then (w₁, false)
        else sdk.send w₁

    unfoldable pub client_app_write : FriHardware Double → W → FriHardware Double × W × Bool
    client_app_write hw w =
        let sends = u32 (hw.client.last_send_counter + 1) in
        let number = hw.client.sequence_counter in
        let sent = send_command (sdk.set_sequence_counter number w) in
        if leb (sdk.receive_multiplier w) sends
        then (
          record hw {
            client = record hw.client {
              last_send_counter = 0;
              sequence_counter = u32 (number + 1);
            };
          },
          sent.0,
          sent.1,
        )
        else (record hw { client = record hw.client { last_send_counter = sends } }, w, true)

    -- What `read` takes from a message.
    unfoldable pub take_message : W → FriHardware Double → Option (FriHardware Double)
    take_message w hw = do
      commanded ← copy_into hw.position_commands hw.commanded_position_states
      some (record hw {
        position_states = sdk.measured_joint_position w;
        torque_states = sdk.measured_torque w;
        ext_torque_states = sdk.external_torque w;
        commanded_position_states = commanded;
        robot_state = sdk.robot_state w;
        gpio_outputs =
            map (λ (o : Gpio Double). record o { data_ = sdk.io_value o.type o.name w })
              hw.gpio_outputs;
      })

    abbrev pub publish_event : FriHardware Double → FriHardware Double
    publish_event hw = record hw { server_state = hw.last_event }

    -- It always returns OK; `none` is a write past the end of a vector.
    unfoldable pub read : FriHardware Double → W → Option (FriHardware Double × W)
    read hw w =
        let (w', ok) = client_app_read w in
        let hw' = record hw { active_read = ok } in
        let taken : Option (FriHardware Double) = if ok then take_message w' hw' else some hw' in
        if hw.thread_running
        then some (record hw { active_read = false }, w)
        else do hw'' ← taken; some (publish_event hw'', w')

    module _ (clock : Clock W) (count_command : W → ℕ) where
      abbrev pub counted :
          Option (Counting × W) → FriHardware Double → Option (FriHardware Double × W × Bool)
      counted none hw = none
      counted (some (counting, w)) hw =
          let (hw', w') = client_app_update (record hw { counting = counting }) w in
          some (client_app_write hw' w')

      -- `false` is return_type::ERROR; a result `none` would mean that the fuel of the wait ran
      -- out.
      unfoldable pub write : FriHardware Double → W → Option (FriHardware Double × W × Bool)
      write hw w =
          if not hw.active_read
          then some (hw, w, true)
          else counted (count_check clock count_command hw.counting w) hw
