-- ===== src/Fri/Hardware.antt =====
-- kuka_sunrise_fri_driver/src/hardware_interface.cpp: the lifecycle callbacks of the hardware
-- interface of a robot with FRI. The cyclic part stands in Client.
--
-- The packets that the controller sends while a callback runs are an argument of it, as in
-- Connection. A callback may wait for ever for one of them, or end in the fault of a packet that is
-- too short.
pub mod Setup
pub mod Activation
pub mod Motion
use kuka_drivers.Prelude.{
  Bool, List, String, false, if◌then◌else◌, map, not, replicate, suc, true, zero, ℕ, ◌==◌, ◌||◌,
}
use kuka_drivers.Core.Modes.{
  CallbackReturn, control_started, control_stopped, error, error_event, failure,
  joint_impedance_control, joint_position_control, joint_torque_control, success, u8,
}
use kuka_drivers.Fri.Connection.{FriConnection, Outcome, blocked, fault, returned}
use kuka_drivers.Fri.Connection.Commands.{
  activate_control, connect, deactivate_control, disconnect, end_fri, set_client_command_mode,
  set_fri_config, set_joint_impedance_control_mode, set_position_control_mode, start_fri,
}
use kuka_drivers.Fri.Client.{
  FriHardware, Reals, Sdk, client_app_read, client_app_update, client_app_write,
}

abbrev pub position_command_mode : ℕ
position_command_mode = 1

abbrev pub torque_command_mode : ℕ
torque_command_mode = 3

abbrev pub dof : ℕ
dof = 7

-- How a callback ends: with a result, the state of the hardware interface and of the connection and
-- the packets left.
pub data Finished (Double : Type 0) : Type 0 where
  finished : CallbackReturn → FriHardware Double → FriConnection → List (List ℕ) → Finished Double
  waits_for_ever : Finished Double
  faulted : Finished Double

-- What is done when a command has returned.
abbrev then_do :
    {Double : Type 0}
    → Outcome
    → (Bool → FriConnection → List (List ℕ) → Finished Double)
    → Finished Double
then_do (returned ok fc packets) next = next ok fc packets
then_do blocked next = waits_for_ever
then_do fault next = faulted

-- The parameters of the interface.
pub record Addresses : Type 0 where
  pub client_ip : String
  -- its 32-bit pattern
  pub client_port : ℕ

module _ {Double : Type 0} where
  -- `connected_udp` is what the UDP connection reports, `reachable` whether the TCP connection can
  -- be made.
  unfoldable pub on_configure :
      Bool → Bool → List (List ℕ) → FriHardware Double → FriConnection → Finished Double
  on_configure connected_udp reachable packets hw fc =
      if not connected_udp
      then finished failure hw fc packets
      else then_do (connect reachable packets fc)
          λ ok fc' left. finished (if ok then success else failure) hw fc' left

  -- The UDP connection is closed first.
  unfoldable pub on_cleanup : List (List ℕ) → FriHardware Double → FriConnection → Finished Double
  on_cleanup packets hw fc =
      then_do (disconnect packets fc)
        λ ok fc' left. finished (if ok then success else error) hw fc' left

  -- The main thread's part after the two are joined.
  abbrev pub joined : FriHardware Double → FriConnection → List (List ℕ) → Finished Double
  joined hw fc packets =
      let hw' = record hw { thread_running = false } in
      if not hw.fri_started || not hw.control_activated
      then finished failure hw' fc packets
      else finished success
          (record hw' { counting = record hw.counting { interpolation_count_initialized = false } })
          fc packets

  abbrev pub control_activated_with : Bool → FriHardware Double → FriHardware Double
  control_activated_with ok hw =
      if ok then record hw { control_activated = true; last_event = control_started } else hw

  -- The thread that starts the motion. `cyclic` is what the main thread does to the hardware
  -- interface in the meantime.
  unfoldable pub start_motion :
      (FriHardware Double → FriHardware Double)
      → List (List ℕ)
      → FriHardware Double
      → FriConnection
      → Finished Double
  start_motion cyclic packets hw fc = then_do (start_fri packets fc) λ started fc₁ left₁.
      if not started
      then joined (cyclic hw) fc₁ left₁
      else then_do (activate_control left₁ fc₁) λ activated fc₂ left₂.
        joined (control_activated_with activated (record (cyclic hw) { fri_started = true })) fc₂
          left₂

  -- The loop of the main thread, for the rounds that it has time for, which touches none of the
  -- members that the other thread writes.
  module _ {W : Type 0} (reals : Reals Double) (sdk : Sdk W Double) where
    unfoldable pub keep_cyclic : ℕ → FriHardware Double → W → FriHardware Double × W
    keep_cyclic zero hw w = (hw, w)
    keep_cyclic (suc rounds) hw w =
        let (w₁, received) = client_app_read reals sdk w in
        let (hw₂, w₂) = client_app_update reals sdk hw w₁ in
        let (hw₃, w₃, sent) = client_app_write reals sdk hw₂ w₂ in keep_cyclic rounds hw₃ w₃

  -- `bits` is the representation of a double.
  module _ (inet_addr : String → ℕ) (bits : Double → ℕ) where
    -- The commands of the mode, whose results are not looked at.
    abbrev pub then_mode :
        Outcome → ℕ → (FriConnection → List (List ℕ) → Finished Double) → Finished Double
    then_mode outcome client_command_mode next = then_do outcome λ mode_ok fc left.
        then_do (set_client_command_mode client_command_mode left fc)
          λ command_ok fc' left'. next fc' left'

    unfoldable pub set_mode :
        (FriConnection → List (List ℕ) → Finished Double)
        → List (List ℕ)
        → FriHardware Double
        → FriConnection
        → Finished Double
    set_mode next packets hw fc =
        let mode = u8 hw.control_mode in
        let stiffness = map bits hw.stiffness_commands in
        let damping = map bits hw.damping_commands in
        if mode == joint_position_control
        then then_mode (set_position_control_mode packets fc) position_command_mode next
        else if mode == joint_impedance_control
        then then_mode (set_joint_impedance_control_mode stiffness damping packets fc)
            position_command_mode next
        else if mode == joint_torque_control
        then then_mode
            (set_joint_impedance_control_mode (replicate dof 0) (replicate dof 0) packets fc)
            torque_command_mode next
        else finished error hw fc packets

    unfoldable pub on_activate :
        {W : Type 0}
        → Reals Double
        → Sdk W Double
        → Addresses
        → ℕ
        → W
        → List (List ℕ)
        → FriHardware Double
        → FriConnection
        → Finished Double
    on_activate reals sdk addresses rounds w packets hw fc =
        let cyclic : FriHardware Double → FriHardware Double =
          λ hw'. (keep_cyclic reals sdk rounds hw' w).0 in
        then_do
          (set_fri_config inet_addr addresses.client_ip addresses.client_port hw.send_period_ms
            hw.receive_multiplier packets fc)
          λ configured fc₁ left₁.
            if not configured
            then finished error hw fc₁ left₁
            else set_mode
                (λ fc₂ left₂. start_motion cyclic left₂ (record hw { thread_running = true }) fc₂)
                left₁ hw fc₁

  unfoldable pub on_deactivate :
      List (List ℕ) → FriHardware Double → FriConnection → Finished Double
  on_deactivate packets hw fc = then_do (deactivate_control packets fc) λ deactivated fc₁ left₁.
      if not deactivated
      then finished error hw fc₁ left₁
      else then_do (end_fri left₁ fc₁) λ ended fc₂ left₂.
        if not ended
        then finished error (record hw { control_activated = false }) fc₂ left₂
        else finished success
            (record hw {
              control_activated = false;
              fri_started = false;
              counting = record hw.counting { interpolation_count_initialized = false };
              last_event = control_stopped;
            })
            fc₂ left₂

  -- The handler of both errors that the controller may report.
  unfoldable pub on_error : FriHardware Double → FriHardware Double
  on_error hw = record hw { last_event = error_event }
