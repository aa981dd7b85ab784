-- ===== src/Rsi/Base/Unseen.antt =====
-- The activation of kuka_rsi_driver/src/hardware_interface_rsi_only.cpp when the robot sends nothing.
use kuka_drivers.Prelude.{List, copy_into-all, false, if◌then◌else◌, length, refl, some, true, ◌≡◌}
use kuka_drivers.Core.Modes.{control_started, error_event, success}
use kuka_drivers.Rsi.Base.{
  Robot, RsiHardware, is_ok_code, receive, reset_diagnostics, send_commands, set_server_event,
}
use kuka_drivers.Rsi.Base.Gpio.{copy_gpio_states_to_commands, copy_states_to_commands}
use kuka_drivers.Rsi.Base.Activation.{fill_if, first_commands, first_cycle, rsi_only_activate}

module _ {W Double : Type 0} (robot : Robot W Double) (zero_double : Double) where
  -- A library that can always send.
  sent_always :
      (hw : RsiHardware Double) (w : W)
      → ((v : W) → is_ok_code (robot.send_control_signal v).1 ≡ true)
      → (send_commands robot hw w).1 ≡ true
  unfolding send_commands
  sent_always hw w s = s _

  -- The world after a signal with the position commands is sent, by a library that can send.
  abbrev pub signalled : List Double → RsiHardware Double → W → W
  signalled positions hw w =
      let w₁ = robot.add_joint_position_values positions w in
      let w₂ =
        if hw.flags.has_velocity_command_interface
        then robot.add_velocity_values hw.velocity_commands w₁
        else w₁ in
      let w₃ =
        if hw.flags.has_torque_command_interface
        then robot.add_torque_values hw.torque_commands w₂
        else w₂ in
      (robot.send_control_signal (robot.add_gpio_values hw.gpio_commands w₃)).0

  -- If no motion state is received within the time-out, while the vectors have their sizes and every
  -- signal can be sent, then an activation of the interface without EKI or mxAutomation returns
  -- SUCCESS and reports that control started, and in the one signal that it has sent, the commanded
  -- positions are the position states from before it.
  pub unseen_activation_succeeds :
      (hw : RsiHardware Double) (w : W) (gpios : List Double)
      → length hw.position_states ≡ length hw.position_commands
      → copy_states_to_commands hw.gpio_states_to_commands_map hw.gpio_states hw.gpio_commands
        ≡ some gpios
      → let (w₁, code) = robot.receive_motion_state 10000 w in
        is_ok_code code ≡ false
        → ((v : W) → is_ok_code (robot.send_control_signal v).1 ≡ true)
        → (hw' : RsiHardware Double) × (w' : W) × (rsi_only_activate zero_double robot hw w
            ≡ some (hw', w', some success))
          × (hw'.last_event ≡ control_started)
          × (hw'.position_commands ≡ hw.position_states)
          × (hw'.position_states ≡ hw.position_states)
          × (w' ≡ signalled hw.position_states hw' w₁)
  unfolding rsi_only_activate first_cycle receive first_commands copy_gpio_states_to_commands
      reset_diagnostics set_server_event send_commands
  unseen_activation_succeeds hw w gpios l g k s =
      let (w₁, code) = robot.receive_motion_state 10000 w in
      let fits = copy_into-all hw.position_states hw.position_commands l in
      let c : RsiHardware Double = record hw {
        packet_loss_count = 0;
        last_ipoc = 0;
        last_event = error_event;
        runtime = record hw.runtime { msg_received = false };
        position_commands = hw.position_states;
        velocity_commands =
            fill_if zero_double hw.flags.has_velocity_command_interface hw.velocity_commands;
        torque_commands =
            fill_if zero_double hw.flags.has_torque_command_interface hw.torque_commands;
        gpio_commands = gpios;
      } in
      (
        record c {
          runtime = record hw.runtime { msg_received = false; is_active = true };
          last_event = control_started;
        },
        (send_commands robot c w₁).0,
        rw (k, fits, g, sent_always c w₁ s) refl,
        refl,
        refl,
        refl,
        refl,
      )
