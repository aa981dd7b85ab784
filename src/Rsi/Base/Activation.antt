-- ===== src/Rsi/Base/Activation.antt =====
-- The activation and the deactivation of the hardware interfaces for RSI: `on_activate` and
-- `on_deactivate` of kuka_rsi_driver/src/hardware_interface_rsi_only.cpp, and
-- `extended_activation` and `extended_deactivation` of src/hardware_interface_rsi_base.cpp, which
-- the interfaces for EKI and mxAutomation use, with their `Read`.
--
-- A result `none` is a write past the end of a vector or a GPIO value that is missing, or would mean
-- that the fuel of a wait ran out. A callback's result `none` is the exception of `Write`. `actual`
-- is the status that another thread keeps, and `ext` is OperationMode::EXT of the robot library.
use kuka_drivers.Prelude.{
  Bool, List, Option, copy_into, false, if◌then◌else◌, map, none, not, some, true, ℕ, ◌==◌, ◌>>=◌,
}
use kuka_drivers.Core.Modes.{CallbackReturn, control_started, control_stopped, failure, success, u8}
use kuka_drivers.Core.Clock.{Clock}
use kuka_drivers.Rsi.Status.{
  StatusInterfaces, drives_are_powered, drives_fuel, is_emergency_stop_active, is_krc_in_ext_mode,
  wait_for_drives,
}
use kuka_drivers.Rsi.Base.{
  Robot, RsiHardware, is_error_code, is_ok_code, receive, reset_diagnostics, send_commands,
  set_server_event,
}
use kuka_drivers.Rsi.Base.Reading.{InstalledInterface, check_status}
use kuka_drivers.Rsi.Base.Gpio.{copy_gpio_states_to_commands}

-- How a callback ends.
abbrev pub Ended : Type 0 → Type 0 → Type 0
Ended W Double = Option (RsiHardware Double × W × Option CallbackReturn)

module _ {Double : Type 0} (zero_double : Double) where
  abbrev pub fill_if : Bool → List Double → List Double
  fill_if flag commands = if flag then map (λ c. zero_double) commands else commands

  -- The commands of the first signal: the robot stays where it is.
  unfoldable pub first_commands : RsiHardware Double → Option (RsiHardware Double)
  first_commands hw = do
    positions ← copy_into hw.position_states hw.position_commands
    copy_gpio_states_to_commands (record hw {
      position_commands = positions;
      velocity_commands = fill_if hw.flags.has_velocity_command_interface hw.velocity_commands;
      torque_commands = fill_if hw.flags.has_torque_command_interface hw.torque_commands;
    })

  abbrev pub set_active : Bool → RsiHardware Double → RsiHardware Double
  set_active is_on hw = record hw {
    runtime = record hw.runtime { msg_received = false; is_active = is_on };
  }

  abbrev pub reset_initialized : RsiHardware Double → RsiHardware Double
  reset_initialized hw = record hw {
    runtime = record hw.runtime { interpolation_count_initialized = false };
  }

  -- The end of an activation whose first signal was sent, or could not be.
  abbrev pub after_send :
      {W : Type 0}
      → (RsiHardware Double → RsiHardware Double)
      → RsiHardware Double
      → W × Bool
      → RsiHardware Double × W × Option CallbackReturn
  after_send finish hw (w, true) = (finish (set_active true hw), w, some success)
  after_send finish hw (w, false) = (hw, w, none)

  module _ {W : Type 0} (robot : Robot W Double) where
    -- The first motion state and the first signal, behind which `finish` ends the activation.
    unfoldable pub first_cycle :
        ℕ → (RsiHardware Double → RsiHardware Double) → RsiHardware Double → W → Ended W Double
    first_cycle request_timeout finish hw w = do
      received ← receive robot request_timeout hw w
      commanded ← first_commands received.0
      some (after_send finish commanded (send_commands robot commanded received.1))

    unfoldable pub rsi_only_activate : RsiHardware Double → W → Ended W Double
    rsi_only_activate hw w =
        first_cycle 10000 (set_server_event control_started) (reset_diagnostics hw) w

    unfoldable pub rsi_only_deactivate :
        RsiHardware Double → W → RsiHardware Double × W × CallbackReturn
    rsi_only_deactivate hw w = (
      set_server_event control_stopped (set_active false hw),
      if hw.runtime.msg_received then robot.stop_controlling w else w,
      success,
    )

    -- ChangeCycleTime, whose result `extended_activation` does not look at.
    unfoldable pub change_cycle_time : RsiHardware Double → W → RsiHardware Double × W
    change_cycle_time hw w =
        let (w', code) = robot.set_cycle_time hw.cycle_time_command w in
        if hw.prev_cycle_time == hw.cycle_time_command
        then (hw, w)
        else if is_ok_code code
        then (record hw { prev_cycle_time = hw.cycle_time_command }, w')
        else (hw, w')

    -- From the change of cycle time on.
    unfoldable pub start_session : InstalledInterface → RsiHardware Double → W → Ended W Double
    start_session installed hw w =
        let (hw₁, w₁) = change_cycle_time hw w in
        let (w₂, code) = robot.start_controlling hw₁.hw_control_mode_command w₁ in
        let hw₂ = record hw₁ { prev_control_mode = u8 hw₁.hw_control_mode_command } in
        let started = first_cycle 5000 reset_initialized (check_status installed false hw₂) w₂ in
        if is_error_code code then some (hw₁, w₂, some failure) else started

    module _ (clock : Clock W) (actual : W → StatusInterfaces) (ext : ℕ) where
      -- What follows the wait for the drives.
      abbrev when_powered :
          InstalledInterface
          → RsiHardware Double
          → Option (StatusInterfaces × W × Bool)
          → Ended W Double
      when_powered installed hw none = none
      when_powered installed hw (some (status, w, in_time)) =
          let hw' = record hw { status = status } in
          let session = start_session installed hw' w in
          if in_time then session else some (hw', w, some failure)

      unfoldable pub extended_activation :
          InstalledInterface → RsiHardware Double → W → Ended W Double
      extended_activation installed hw₀ w =
          let hw = reset_diagnostics hw₀ in
          let w' = robot.turn_on_drives w in
          let powered =
            when_powered installed hw
              (wait_for_drives clock actual drives_fuel true (clock.now w') hw.status w') in
          let session = start_session installed hw w in
          if is_emergency_stop_active hw.status
          then some (hw, w, some failure)
          else if not (is_krc_in_ext_mode ext hw.status)
          then some (hw, w, some failure)
          else if not (drives_are_powered hw.status)
          then powered
          else session

      -- After a time-out the status is taken once more; the result is SUCCESS all the same.
      abbrev when_unpowered :
          RsiHardware Double
          → Option (StatusInterfaces × W × Bool)
          → Option (RsiHardware Double × W × CallbackReturn)
      when_unpowered hw none = none
      when_unpowered hw (some (status, w, in_time)) =
          some (record hw { status = if in_time then status else actual w }, w, success)

      abbrev pub stop_robot : RsiHardware Double → W → W
      stop_robot hw w =
          if hw.runtime.msg_received
          then robot.stop_controlling w
          else robot.cancel_rsi_program (robot.reset_control_signal w).0

      unfoldable pub extended_deactivation :
          RsiHardware Double → W → Option (RsiHardware Double × W × CallbackReturn)
      extended_deactivation hw w =
          let hw' = reset_initialized (set_active false hw) in
          let w₁ = stop_robot hw w in
          let w₂ = robot.turn_off_drives w₁ in
          let unpowered =
            when_unpowered hw'
              (wait_for_drives clock actual drives_fuel false (clock.now w₂) hw'.status w₂) in
          if drives_are_powered hw'.status then unpowered else some (hw', w₁, success)
