-- ===== src/Tests/EacCycleRuns.antt =====
-- Runs of the hardware interface for iiQKA.
use kuka_drivers.Prelude.{[], false, if◌then◌else◌, ltb, refl, some, ℕ, ◌+◌, ◌∷◌, ◌≡◌}
use kuka_drivers.Core.Clock.{exact_clock}
use kuka_drivers.Eac.Hardware.{
  EacHardware, Robot, error_code, ok_code, on_activate, read, reply, write,
}
use kuka_drivers.Eac.Hardware.Holding.{
  IsSized, TimedOut, activation_holds_position, not_yet, timed_out,
}

-- A robot with one joint, that measures where the clock stands: the world is the clock.
abbrev pub standing : Robot ℕ ℕ
standing = record {
  setup = λ w. (w, ok_code);
  set_qos_profile = λ lost consecutive timeframe w. (w, ok_code);
  register_event_handler = λ w. (w, ok_code);
  start_controlling = λ mode w. (w + 1, ok_code);
  stop_controlling = λ w. w;
  receive_motion_state = λ timeout w. (w + 4, ok_code);
  measured_positions = λ w. w ∷ [];
  measured_torques = λ w. 0 ∷ [];
  add_joint_position_values = λ ps w. w;
  add_torque_values = λ ts w. w;
  add_stiffness_and_damping_values = λ ss ds w. w;
  switch_control_mode = λ mode w. (w, ok_code);
  send_control_signal = λ w. (w + 1, ok_code);
}

abbrev pub one_joint : EacHardware ℕ
one_joint = record {
  position_commands = 9 ∷ [];
  torque_commands = 0 ∷ [];
  stiffness_commands = 30 ∷ [];
  damping_commands = 1 ∷ [];
  position_states = 0 ∷ [];
  commanded_position_states = 0 ∷ [];
  torque_states = 0 ∷ [];
  control_mode_command = 1;
  prev_control_mode = 0;
  last_event = 0;
  server_state = 0;
  cycle_count = 5;
  msg_received = false;
  counting = record {
    is_async_hardware = false;
    last_interpolation_count_command = 0;
    interpolation_count_initialized = false;
    mismatches = [];
  };
}

one_joint-IsSized : IsSized 1 one_joint
one_joint-IsSized = record {
  position_states = refl;
  position_commands = refl;
  commanded_position_states = refl;
  torque_states = refl;
}

-- The same robot, from which nothing is received before 4.
abbrev late : Robot ℕ ℕ
late = record standing {
  receive_motion_state = λ timeout w. (w + 4, if ltb w 4 then error_code else ok_code);
}

-- After the activation and a read that times out.
abbrev timed_out_once : EacHardware ℕ
timed_out_once = record one_joint { prev_control_mode = 1; cycle_count = 0 }

late-TimedOut :
    TimedOut late exact_clock (λ w. 0) (on_activate late one_joint 1).0 2 timed_out_once 6
unfolding on_activate read write
late-TimedOut = timed_out not_yet refl refl refl

-- The robot stands at 10 when the first motion state comes in.
activation_holds_position_example :
    (hw₂ : EacHardware ℕ) × (read late timed_out_once 6 ≡ some (hw₂, 10))
    × ((hw₃ : EacHardware ℕ) × (v : ℕ) × (write late exact_clock (λ w. 0) hw₂ 10
          ≡ some (
              reply late hw₃ (
                late.add_stiffness_and_damping_values hw₂.stiffness_commands hw₂.damping_commands (
                  late.add_torque_values hw₂.torque_commands
                    (late.add_joint_position_values (10 ∷ []) v))))))
unfolding on_activate
activation_holds_position_example =
    activation_holds_position late exact_clock (λ w. 0) 1 one_joint 1 one_joint-IsSized refl
      late-TimedOut refl refl refl
