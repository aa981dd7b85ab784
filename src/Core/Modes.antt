-- ===== src/Core/Modes.antt =====
-- kuka_drivers_core/include/kuka_drivers_core/control_mode.hpp and hardware_event.hpp, and the
-- lifecycle states of lifecycle_msgs that the code names.
--
-- `ControlMode` and `HardwareEvent` are C++ enums over uint8_t that the code makes by a cast from
-- any integer, so a value of theirs is its code, with a name for each enumerator.
use kuka_drivers.Prelude.{ℕ, ◌%◌}

-- A cast to uint8_t; of an `int` given by its 32-bit pattern it keeps the low byte.
abbrev pub u8 : ℕ → ℕ
u8 n = n % 256

abbrev pub u32 : ℕ → ℕ
u32 n = n % 4294967296

abbrev pub u32_max : ℕ
u32_max = 4294967295

abbrev pub control_mode_unspecified : ℕ
control_mode_unspecified = 0

abbrev pub joint_position_control : ℕ
joint_position_control = 1

abbrev pub joint_impedance_control : ℕ
joint_impedance_control = 2

abbrev pub joint_velocity_control : ℕ
joint_velocity_control = 3

abbrev pub joint_torque_control : ℕ
joint_torque_control = 4

abbrev pub cartesian_position_control : ℕ
cartesian_position_control = 5

abbrev pub cartesian_impedance_control : ℕ
cartesian_impedance_control = 6

abbrev pub cartesian_velocity_control : ℕ
cartesian_velocity_control = 7

abbrev pub wrench_control : ℕ
wrench_control = 8

-- `unnamed` is any code that is no enumerator, the `default` of a switch.
pub data ControllerType : Type 0 where
  joint_position_controller_type cartesian_position_controller_type : ControllerType
  joint_impedance_controller_type cartesian_impedance_controller_type : ControllerType
  torque_controller_type wrench_controller_type : ControllerType
  joint_velocity_controller_type twist_controller_type : ControllerType
  unnamed : ControllerType

abbrev pub hardware_event_unspecified : ℕ
hardware_event_unspecified = 0

abbrev pub command_accepted : ℕ
command_accepted = 2

abbrev pub control_started : ℕ
control_started = 3

abbrev pub control_stopped : ℕ
control_stopped = 4

abbrev pub control_mode_switch : ℕ
control_mode_switch = 5

abbrev pub error_event : ℕ
error_event = 6

-- lifecycle_msgs/msg/State: the primary states, and the transition state of an activation.
pub data Lifecycle : Type 0 where
  unconfigured inactive active activating other_state : Lifecycle

-- The three results of a lifecycle callback.
pub data CallbackReturn : Type 0 where
  success failure error : CallbackReturn
