-- ===== src/Core/Controllers.antt =====
-- kuka_drivers_core/src/controller_handler.cpp: which controllers a control mode needs.
pub mod Lookup
use kuka_drivers.Prelude.{
  Bool, List, Option, String, [], false, if◌then◌else◌, none, some, str_eq, true, ℕ, ◌==◌, ◌∷◌,
}
use kuka_drivers.Core.Modes.{
  ControllerType, cartesian_impedance_control, cartesian_impedance_controller_type,
  cartesian_position_control, cartesian_position_controller_type, cartesian_velocity_control,
  joint_impedance_control, joint_impedance_controller_type, joint_position_control,
  joint_position_controller_type, joint_torque_control, joint_velocity_control,
  joint_velocity_controller_type, torque_controller_type, twist_controller_type, unnamed,
  wrench_control, wrench_controller_type,
}

pub record ControllerTypes : Type 0 where
  pub standard_controller : String
  pub impedance_controller : String

-- `std::map<ControlMode, ControllerTypes>`, keyed by the mode's code.
abbrev pub ControlModeMap : Type 0
ControlModeMap = ℕ → Option ControllerTypes

abbrev pub empty_map : ControlModeMap
empty_map = λ _. none

abbrev entry_or_default : Option ControllerTypes → ControllerTypes
entry_or_default none = record { standard_controller = ""; impedance_controller = "" }
entry_or_default (some types) = types

-- `map[mode].standard_controller = name`: a missing entry is made first, with empty names.
abbrev set_standard : ℕ → String → ControlModeMap → ControlModeMap
set_standard mode name m = λ k.
    if k == mode then some (record (entry_or_default (m k)) { standard_controller = name }) else m k

abbrev set_impedance : ℕ → String → ControlModeMap → ControlModeMap
set_impedance mode name m = λ k.
    if k == mode
    then some (record (entry_or_default (m k)) { impedance_controller = name })
    else m k

unfoldable pub update_controller_name :
    ControllerType → String → ControlModeMap → ControlModeMap × Bool
update_controller_name joint_position_controller_type name m =
    (set_standard joint_impedance_control name (set_standard joint_position_control name m), true)
update_controller_name cartesian_position_controller_type name m = (
  set_standard cartesian_impedance_control name (set_standard cartesian_position_control name m),
  true,
)
update_controller_name joint_velocity_controller_type name m =
    (set_standard joint_velocity_control name m, true)
update_controller_name twist_controller_type name m =
    (set_standard cartesian_velocity_control name m, true)
update_controller_name joint_impedance_controller_type name m =
    (set_impedance joint_impedance_control name m, true)
update_controller_name cartesian_impedance_controller_type name m =
    (set_impedance cartesian_impedance_control name m, true)
update_controller_name torque_controller_type name m =
    (set_standard joint_torque_control name m, true)
update_controller_name wrench_controller_type name m = (set_standard wrench_control name m, true)
update_controller_name unnamed name m = (m, false)

unfoldable pub names_of : ControllerTypes → List String
names_of types =
    if str_eq types.impedance_controller ""
    then types.standard_controller ∷ []
    else types.standard_controller ∷ types.impedance_controller ∷ []

-- `none` is the `std::out_of_range` that `map::at` throws for a mode with no entry.
unfoldable pub get_controllers_for_mode : ℕ → ControlModeMap → Option (List String)
unfolding names_of
get_controllers_for_mode mode m = elim (m mode) [ none ↦ none | some types ↦ some (names_of types) ]
