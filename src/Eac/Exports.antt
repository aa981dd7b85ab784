-- ===== src/Eac/Exports.antt =====
-- export_state_interfaces and export_command_interfaces of
-- kuka_iiqka_eac_driver/src/hardware_interface.cpp. `none` is a read past the end of a vector.
use kuka_drivers.Prelude.{List, Option, String, [], get_elem?, some, suc, ℕ, ◌++◌, ◌>>=◌, ◌∷◌}
use kuka_drivers.Core.Interfaces.{
  Exported, config_prefix, control_mode_name, hw_if_commanded_position, hw_if_damping, hw_if_effort,
  hw_if_position, hw_if_stiffness, integer, interpolation_count_name, real, server_state_name,
  state_prefix,
}
use kuka_drivers.Eac.Hardware.{EacHardware}
use Prim.Native.String.{◌++◌ as append}

-- What the exports read of `info_`, and the prefix of the interfaces.
pub record Described : Type 0 where
  pub joint_names : List String
  pub interface_prefix : String

module _ {Double : Type 0} where
  -- The loop over the joints, from index `i` on.
  unfoldable pub export_joint_states :
      EacHardware Double → ℕ → List String → Option (List (Exported Double))
  export_joint_states hw i [] = some []
  export_joint_states hw i (name ∷ names) = do
    position ← get_elem? hw.position_states i
    torque ← get_elem? hw.torque_states i
    commanded ← get_elem? hw.commanded_position_states i
    rest ← export_joint_states hw (suc i) names
    some (
        (name, hw_if_position, real position)
        ∷ (name, hw_if_effort, real torque)
        ∷ (name, hw_if_commanded_position, real commanded)
        ∷ rest)

  unfoldable pub export_state_interfaces :
      Described → EacHardware Double → Option (List (Exported Double))
  unfolding export_joint_states
  export_state_interfaces described hw = do
    joints ← export_joint_states hw 0 described.joint_names
    let server = append described.interface_prefix state_prefix
    some (joints ++ (server, server_state_name, integer hw.server_state) ∷ [])

  unfoldable pub export_joint_commands :
      EacHardware Double → ℕ → List String → Option (List (Exported Double))
  export_joint_commands hw i [] = some []
  export_joint_commands hw i (name ∷ names) = do
    position ← get_elem? hw.position_commands i
    torque ← get_elem? hw.torque_commands i
    stiffness ← get_elem? hw.stiffness_commands i
    damping ← get_elem? hw.damping_commands i
    rest ← export_joint_commands hw (suc i) names
    some (
        (name, hw_if_position, real position)
        ∷ (name, hw_if_effort, real torque)
        ∷ (name, hw_if_stiffness, real stiffness)
        ∷ (name, hw_if_damping, real damping)
        ∷ rest)

  -- The count is the last that the controller has written.
  unfoldable pub export_command_interfaces :
      Described → ℕ → EacHardware Double → Option (List (Exported Double))
  unfolding export_joint_commands
  export_command_interfaces described count hw = do
    joints ← export_joint_commands hw 0 described.joint_names
    let group = append described.interface_prefix config_prefix
    some (
        joints
        ++ (group, control_mode_name, integer hw.control_mode_command)
          ∷ (group, interpolation_count_name, integer count)
          ∷ [])
