-- ===== src/Core/Validator.antt =====
-- kuka_drivers_core/src/joint_interface_validator.cpp: the names of the interfaces that a joint
-- declares in the robot description.
pub mod Exact
pub mod Joints
use kuka_drivers.Prelude.{
  Bool, List, Option, String, [], all, false, if◌then◌else◌, length, none, not, some, str_eq, ◌==◌,
  ◌||◌, ◌∷◌,
}

-- `std::find(…) != end`, and `find` and `insert` of the set of seen names.
unfoldable pub contains : String → List String → Bool
contains x [] = false
contains x (y ∷ ys) = str_eq y x || contains x ys

-- The loop over the declared interfaces: `none` is an early `return false`, else the names seen.
unfoldable pub scan_interfaces : List String → List String → List String → Option (List String)
unfolding contains
scan_interfaces expected seen [] = some seen
scan_interfaces expected seen (x ∷ xs) =
    let rest = scan_interfaces expected (x ∷ seen) xs in
    if not (contains x expected) then none else if contains x seen then none else rest

-- The second loop: every expected name has been seen.
abbrev all_seen : List String → Option (List String) → Bool
all_seen expected none = false
all_seen expected (some seen) = all (λ e. contains e seen) expected

unfoldable pub validate_interfaces : List String → List String → Bool
unfolding scan_interfaces
validate_interfaces declared expected =
    if not (length declared == length expected)
    then false
    else all_seen expected (scan_interfaces expected [] declared)

-- hardware_interface::ComponentInfo, as far as the validator reads it.
pub record JointInfo : Type 0 where
  pub command_interfaces : List String
  pub state_interfaces : List String

unfoldable pub validate_joint_command_interfaces : JointInfo → List String → Bool
unfolding validate_interfaces
validate_joint_command_interfaces joint expected =
    validate_interfaces joint.command_interfaces expected

unfoldable pub validate_joint_state_interfaces : JointInfo → List String → Bool
unfolding validate_interfaces
validate_joint_state_interfaces joint expected = validate_interfaces joint.state_interfaces expected
