-- ===== src/Core/Interfaces.antt =====
-- kuka_drivers_core/include/kuka_drivers_core/hardware_interface_types.hpp: the names of the
-- interfaces, and what a hardware interface exports.
use kuka_drivers.Prelude.{List, Option, String, [], get_elem?, some, suc, ℕ, ◌>>=◌, ◌∷◌}

-- The value behind an exported interface: always a double in the source; those that are only made
-- of integers are those integers.
pub data Held (Double : Type 0) : Type 0 where
  integer : ℕ → Held Double
  real : Double → Held Double

-- An exported interface: the name of its component, its own name, and its value.
abbrev pub Exported : Type 0 → Type 0
Exported Double = String × String × Held Double

abbrev pub hw_if_position : String
hw_if_position = "position"

abbrev pub hw_if_velocity : String
hw_if_velocity = "velocity"

abbrev pub hw_if_effort : String
hw_if_effort = "effort"

abbrev pub hw_if_stiffness : String
hw_if_stiffness = "stiffness"

abbrev pub hw_if_damping : String
hw_if_damping = "damping"

abbrev pub hw_if_external_torque : String
hw_if_external_torque = "external_torque"

abbrev pub hw_if_commanded_position : String
hw_if_commanded_position = "commanded_position"

abbrev pub io_prefix : String
io_prefix = "gpio"

abbrev pub config_prefix : String
config_prefix = "runtime_config"

abbrev pub fri_state_prefix : String
fri_state_prefix = "fri_state"

abbrev pub state_prefix : String
state_prefix = "state"

abbrev pub interpolation_count_name : String
interpolation_count_name = "interpolation_count"

abbrev pub receive_multiplier_name : String
receive_multiplier_name = "receive_multiplier"

abbrev pub send_period_name : String
send_period_name = "send_period_ms"

abbrev pub control_mode_name : String
control_mode_name = "control_mode"

abbrev pub cycle_time_name : String
cycle_time_name = "cycle_time"

abbrev pub server_state_name : String
server_state_name = "server_state"

-- The interfaces of the status of a KUKA controller, in the order in which they are exported.
abbrev pub kss_state_names : List String
kss_state_names =
    control_mode_name ∷ cycle_time_name ∷ "drives_powered" ∷ "emergency_stop" ∷ "guard_stop"
    ∷ "in_motion" ∷ "motion_possible" ∷ "operation_mode" ∷ "robot_stopped" ∷ []

-- Those of the state of FRI.
abbrev pub fri_state_names : List String
fri_state_names =
    "session_state" ∷ "connection_quality" ∷ "safety_state" ∷ "command_mode" ∷ control_mode_name
    ∷ "operation_mode" ∷ "drive_state" ∷ "overlay_type" ∷ "tracking_performance" ∷ []

-- The interfaces of the GPIO, from index `i` of their names on; `none` is a missing value.
unfoldable pub export_gpios :
    {Double : Type 0} → ℕ → List Double → List String → Option (List (Exported Double))
export_gpios i values [] = some []
export_gpios i values (name ∷ names) = do
  v ← get_elem? values i
  rest ← export_gpios (suc i) values names
  some ((io_prefix, name, real v) ∷ rest)
