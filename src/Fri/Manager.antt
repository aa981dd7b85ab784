-- ===== src/Fri/Manager.antt =====
-- kuka_sunrise_fri_driver/src/robot_manager_node.cpp: the lifecycle callbacks of the robot manager
-- for FRI.
--
-- A callback takes the node's record and returns the new one with its result. A result `none` is
-- the `std::runtime_error` of a stored control mode that has no controller, or a read out of bounds
-- of the joint damping. `Double` is the type of
-- the joint impedance values. Messages are recorded in `published`, the latest first.
pub mod Transitions
pub mod Settings
pub mod Parameters
pub mod Limits
pub mod Activation
pub mod Failures
pub mod Amid
use kuka_drivers.Prelude.{
  Bool, List, Option, String, [], false, if◌then◌else◌, ltb, ltb_ℤ, negsuc, none, not, pos, some,
  sub_ℕ, suc, true, ℕ, ℤ, ◌*ℤ◌, ◌-◌, ◌/◌, ◌==◌, ◌||◌, ◌∷◌,
}
use kuka_drivers.Core.Modes.{
  Lifecycle, activating, active, joint_impedance_control, joint_position_control,
  joint_torque_control, u32, u32_max, u8,
}
use kuka_drivers.Core.Services.{Log, Services, is_ok, send_request, set_update_rate}

pub data Publication (Double : Type 0) : Type 0 where
  is_configured_msg : Bool → Publication Double
  control_mode_msg : ℕ → Publication Double
  -- receive_multiplier, send_period_ms
  fri_configuration : ℤ → ℤ → Publication Double
  impedance_msg : List Double → Publication Double

pub record FriManager (Double : Type 0) : Type 0 where
  pub robot_models : List String
  pub send_period_ms : ℤ
  pub receive_multiplier : ℤ
  pub joint_stiffness : List Double
  pub joint_damping : List Double
  -- control_mode_msg_.data
  pub control_mode : ℕ
  pub joint_pos_controller_name : String
  pub joint_torque_controller_name : String
  -- is_configured_pub_ is activated
  pub is_configured_active : Bool
  pub state : Lifecycle
  pub published : List (Publication Double)
  pub log : Log

abbrev pub is_active_state : Lifecycle → Bool
is_active_state active = true
is_active_state _ = false

abbrev pub is_activating_state : Lifecycle → Bool
is_activating_state activating = true
is_activating_state _ = false

-- A result on int, which wraps around.
unfoldable pub int32 : ℤ → ℤ
int32 (pos n) = let r = u32 n in if ltb r 2147483648 then pos r else negsuc (u32_max - r)
int32 (negsuc n) = let r = u32 n in if ltb r 2147483648 then negsuc r else pos (u32_max - r)

-- `1000 / ms` on int, for a period that `ValidatePeriod` has accepted
abbrev pub rate_of : ℤ → ℤ
rate_of (pos ms) = pos (1000 / ms)
rate_of (negsuc ms) = sub_ℕ 0 (1000 / suc ms)

module _ {Double : Type 0} where
  abbrev pub publish : Publication Double → FriManager Double → FriManager Double
  publish msg fm = record fm { published = msg ∷ fm.published }

  unfoldable pub validate_period : ℤ → FriManager Double → FriManager Double × Bool
  validate_period send_period fm =
      if is_active_state fm.state
      then (fm, false)
      else if ltb_ℤ send_period (pos 1) || ltb_ℤ (pos 100) send_period
      then (fm, false)
      else if ltb_ℤ (pos 10) (int32 (send_period *ℤ fm.receive_multiplier))
      then (fm, false)
      else (record fm { send_period_ms = send_period }, true)

  -- The message of `setImpedanceConfiguration`; a damping that is too short is read out of bounds.
  unfoldable pub interleave : List Double → List Double → Option (List Double)
  interleave [] damping = some []
  interleave (s ∷ stiffness) [] = none
  interleave (s ∷ stiffness) (d ∷ damping) = elim (interleave stiffness damping) [
    | none ↦ none
    | some rest ↦ some (s ∷ d ∷ rest)
  ]

  unfoldable pub get_controller_name : FriManager Double → Option String
  get_controller_name fm =
      let mode = u8 fm.control_mode in
      if mode == joint_position_control
      then some fm.joint_pos_controller_name
      else if mode == joint_impedance_control
      then some fm.joint_pos_controller_name
      else if mode == joint_torque_control
      then some fm.joint_torque_controller_name
      else none

abbrev pub non_rt_controllers : List String
non_rt_controllers =
    "fri_configuration_controller" ∷ "control_mode_handler" ∷ "event_broadcaster"
    ∷ "joint_group_impedance_controller" ∷ []

module _ {Double : Type 0} (services : Services) where
  unfoldable pub send_period_change_request : FriManager Double → FriManager Double × Bool
  send_period_change_request fm =
      let (fm', valid) = validate_period fm.send_period_ms fm in
      let fm'' = publish (fri_configuration fm'.receive_multiplier fm'.send_period_ms) fm' in
      let (log', reply) =
        send_request services (set_update_rate (rate_of fm''.send_period_ms)) fm''.log in
      if not valid then (fm', false) else (record fm'' { log = log' }, is_ok reply)
