-- ===== src/Fri/Manager/Settings.antt =====
-- The parameter callbacks of kuka_sunrise_fri_driver/src/robot_manager_node.cpp; `validate_period`,
-- which the transitions use too, stands in the parent. A result `none` is a read out of bounds.
use kuka_drivers.Prelude.{
  Bool, List, Option, String, any, false, if◌then◌else◌, length, ltb_ℤ, negsuc, none, not, pos,
  some, true, ℕ, ℤ, ◌*ℤ◌, ◌-◌, ◌==◌, ◌||◌,
}
use kuka_drivers.Core.Modes.{
  ControllerType, joint_impedance_control, joint_position_control, joint_position_controller_type,
  joint_torque_control, torque_controller_type, u32, u32_max, u8,
}
use kuka_drivers.Fri.Manager.{
  FriManager, control_mode_msg, fri_configuration, impedance_msg, int32, interleave, publish,
}

-- The cast of an int to `control_mode_msg_.data`, a uint32_t.
abbrev uint32_of : ℤ → ℕ
uint32_of (pos n) = u32 n
uint32_of (negsuc n) = u32_max - u32 n

module _ {Double : Type 0} where
  unfoldable pub on_receive_multiplier_change_request :
      ℤ → FriManager Double → FriManager Double × Bool
  on_receive_multiplier_change_request receive_multiplier fm =
      if ltb_ℤ receive_multiplier (pos 1)
      then (fm, false)
      else if ltb_ℤ (pos 10) (int32 (receive_multiplier *ℤ fm.send_period_ms))
      then (fm, false)
      else (
        publish (fri_configuration receive_multiplier fm.send_period_ms)
            (record fm { receive_multiplier = receive_multiplier }),
        true,
      )

  abbrev change_mode : ℕ → FriManager Double → FriManager Double × Bool
  change_mode mode fm = (publish (control_mode_msg mode) (record fm { control_mode = mode }), true)

  unfoldable pub on_control_mode_change_request : ℤ → FriManager Double → FriManager Double × Bool
  on_control_mode_change_request control_mode fm =
      let mode = uint32_of control_mode in
      if u8 mode == joint_position_control
      then change_mode mode fm
      else if u8 mode == joint_impedance_control
      then change_mode mode fm
      else if u8 mode == joint_torque_control
      then if ltb_ℤ (pos 5) fm.send_period_ms then (fm, false) else change_mode mode fm
      else (fm, false)

  unfoldable pub on_controller_name_change_request :
      String → ControllerType → FriManager Double → FriManager Double × Bool
  on_controller_name_change_request name joint_position_controller_type fm =
      (record fm { joint_pos_controller_name = name }, true)
  on_controller_name_change_request name torque_controller_type fm =
      (record fm { joint_torque_controller_name = name }, true)
  on_controller_name_change_request name _ fm = (fm, false)

  abbrev send_impedance : FriManager Double → FriManager Double × Option Bool
  send_impedance fm = elim (interleave fm.joint_stiffness fm.joint_damping) [
    | none ↦ (fm, none)
    | some values ↦ (publish (impedance_msg values) fm, some true)
  ]

  -- `below x y` is the comparison x < y on doubles.
  module _ (below : Double → Double → Bool) (zero_double one_double : Double) where
    unfoldable pub on_joint_stiffness_change_request :
        List Double → FriManager Double → FriManager Double × Option Bool
    on_joint_stiffness_change_request stiffness fm =
        if not (length stiffness == 7)
        then (fm, some false)
        else if any (λ js. below js zero_double) stiffness
        then (fm, some false)
        else send_impedance (record fm { joint_stiffness = stiffness })

    unfoldable pub on_joint_damping_change_request :
        List Double → FriManager Double → FriManager Double × Option Bool
    on_joint_damping_change_request damping fm =
        if not (length damping == 7)
        then (fm, some false)
        else if any (λ jd. below jd zero_double || below one_double jd) damping
        then (fm, some false)
        else send_impedance (record fm { joint_damping = damping })
