-- ===== src/Core/Controllers/Lookup.antt =====
-- What a look-up of a mode's controllers returns after names were registered.
use kuka_drivers.Prelude.{String, [], arith, some, str_eq_iff, ℕ, ◌∷◌, ◌≡◌, ◌≢◌}
use kuka_drivers.Core.Modes.{
  ControllerType, joint_impedance_control, joint_impedance_controller_type, joint_position_control,
  joint_position_controller_type,
}
use kuka_drivers.Core.Controllers.{
  ControlModeMap, empty_map, get_controllers_for_mode, update_controller_name,
}

-- Names of two different kinds of controller may be registered in either order: every mode has
-- the same entry afterwards.
update_controller_name_comm :
    (t u : ControllerType) (a b : String) (m : ControlModeMap) (mode : ℕ)
    → t ≢ u
    → (update_controller_name u b (update_controller_name t a m).0).0 mode
      ≡ (update_controller_name t a (update_controller_name u b m).0).0 mode
unfolding update_controller_name
update_controller_name_comm t u a b m mode h = ground arith

-- With a position controller and a non-empty impedance controller registered and no other, joint
-- position mode runs the position controller and joint impedance mode runs both, the position
-- controller first.
impedance_pair :
    (p q : String)
    → q ≢ ""
    → let m' =
        (update_controller_name joint_impedance_controller_type q
          (update_controller_name joint_position_controller_type p empty_map).0).0 in
      (get_controllers_for_mode joint_position_control m' ≡ some (p ∷ []))
      × (get_controllers_for_mode joint_impedance_control m' ≡ some (p ∷ q ∷ []))
unfolding update_controller_name get_controllers_for_mode
impedance_pair p q h = ground (arith, str_eq_iff q "", str_eq_iff "" "")
