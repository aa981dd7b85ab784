-- ===== src/Controllers/Mode.antt =====
-- controllers/kuka_control_mode_handler/src/kuka_control_mode_handler.cpp: hands the control mode
-- on to the hardware interfaces of all robots.
pub mod Handed
use kuka_drivers.Prelude.{
  Bool, List, Option, String, [], if◌then◌else◌, leb, none, some, suc, true, ℕ, ◌&&◌, ◌∷◌,
}
use kuka_drivers.Core.Modes.{CallbackReturn, control_mode_unspecified, error, success, u8}
use kuka_drivers.Controllers.Names.{compose_interface_name, each_robot}
use kuka_drivers.Core.Interfaces.{config_prefix, control_mode_name}

pub record ControlModeHandler : Type 0 where
  -- params_.robot_prefixes
  pub robot_prefixes : List String
  pub control_mode : ℕ
  -- the values of the command interfaces
  pub commands : List ℕ

unfoldable pub command_interface_names : ControlModeHandler → List String
unfolding compose_interface_name
command_interface_names handler =
    each_robot (λ p. compose_interface_name p config_prefix control_mode_name ∷ [])
      handler.robot_prefixes

unfoldable pub on_configure : ControlModeHandler → CallbackReturn
on_configure handler = elim handler.robot_prefixes [ [] ↦ error | prefix ∷ prefixes ↦ success ]

-- The subscription's callback. The message is a uint32, and an enumerator is made of it by a cast.
unfoldable pub receive_control_mode : ℕ → ControlModeHandler → ControlModeHandler
receive_control_mode data_ handler = record handler { control_mode = u8 data_ }

-- `none` is the exception that is thrown.
unfoldable pub on_activate : ControlModeHandler → Option CallbackReturn
on_activate handler =
    if leb handler.control_mode control_mode_unspecified then none else some success

-- The loop over the command interfaces.
unfoldable pub set_modes : (ℕ → Bool) → ℕ → ℕ → List ℕ → Bool → List ℕ × Bool
set_modes settable mode idx [] all_set = ([], all_set)
set_modes settable mode idx (old ∷ rest) all_set =
    let (rest', ok) = set_modes settable mode (suc idx) rest (settable idx && all_set) in
    ((if settable idx then mode else old) ∷ rest', ok)

-- `true` is return_type::OK.
unfoldable pub update : (ℕ → Bool) → ControlModeHandler → ControlModeHandler × Bool
update settable handler =
    let (commands', ok) = set_modes settable handler.control_mode 0 handler.commands true in
    (record handler { commands = commands' }, ok)
