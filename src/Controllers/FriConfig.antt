-- ===== src/Controllers/FriConfig.antt =====
-- controllers/fri_configuration_controller/src/fri_configuration_controller.cpp: hands the
-- configuration of FRI on to the hardware interfaces of all robots.
--
-- The command interfaces are taken as those that the interface configuration asks for, two for each
-- robot. Their values stand for integers, and here they are the 32-bit patterns of those integers.
pub mod Handed
use kuka_drivers.Prelude.{
  Bool, List, Option, String, [], get_elem?, if◌then◌else◌, length, none, set, some, suc, true,
  zero, ℕ, ◌&&◌, ◌*◌, ◌+◌, ◌>>=◌, ◌∷◌,
}
use kuka_drivers.Core.Modes.{CallbackReturn, error, success}
use kuka_drivers.Controllers.Names.{compose_interface_name, each_robot}
use kuka_drivers.Core.Interfaces.{config_prefix, receive_multiplier_name, send_period_name}

pub record FriConfigurationController : Type 0 where
  -- params_.robot_prefixes
  pub prefix_params : List String
  pub robot_prefixes : List String
  pub receive_multiplier : ℕ
  pub send_period_ms : ℕ
  -- the values of the command interfaces
  pub commands : List ℕ

unfoldable pub command_interface_names : FriConfigurationController → List String
unfolding compose_interface_name
command_interface_names controller =
    each_robot
      (λ p.
        compose_interface_name p config_prefix receive_multiplier_name
        ∷ compose_interface_name p config_prefix send_period_name
        ∷ [])
      controller.prefix_params

unfoldable pub on_configure :
    FriConfigurationController → FriConfigurationController × CallbackReturn
on_configure controller = elim controller.prefix_params [
  | [] ↦ (controller, error)
  | prefix ∷ prefixes ↦ (record controller { robot_prefixes = controller.prefix_params }, success)
]

-- The callback of the subscription.
unfoldable pub set_fri_config : ℕ → ℕ → FriConfigurationController → FriConfigurationController
set_fri_config receive_multiplier send_period_ms controller = record controller {
  receive_multiplier = receive_multiplier;
  send_period_ms = send_period_ms;
}

-- `set_value` at index `i`, if the interface takes it; `none` is an index past the end.
unfoldable pub set_value : (ℕ → Bool) → ℕ → ℕ → List ℕ → Option (List ℕ)
set_value settable i value commands = elim (get_elem? commands i) [
  | none ↦ none
  | some old ↦ some (set commands i (if settable i then value else old))
]

-- The loop over the robots, with the number of those left and the index of the next.
unfoldable pub set_configs : (ℕ → Bool) → ℕ → ℕ → ℕ → ℕ → List ℕ → Bool → Option (List ℕ × Bool)
unfolding set_value
set_configs settable multiplier period zero idx commands all_set = some (commands, all_set)
set_configs settable multiplier period (suc left) idx commands all_set = do
  first ← set_value settable (idx * 2) multiplier commands
  second ← set_value settable (idx * 2 + 1) period first
  let all_set' = all_set && settable (idx * 2) && settable (idx * 2 + 1)
  set_configs settable multiplier period left (suc idx) second all_set'

-- `true` is return_type::OK.
unfoldable pub update :
    (ℕ → Bool) → FriConfigurationController → Option (FriConfigurationController × Bool)
update settable controller = do
  let robots = length controller.robot_prefixes
  (commands', ok) ←
      set_configs settable controller.receive_multiplier controller.send_period_ms robots 0
        controller.commands true
  some (record controller { commands = commands' }, ok)
