-- ===== src/Tests/HandlerRuns.antt =====
-- Runs of the controllers that hand commands on.
use kuka_drivers.Prelude.{[], refl, some, true, ℕ, ◌∷◌, ◌≡◌}
use kuka_drivers.Controllers.FriConfig.{
  FriConfigurationController, command_interface_names, on_configure, set_fri_config, update,
}
use kuka_drivers.Controllers.FriConfig.Handed.{configurations, fri_config_handed_on, named_values}
use kuka_drivers.Controllers.Impedance.{
  on_configure as configure, ImpedanceController, Params, read_listened, read_parameters,
}
use kuka_drivers.Controllers.Impedance.Twice.{interfaces_asked_twice}

abbrev two_robots : FriConfigurationController
two_robots = record {
  prefix_params = "a" ∷ "b" ∷ [];
  robot_prefixes = [];
  receive_multiplier = 0;
  send_period_ms = 0;
  commands = 0 ∷ 0 ∷ 0 ∷ 0 ∷ [];
}

fri_config_handed_on_example :
    (after : FriConfigurationController) × (update
        (λ i. true)
        (set_fri_config 2 5 (on_configure two_robots).0)
      ≡ some (after, true))
    × (named_values (command_interface_names two_robots) after.commands
        ≡ configurations 2 5 ("a" ∷ "b" ∷ []))
unfolding on_configure
fri_config_handed_on_example = fri_config_handed_on 2 5 (λ i. true) two_robots refl (λ i. refl) refl

abbrev one_joint_params : Params
one_joint_params = record { joints = "j" ∷ []; interface_names = "stiffness" ∷ "damping" ∷ [] }

abbrev impedance : ImpedanceController ℕ
impedance = record {
  param_listener = some one_joint_params;
  params = record { joints = []; interface_names = [] };
  command_interface_types = [];
  commanded_joint_pos = [];
  published = [];
}

interfaces_asked_twice_example :
    let twice = (configure 0 (λ read. read) (configure 0 (λ read. read) impedance).0).0 in
    twice.command_interface_types ≡ "j/stiffness" ∷ "j/damping" ∷ "j/stiffness" ∷ "j/damping" ∷ []
unfolding configure read_parameters read_listened
interfaces_asked_twice_example =
    interfaces_asked_twice 0 (λ read. read) (λ read c. (refl, refl, refl)) one_joint_params
      impedance refl refl refl
