-- ===== src/Tests/LoopRuns.antt =====
-- A run of the control loop with one robot.
use kuka_drivers.Prelude.{All, Option, [], arith, false, map, none, refl, some, true, ℕ, ◌∷◌, ◌≡◌}
use kuka_drivers.Core.Clock.{exact_clock}
use kuka_drivers.Controllers.Events.{EventBroadcaster, on_activate, state_interface_names, update}
use kuka_drivers.Eac.Hardware.{read, take_motion_state}
use kuka_drivers.Eac.Loop.{Arm, System, broadcast_cycle, loop_turn, read_all}
use kuka_drivers.Eac.Loop.Steps.{countings}
use kuka_drivers.Eac.Loop.Turns.{mismatches}
use kuka_drivers.Eac.Loop.Run.{Activated, no_turn, turns_in_step}
use kuka_drivers.Core.Interfaces.{
  Held, hw_if_commanded_position, hw_if_effort, hw_if_position, integer, real, server_state_name,
}
use kuka_drivers.Eac.Exports.{export_joint_states, export_state_interfaces}
use kuka_drivers.Eac.Loop.Lent.{
  Watched, lent_cycle, server_states_reach_broadcaster, watched_exports,
}
use kuka_drivers.Tests.Lookup.{lent_value, lent_value-Lends}
use kuka_drivers.Tests.EacCycleRuns.{one_joint, standing}

abbrev started_arm : Arm ℕ ℕ
started_arm = record { robot = standing; hw = record one_joint { last_event = 3 } }

abbrev one_prefix : EventBroadcaster
one_prefix = record {
  robot_prefixes = "a" ∷ [];
  robots = record { name = "a"; last_event = 0; control_active = false } ∷ [];
  interpolation_count = 7;
  published = [];
  commands = 7 ∷ [];
}

started_system : System ℕ ℕ
unfolding on_activate
started_system = record {
  broadcaster = (on_activate one_prefix).0;
  arms = started_arm ∷ [];
  world = 0;
}

started_system-Activated : Activated one_prefix started_system
unfolding started_system on_activate
started_system-Activated = record {
  broadcaster_activated = refl;
  commands_lent = refl;
  robots_watched = refl;
  count_uninitialized = (refl, tt);
  synchronous = (refl, tt);
}

-- The first read: the robot is at 4.
abbrev read_arm : Arm ℕ ℕ
read_arm = record started_arm {
  hw = record one_joint {
    last_event = 3;
    server_state = 3;
    msg_received = true;
    position_states = 4 ∷ [];
    torque_states = 0 ∷ [];
    commanded_position_states = 9 ∷ [];
    cycle_count = 6;
  };
}

turns_in_step_example :
    (u : System ℕ ℕ) × (loop_turn exact_clock (λ hw. hw) 4000 (λ i. true) true started_system
      ≡ some u)
    × (u.broadcaster.interpolation_count ≡ 1)
    × All (λ c. c.last_interpolation_count_command ≡ 1) (countings u.arms)
    × (mismatches (countings u.arms) ≡ mismatches (countings started_system.arms))
unfolding started_system read_all read take_motion_state
turns_in_step_example =
    turns_in_step exact_clock (λ hw. hw) (λ hw. (refl, refl)) 0 one_prefix started_system
      started_system started_system-Activated no_turn (omega arith) 4000 (λ i. true) (read_arm ∷ [])
      4 refl ((refl, refl), tt)

watched_arm : Watched ℕ ℕ
unfolding export_state_interfaces export_joint_states
watched_arm = record {
  robot_prefix = "a";
  described = record { joint_names = "j1" ∷ []; interface_prefix = "a_" };
  arm = read_arm;
  exports =
      ("j1", hw_if_position, real 4)
      ∷ ("j1", hw_if_effort, real 0)
      ∷ ("j1", hw_if_commanded_position, real 9)
      ∷ ("a_state", server_state_name, integer 3)
      ∷ [];
}

abbrev integer_in : Held ℕ → Option ℕ
integer_in (integer n) = some n
integer_in (real d) = none

reading_arm : ℕ → Option ℕ
unfolding state_interface_names watched_arm
reading_arm =
    lent_value integer integer_in (watched_exports (watched_arm ∷ []))
      (state_interface_names one_prefix)

server_states_reach_broadcaster_example :
    (update (lent_cycle reading_arm (λ i. true)) one_prefix
      ≡ update (broadcast_cycle (λ i. true) (read_arm ∷ [])) one_prefix)
    × (map (λ r. r.last_event) (update (lent_cycle reading_arm (λ i. true)) one_prefix).0.robots
        ≡ 3 ∷ [])
unfolding watched_arm reading_arm state_interface_names export_state_interfaces export_joint_states
server_states_reach_broadcaster_example =
    server_states_reach_broadcaster one_prefix reading_arm (λ i. true) (watched_arm ∷ []) refl refl
      ((refl, refl), tt)
      (lent_value-Lends integer integer_in (watched_exports (watched_arm ∷ []))
        (state_interface_names one_prefix) (λ v. refl) (refl, (refl, (refl, (refl, tt)))))
