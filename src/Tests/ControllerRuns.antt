-- ===== src/Tests/ControllerRuns.antt =====
-- Runs of the controllers of the FRI driver and of the control mode handler with one robot.
use kuka_drivers.Prelude.{
  All, List, Option, [], none, refl, replicate, some, suc, true, zero, ℕ, ◌∷◌, ◌≡◌,
}
use kuka_drivers.Core.Interfaces.{Exported, Held, integer, real}
use kuka_drivers.Controllers.FriState.{
  Casts, FriStateBroadcaster, FriStateCycle, on_configure, state_interface_names, update,
}
use kuka_drivers.Controllers.FriState.Rate.{IsFree, run}
use kuka_drivers.Controllers.FriState.Shown.{FriMember, fri_exports, shown}
use kuka_drivers.Controllers.FriState.Fleet.{fri_state_reaches_message}
use kuka_drivers.Fri.Exports.{Described, export_state_interfaces}
use kuka_drivers.Tests.Lookup.{lent_value, lent_value-Lends}
use kuka_drivers.Tests.FriCycleRuns.{one_joint, zero_state}

-- The values are natural numbers, and the casts leave them as they are.
abbrev same : Casts ℕ
same = record { to_int32 = λ d. d; of_int32 = λ n. n; zero_value = 0 }

abbrev named_interfaces : Described
named_interfaces = record { joint_names = "j" ∷ []; interface_prefix = "a_" }

abbrev exports_or : Option (List (Exported ℕ)) → List (Exported ℕ)
exports_or none = []
exports_or (some exports) = exports

robot_a : FriMember ℕ
unfolding export_state_interfaces
robot_a = record {
  robot_prefix = "a";
  described = named_interfaces;
  hw = one_joint;
  exports = exports_or (export_state_interfaces named_interfaces one_joint);
}

abbrev new_broadcaster : FriStateBroadcaster ℕ
new_broadcaster = record {
  prefix_params = "a" ∷ [];
  robot_prefixes = [];
  current_states = [];
  state_msg = ([], []);
  counter = 0;
  published = [];
}

abbrev double_in : Held ℕ → Option ℕ
double_in (integer n) = none
double_in (real d) = some d

abbrev reading_nothing : FriStateCycle ℕ
reading_nothing = record { reading = λ i. none; lock_free = true }

reading_a : FriStateCycle ℕ
unfolding state_interface_names robot_a
reading_a = record {
  reading =
      lent_value real double_in (fri_exports (robot_a ∷ []))
        (state_interface_names new_broadcaster);
  lock_free = true;
}

IsFree-cycles : (n : ℕ) → All IsFree (replicate n reading_nothing)
IsFree-cycles zero = tt
IsFree-cycles (suc n) = (refl, IsFree-cycles n)

abbrev ten_cycles : List (FriStateCycle ℕ)
ten_cycles = replicate 10 reading_nothing

fri_state_reaches_message_example :
    let before = run same ten_cycles (on_configure same new_broadcaster).0 in
    (update same reading_a before).published
    ≡ ("a" ∷ [], shown same zero_state ∷ []) ∷ before.published
unfolding on_configure robot_a reading_a export_state_interfaces state_interface_names
fri_state_reaches_message_example =
    fri_state_reaches_message same ten_cycles reading_a new_broadcaster (robot_a ∷ []) refl refl
      refl ((refl, refl), tt) (refl, IsFree-cycles 10) refl
      (lent_value-Lends real double_in (fri_exports (robot_a ∷ []))
        (state_interface_names new_broadcaster) (λ v. refl)
        (
          refl,
          (
            refl,
            (
              refl,
              (
                refl,
                (refl, (refl, (refl, (refl, (refl, (refl, (refl, (refl, (refl, (refl, tt)))))))))),
              ),
            ),
          ),
        ))
