-- ===== src/Tests/KssRuns.antt =====
-- Runs of the status message handler with one robot.
use kuka_drivers.Prelude.{
  All, List, Option, [], length, none, refl, replicate, some, suc, true, zero, ℕ, ◌∷◌, ◌≡◌,
}
use kuka_drivers.Core.Interfaces.{Exported, Held, integer, real}
use kuka_drivers.Controllers.Kss.{
  KssCycle, KssMessageHandler, on_configure, state_interface_names, update,
}
use kuka_drivers.Controllers.Kss.Rate.{IsFree, run}
use kuka_drivers.Controllers.Kss.Shown.{Member, all_exports, shown}
use kuka_drivers.Controllers.Kss.Fleet.{status_reaches_message}
use kuka_drivers.Controllers.Kss.CycleTimes.{cycle, last_cycle_time_handed_on, message, take_inputs}
use kuka_drivers.Rsi.Exports.{Described, export_state_interfaces}
use kuka_drivers.Tests.Lookup.{lent_value, lent_value-Lends}
use kuka_drivers.Tests.RsiBaseRuns.{off_in_ext, one_joint}

abbrev named_interfaces : Described
named_interfaces = record {
  joint_names = "j" ∷ [];
  gpio_state_names = [];
  gpio_command_names = [];
  interface_prefix = "a_";
}

abbrev exports_or : Option (List (Exported ℕ)) → List (Exported ℕ)
exports_or none = []
exports_or (some exports) = exports

robot_a : Member ℕ
unfolding export_state_interfaces
robot_a = record {
  robot_prefix = "a";
  described = named_interfaces;
  hw = one_joint;
  exports = exports_or (export_state_interfaces named_interfaces one_joint);
}

abbrev new_handler : KssMessageHandler
new_handler = record {
  prefix_params = "a" ∷ [];
  robot_prefixes = [];
  current_statuses = [];
  status_msg = ([], []);
  status_publish_counter = 7;
  cycle_time = 0;
  published = [];
  commands = 0 ∷ [];
}

abbrev integer_in : Held ℕ → Option ℕ
integer_in (integer n) = some n
integer_in (real d) = none

abbrev reading_nothing : KssCycle
reading_nothing = record { reading = λ i. none; lock_free = true; settable = λ i. true }

reading_a : KssCycle
unfolding state_interface_names robot_a
reading_a = record {
  reading =
      lent_value integer integer_in (all_exports (robot_a ∷ []))
        (state_interface_names new_handler);
  lock_free = true;
  settable = λ i. true;
}

IsFree-cycles : (n : ℕ) → All IsFree (replicate n reading_nothing)
IsFree-cycles zero = tt
IsFree-cycles (suc n) = (refl, IsFree-cycles n)

abbrev fifty_minus_one : List KssCycle
fifty_minus_one = replicate 49 reading_nothing

status_reaches_message_example :
    let before = run fifty_minus_one (on_configure new_handler).0 in
    (update reading_a before).0.published ≡ ("a" ∷ [], shown off_in_ext ∷ []) ∷ before.published
unfolding on_configure robot_a reading_a export_state_interfaces state_interface_names
status_reaches_message_example =
    status_reaches_message fifty_minus_one reading_a new_handler (robot_a ∷ []) refl refl
      ((refl, refl), tt) (refl, IsFree-cycles 49) refl
      (lent_value-Lends integer integer_in (all_exports (robot_a ∷ []))
        (state_interface_names new_handler) (λ v. refl)
        (
          refl,
          (
            refl,
            (
              refl,
              (refl, (refl, (refl, (refl, (refl, (refl, (refl, (refl, (refl, (refl, tt)))))))))),
            ),
          ),
        ))

last_cycle_time_handed_on_example :
    let inputs = message 2 ∷ cycle reading_nothing ∷ message 5 ∷ [] in
    let before = take_inputs inputs (on_configure new_handler).0 in
    ((update reading_nothing before).0.commands ≡ replicate (length before.commands) 2)
    × ((update reading_nothing before).1 ≡ true)
unfolding on_configure
last_cycle_time_handed_on_example =
    last_cycle_time_handed_on (message 2 ∷ cycle reading_nothing ∷ message 5 ∷ []) reading_nothing
      new_handler refl (λ i. refl)
