-- ===== src/Tests/CoreRuns.antt =====
-- Runs of the models of kuka_drivers_core.
use mathlib.Core.List.{Nodup-cons, Nodup-nil, not-mem-nil, Perm}
use kuka_drivers.Prelude.{
  List, Option, String, [], false, if◌then◌else◌, ltb, refl, some, true, ℕ, ◌==◌, ◌↔◌, ◌∷◌, ◌≡◌,
  ◌≢◌, ◌⊎◌,
}
use kuka_drivers.Core.Modes.{
  Lifecycle, inactive, joint_position_controller_type, torque_controller_type,
}
use kuka_drivers.Core.Clock.{exact_clock}
use kuka_drivers.Core.Waiting.{one_behind, sleep_time, wait_for_interpolation_count, wait_loop}
use kuka_drivers.Core.Waiting.Ends.{Waited, wait_for_interpolation_count_ends}
use kuka_drivers.Core.Validator.{validate_interfaces}
use kuka_drivers.Core.Validator.Exact.{validate_interfaces_exact}
use kuka_drivers.Core.Parameters.{
  Parameter, ParameterHandler, call_callback, can_set_parameter, change_all, change_one, find_param,
  is_set_allowed, on_param_change,
}
use kuka_drivers.Core.Parameters.Requests.{last_change_decides}

abbrev position_only : List String
position_only = "position" ∷ []

validate_interfaces_exact_example :
    (validate_interfaces position_only position_only ≡ true) ↔ Perm position_only position_only
validate_interfaces_exact_example =
    validate_interfaces_exact position_only position_only (Nodup-cons.1 (not-mem-nil, Nodup-nil))

different : joint_position_controller_type ≢ torque_controller_type
different e = cc

-- The count is one behind until 300 µs have passed.
abbrev slow_count : ℕ → ℕ
slow_count now = if ltb now 300 then 4 else 5

abbrev waited_400 : Option (ℕ × ℕ)
waited_400 = some (5, 400)

abbrev not_waited : Option (ℕ × ℕ)
not_waited = some (4, 0)

wait_for_interpolation_count_ends_example :
    ((true ≡ true)
      × (one_behind 5 ≡ one_behind 5)
      × Waited exact_clock slow_count 1000 5 4 0 waited_400)
    ⊎ (((true ≡ false) ⊎ (one_behind 5 ≢ one_behind 5)) × (waited_400 ≡ not_waited))
unfolding wait_for_interpolation_count wait_loop sleep_time
wait_for_interpolation_count_ends_example =
    wait_for_interpolation_count_ends exact_clock slow_count 5 4 true 0

-- A node whose state is a number that its one parameter sets, unless it is 0.
abbrev gain : Parameter ℕ ℕ
gain = record {
  name = "gain";
  rights = record { inactive_allowed = true; active_allowed = false };
  has_type = λ v. true;
  on_change_callback = λ v s. if v == 0 then (s, false) else (v, true);
}

abbrev node_in : Lifecycle → ParameterHandler ℕ ℕ
node_in state = record { params = gain ∷ []; current_state = λ s. some state }

abbrev no_parameters : ParameterHandler ℕ ℕ
no_parameters = record { params = []; current_state = λ s. some inactive }

-- The first change is refused, and the request is successful.
last_change_decides_example :
    on_param_change (node_in inactive) (("gain", 0) ∷ ("gain", 5) ∷ []) 1 ≡ (5, true)
unfolding on_param_change change_all change_one find_param can_set_parameter call_callback
    is_set_allowed
last_change_decides_example =
    last_change_decides (node_in inactive) (("gain", 0) ∷ []) "gain" 5 1 5 (gain, refl, refl, refl)
