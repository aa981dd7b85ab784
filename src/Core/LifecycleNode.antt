-- ===== src/Core/LifecycleNode.antt =====
-- kuka_drivers_core/src/ros2_base_lc_node.cpp: the callback that the robot managers inherit for a
-- shutdown. The other callbacks of the base node only report success.
--
-- `on_deactivate` and `on_cleanup` are the node's own, which it calls by virtual dispatch.
use kuka_drivers.Prelude.{Bool, false, if◌then◌else◌, true}
use kuka_drivers.Core.Modes.{
  CallbackReturn, Lifecycle, activating, active, error, failure, inactive, other_state, success,
  unconfigured,
}

abbrev is_success : CallbackReturn → Bool
is_success success = true
is_success failure = false
is_success error = false

unfoldable pub on_shutdown :
    {S : Type 0}
    → (S → S × CallbackReturn)
    → (S → S × CallbackReturn)
    → Lifecycle
    → S
    → S × CallbackReturn
on_shutdown on_deactivate on_cleanup active s =
    let (s', result) = on_deactivate s in if is_success result then on_cleanup s' else (s', result)
on_shutdown on_deactivate on_cleanup inactive s = on_cleanup s
on_shutdown on_deactivate on_cleanup unconfigured s = (s, success)
on_shutdown on_deactivate on_cleanup activating s = (s, success)
on_shutdown on_deactivate on_cleanup other_state s = (s, success)
