-- ===== src/Eac/Manager/Fleet.antt =====
-- What the robot manager for iiQKA promises of its robots, as operations on a fleet: the state that
-- each robot's hardware was last brought to.
pub mod Refinement
use kuka_drivers.Prelude.{
  Bool, List, Option, String, [], false, if◌then◌else◌, none, some, true, ℕ, ◌∷◌,
}
use kuka_drivers.Core.Modes.{
  CallbackReturn, Lifecycle, activating, active, error, failure, inactive, success, unconfigured,
}
use kuka_drivers.Core.Services.{Services}
use kuka_drivers.Core.Services.Effects.{elem, last_accepted}
use kuka_drivers.Rsi.Manager.Settings.{add_models, prefix_of}
use kuka_drivers.Eac.Manager.{EacManager, on_activate, on_cleanup, on_configure, on_deactivate}
use kuka_drivers.Eac.Manager.Settings.{
  on_control_mode_change_request, on_robot_models_change_request,
}

-- The calls of the manager by rclcpp, with what comes in during them.
pub data Call : Type 0 where
  configure deactivate cleanup : Call
  -- the events during the pause
  activate : List ℕ → Call
  -- whether the restart is signalled, and the mode
  change_mode : Bool → ℕ → Call
  -- the namespace and the models
  set_models : String → List String → Call

abbrev pub Fleet : Type 0
Fleet = String → Option Lifecycle

abbrev bring_to : Lifecycle → List String → Fleet → Fleet
bring_to state robot_models fleet =
    λ robot. if elem robot robot_models then some state else fleet robot

-- The models that the manager drives, and the fleet.
abbrev View : Type 0
View = List String × Fleet

abbrev pub view : EacManager → View
view em = (em.robot_models, λ robot. last_accepted robot em.log)

-- The promise of a call that succeeds.
unfoldable pub promised : Call → View → View
promised configure (models, fleet) = (models, bring_to inactive models fleet)
promised (activate events) (models, fleet) = (models, bring_to active models fleet)
promised deactivate (models, fleet) = (models, bring_to inactive models fleet)
promised cleanup (models, fleet) = (models, bring_to unconfigured models fleet)
promised (change_mode signalled mode) v = v
promised (set_models ns names) (models, fleet) = ((add_models (prefix_of ns) [] names).0, fleet)

unfoldable pub replay : List Call → View → View
replay [] v = v
replay (c ∷ calls) v = replay calls (promised c v)

abbrev pub succeeded : CallbackReturn → Bool
succeeded success = true
succeeded failure = false
succeeded error = false

abbrev pub is_success : Option CallbackReturn → Bool
is_success none = false
is_success (some result) = succeeded result

abbrev pub is_true : Option Bool → Bool
is_true none = false
is_true (some b) = b

module _ (services : Services) (deactivated : Option CallbackReturn → Lifecycle) where
  -- A call in the state that rclcpp has set for it.
  unfoldable pub call : Call → EacManager → EacManager × Bool
  call configure em = let (em', r) = on_configure services em in (em', succeeded r)
  call (activate events) em =
      let (em', r) = on_activate services deactivated events (record em { state = activating }) in
      (record em' { state = active }, is_success r)
  call deactivate em =
      let (em', r) = on_deactivate services em in (record em' { state = inactive }, is_success r)
  call cleanup em = let (em', r) = on_cleanup services em in (em', succeeded r)
  call (change_mode signalled mode) em =
      let (em', r) = on_control_mode_change_request services signalled mode em in (em', is_true r)
  call (set_models ns names) em = on_robot_models_change_request ns names em

  -- A sequence of calls, given up at the first that does not succeed.
  unfoldable pub run : List Call → EacManager → Option EacManager
  run [] em = some em
  run (c ∷ calls) em =
      let (em', ok) = call c em in let rest = run calls em' in if ok then rest else none
