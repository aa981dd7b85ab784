-- ===== src/Core/Services/Effects.antt =====
-- What the loops over the robots have achieved, told from the requests that were accepted.
use kuka_drivers.Prelude.{
  Bool, List, Option, String, [], arith, false, if◌then◌else◌, none, refl, some, str_eq, true, ℕ,
  ◌&&◌, ◌||◌, ◌∷◌, ◌≡◌,
}
use kuka_drivers.Core.Modes.{Lifecycle}
use kuka_drivers.Core.Services.{
  Log, Request, Services, Strictness, change_controller_state, change_hardware_state,
  set_hardware_component_state, set_update_rate, switch_controller,
}

abbrev pub elem : String → List String → Bool
elem x [] = false
elem x (y ∷ ys) = str_eq y x || elem x ys

-- The state of the last change of a robot's hardware that was accepted.
abbrev after_exchange : String → Request → Option Bool → Option Lifecycle → Option Lifecycle
after_exchange robot (set_hardware_component_state name state timeout) (some true) before =
    if str_eq name robot then some state else before
after_exchange robot (set_hardware_component_state name state timeout) _ before = before
after_exchange robot (switch_controller a d strictness) reply before = before
after_exchange robot (set_update_rate rate) reply before = before

abbrev pub last_accepted : String → Log → Option Lifecycle
last_accepted robot [] = none
last_accepted robot (e ∷ log) = after_exchange robot e.request e.reply (last_accepted robot log)

-- A change of hardware state that is accepted sets the state of its robot alone, and one that is
-- not accepted sets none.
pub last_accepted-change :
    (services : Services) (name : String) (state : Lifecycle) (timeout : ℕ) (log : Log)
    (robot : String)
    → let (log', ok) = change_hardware_state services name state timeout log in
      last_accepted robot log'
      ≡ (if ok && str_eq name robot then some state else last_accepted robot log)
unfolding change_hardware_state
last_accepted-change services name state timeout log robot = ground arith

pub last_accepted-switch :
    (services : Services) (a d : List String) (strictness : Strictness) (log : Log) (robot : String)
    → last_accepted robot (change_controller_state services a d strictness log).0
      ≡ last_accepted robot log
unfolding change_controller_state
last_accepted-switch services a d strictness log robot = refl
