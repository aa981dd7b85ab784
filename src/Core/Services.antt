-- ===== src/Core/Services.antt =====
-- kuka_drivers_core/include/communication_helpers/ros2_control_tools.hpp and service_tools.hpp:
-- the requests that the robot managers make to the controller manager of ROS 2.
--
-- The controller manager is no code of the repository. It is a parameter of every definition, a
-- function that answers a request from all that was exchanged before it. An answer `none` is a
-- service that is not there, or a time-out; `some ok` is the field `ok` (or `successful`).
pub mod Effects
pub mod Loops
use kuka_drivers.Prelude.{
  Bool, List, Option, String, [], false, if◌then◌else◌, none, some, suc, true, zero, ℕ, ℤ, ◌∷◌,
}
use kuka_drivers.Core.Modes.{Lifecycle}

pub data Strictness : Type 0 where
  strict best_effort : Strictness

pub data Request : Type 0 where
  -- name, target state, time-out in ms
  set_hardware_component_state : String → Lifecycle → ℕ → Request
  -- controllers to activate, controllers to deactivate
  switch_controller : List String → List String → Strictness → Request
  -- in Hz
  set_update_rate : ℤ → Request

pub record Exchange : Type 0 where
  pub request : Request
  pub reply : Option Bool

-- What was exchanged, the latest first.
abbrev pub Log : Type 0
Log = List Exchange

abbrev pub Services : Type 0
Services = Log → Request → Option Bool

abbrev pub is_ok : Option Bool → Bool
is_ok none = false
is_ok (some ok) = ok

-- The default time-out of a change of a hardware component's state.
abbrev pub default_timeout : ℕ
default_timeout = 2000

unfoldable pub send_request : Services → Request → Log → Log × Option Bool
send_request services request log =
    let reply = services log request in (record { request = request; reply = reply } ∷ log, reply)

unfoldable pub change_hardware_state : Services → String → Lifecycle → ℕ → Log → Log × Bool
unfolding send_request
change_hardware_state services name state timeout log =
    let (log', reply) =
      send_request services (set_hardware_component_state name state timeout) log in
    (log', is_ok reply)

unfoldable pub change_controller_state :
    Services → List String → List String → Strictness → Log → Log × Bool
unfolding send_request
change_controller_state services activate deactivate strictness log =
    let (log', reply) =
      send_request services (switch_controller activate deactivate strictness) log in
    (log', is_ok reply)

-- Puts the robots before index `failed_idx` back; a failure is logged and passed over.
unfoldable pub rollback_hardware_states : Services → List String → ℕ → Lifecycle → ℕ → Log → Log
rollback_hardware_states services robot_models zero target timeout log = log
rollback_hardware_states services [] (suc failed_idx) target timeout log = log
rollback_hardware_states services (model ∷ robot_models) (suc failed_idx) target timeout log =
    let (log', ok) = change_hardware_state services model target timeout log in
    rollback_hardware_states services robot_models failed_idx target timeout log'

-- The loop of configuration and of activation: the robots from index `idx` on are brought to
-- `target`; the first failure rolls the robots before it back to `back` and ends the loop.
unfoldable pub bring_up :
    Services → Lifecycle → ℕ → Lifecycle → ℕ → List String → ℕ → List String → Log → Log × Bool
bring_up services target timeout back back_timeout robot_models idx [] log = (log, true)
bring_up services target timeout back back_timeout robot_models idx (model ∷ todo) log =
    let (log', ok) = change_hardware_state services model target timeout log in
    let rest =
      bring_up services target timeout back back_timeout robot_models (suc idx) todo log' in
    if ok
    then rest
    else (rollback_hardware_states services robot_models idx back back_timeout log', false)

-- The loop of cleanup and of deactivation: every robot is asked, and the result tells whether all
-- of them agreed.
unfoldable pub bring_down : Services → Lifecycle → ℕ → List String → Bool → Log → Log × Bool
bring_down services target timeout [] all_done log = (log, all_done)
bring_down services target timeout (model ∷ todo) all_done log =
    let (log', ok) = change_hardware_state services model target timeout log in
    bring_down services target timeout todo (if ok then all_done else false) log'
