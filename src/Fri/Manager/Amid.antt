-- ===== src/Fri/Manager/Amid.antt =====
-- An activation of kuka_sunrise_fri_driver/src/robot_manager_node.cpp with the hardware events at any
-- moment up to the start of the controllers. They are handled in a callback group of their own,
-- beside the callback of the activation.
use kuka_drivers.Prelude.{
  Bool, Bool-cases, List, Option, String, [], ap, false, if◌then◌else◌, inl, inr, not, refl, some,
  suc, true, ℕ, ◌==◌, ◌∙◌, ◌∷◌, ◌≡◌,
}
use kuka_drivers.Core.Modes.{
  CallbackReturn, Lifecycle, activating, active, error_event, failure, inactive, success, u8,
}
use kuka_drivers.Core.Services.{
  Log, Services, bring_up, change_hardware_state, default_timeout, rollback_hardware_states,
  send_request,
}
use kuka_drivers.Core.Services.Effects.{elem, last_accepted}
use kuka_drivers.Fri.Manager.{FriManager, get_controller_name, validate_period}
use kuka_drivers.Fri.Manager.Transitions.{
  event_subscription_callback, handle_events, on_activate, on_deactivate, start_controllers,
}
use kuka_drivers.Fri.Manager.Failures.{
  AcceptsEverything, deactivation-accepted, pause_error_unnoticed, valid-log,
}

request_accepted :
    (services : Services) (model : String) (log : Log)
    → AcceptsEverything services
    → (change_hardware_state services model active default_timeout log).1 ≡ true
unfolding change_hardware_state send_request
request_accepted services model log acc = rw (acc log _) refl

module _ {Double : Type 0} (services : Services)
    (deactivated : Option CallbackReturn → Lifecycle) where
  -- The loop over the robots from index `idx` on, with the events that are handled behind the
  -- request for each.
  unfoldable pub activate_robots :
      (ℕ → List ℕ) → ℕ → List String → FriManager Double → FriManager Double × Bool
  activate_robots during idx [] fm = (fm, true)
  activate_robots during idx (model ∷ todo) fm =
      let (log', ok) = change_hardware_state services model active default_timeout fm.log in
      let fm' = handle_events services deactivated (during idx) (record fm { log = log' }) in
      let rest = activate_robots during (suc idx) todo fm' in
      let rolled_back =
        rollback_hardware_states services fm'.robot_models idx inactive default_timeout fm'.log in
      if ok then rest else (record fm' { log = rolled_back }, false)

  -- `during` are the events in the loop, `events` those in the pause behind it.
  unfoldable pub on_activate_amid :
      (ℕ → List ℕ) → List ℕ → FriManager Double → FriManager Double × Option CallbackReturn
  on_activate_amid during events fm =
      let (fm', begun) = activate_robots during 0 fm.robot_models fm in
      let fm'' = handle_events services deactivated events fm' in
      let started = start_controllers services (get_controller_name fm'') fm'' in
      if not begun then (fm', some failure) else started

  -- With no event in the loop it is the loop that all robot managers share.
  activate_robots-bring_up :
      (idx : ℕ) (todo : List String) (fm : FriManager Double)
      → activate_robots (λ i. []) idx todo fm ≡ (
          let (log', ok) =
            bring_up services active default_timeout inactive default_timeout fm.robot_models idx
              todo fm.log in
          (record fm { log = log' }, ok))
  unfolding activate_robots bring_up handle_events
  activate_robots-bring_up idx [] fm = refl
  activate_robots-bring_up idx (model ∷ todo) fm =
      let (log', ok) = change_hardware_state services model active default_timeout fm.log in
      elim (Bool-cases ok) [
        | inr f ↦ rw f refl
        | inl f ↦ rw f (activate_robots-bring_up (suc idx) todo (record fm { log = log' }))
      ]

  -- With no event in the loop it is the activation that takes events in the pause alone.
  on_activate_amid-on_activate :
      (events : List ℕ) (fm : FriManager Double)
      → on_activate_amid (λ i. []) events fm ≡ on_activate services deactivated events fm
  unfolding on_activate_amid on_activate
  on_activate_amid-on_activate events fm = rw (activate_robots-bring_up 0 fm.robot_models fm) refl

  module _ (name : String) (acc : AcceptsEverything services) where
    error_deactivates :
        (event : ℕ) (fm : FriManager Double)
        → fm.state ≡ activating
        → (u8 event == error_event) ≡ true
        → event_subscription_callback services deactivated event fm ≡ (on_deactivate services fm).0
    unfolding event_subscription_callback
    error_deactivates event fm s f = rw (f, s) refl

    -- While the node is activating, events leave no trace but the requests.
    event_log :
        (event : ℕ) (fm : FriManager Double)
        → fm.state ≡ activating
        → get_controller_name fm ≡ some name
        → (log' : Log) × (event_subscription_callback services deactivated event fm
            ≡ record fm { log = log' })
    unfolding event_subscription_callback
    event_log event fm s n =
        let (log', d) = deactivation-accepted services "" fm name acc n in
        elim (Bool-cases (u8 event == error_event)) [
          | inr f ↦ (fm.log, rw f refl)
          | inl f ↦ (log', error_deactivates event fm s f ∙ ap (λ r. r.0) d)
        ]

    events_log :
        (events : List ℕ) (fm : FriManager Double)
        → fm.state ≡ activating
        → get_controller_name fm ≡ some name
        → (log' : Log) × (handle_events services deactivated events fm ≡ record fm { log = log' })
    unfolding handle_events get_controller_name
    events_log [] fm s n = (fm.log, refl)
    events_log (event ∷ events) fm s n =
        let (log', e) = event_log event fm s n in
        let (log'', e') = events_log events (record fm { log = log' }) s n in
        (log'', ap (handle_events services deactivated events) e ∙ e')

    robots_log :
        (during : ℕ → List ℕ) (idx : ℕ) (todo : List String) (fm : FriManager Double)
        → fm.state ≡ activating
        → get_controller_name fm ≡ some name
        → (log' : Log) × (activate_robots during idx todo fm ≡ (record fm { log = log' }, true))
    unfolding activate_robots get_controller_name
    robots_log during idx [] fm s n = (fm.log, refl)
    robots_log during idx (model ∷ todo) fm s n =
        let (log₁, ok) = change_hardware_state services model active default_timeout fm.log in
        let (log₂, e) = events_log (during idx) (record fm { log = log₁ }) s n in
        let (log₃, e') = robots_log during (suc idx) todo (record fm { log = log₂ }) s n in
        (log₃, rw (request_accepted services model fm.log acc, e) e')

  -- If an error event arrives in the pause of an activation, behind the loop over the robots, the
  -- stored control mode has a controller, the stored send period is valid and the controller manager
  -- accepts every request, then the activation reports success, whatever other events are handled
  -- behind the requests for the robots, although every robot's hardware is in the inactive state.
  pub error_event_unnoticed :
      (robot : String) (during : ℕ → List ℕ) (fm : FriManager Double) (name : String)
      → AcceptsEverything services
      → fm.state ≡ activating
      → get_controller_name fm ≡ some name
      → (validate_period fm.send_period_ms fm).1 ≡ true
      → elem robot fm.robot_models ≡ true
      → let (fm', result) = on_activate_amid during (error_event ∷ []) fm in
        (result ≡ some success) × (last_accepted robot fm'.log ≡ some inactive)
  unfolding on_activate_amid get_controller_name
  error_event_unnoticed robot during fm name acc s n v m =
      let (log', loop) = robots_log name acc during 0 fm.robot_models fm s n in
      rw loop (
        pause_error_unnoticed services robot deactivated (record fm { log = log' }) name acc s n
          (valid-log services robot fm log' ∙ v) m)
