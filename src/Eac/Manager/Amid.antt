-- ===== src/Eac/Manager/Amid.antt =====
-- An activation of kuka_iiqka_eac_driver/src/robot_manager_node.cpp with the hardware events at any
-- moment of it. They are handled in a callback group of their own, beside the callback of the
-- activation.
use kuka_drivers.Prelude.{
  Bool, Bool-cases, List, Option, String, [], any, ap, arith, false, if◌then◌else◌, inl, inr, not,
  refl, some, suc, sym, true, ℕ, ◌==◌, ◌||◌, ◌∙◌, ◌∷◌, ◌≡◌,
}
use kuka_drivers.Core.Modes.{
  CallbackReturn, Lifecycle, activating, active, control_mode_switch, control_started, failure,
  inactive, u8,
}
use kuka_drivers.Core.Services.{Services, bring_up, change_hardware_state, rollback_hardware_states}
use kuka_drivers.Core.Services.Effects.{last_accepted}
use kuka_drivers.Core.Services.Loops.{AcceptsAll}
use kuka_drivers.Eac.Manager.{
  EacManager, activate_hardware, activation_timeout, deactivation_timeout,
  event_subscription_callback, handle_events, on_activate, rt_controllers, start_controllers,
}
use kuka_drivers.Eac.Manager.Stages.{stops}
use kuka_drivers.Eac.Manager.Activation.{pause_failure_puts_back}

module _ (services : Services) (deactivated : Option CallbackReturn → Lifecycle) where
  -- The loop over the robots from index `idx` on, with the events that are handled behind the
  -- request for each.
  unfoldable pub activate_robots : (ℕ → List ℕ) → ℕ → List String → EacManager → EacManager × Bool
  activate_robots during idx [] em = (em, true)
  activate_robots during idx (model ∷ todo) em =
      let (log', ok) = change_hardware_state services model active activation_timeout em.log in
      let em' = handle_events services deactivated (during idx) (record em { log = log' }) in
      let rest = activate_robots during (suc idx) todo em' in
      let rolled_back =
        rollback_hardware_states services em'.robot_models idx inactive deactivation_timeout
          em'.log in
      if ok then rest else (record em' { log = rolled_back }, false)

  -- `during` are the events in the loop, `events` those in the pause behind it.
  unfoldable pub on_activate_amid :
      (ℕ → List ℕ) → List ℕ → EacManager → EacManager × Option CallbackReturn
  on_activate_amid during events em =
      let (em', begun) =
        activate_robots during 0 em.robot_models (record em { terminate = false }) in
      let em'' = handle_events services deactivated events em' in
      let finished = start_controllers services (rt_controllers em'') em'' in
      if not begun then (em', some failure) else finished

  abbrev with_finished : Bool → EacManager → EacManager
  with_finished finished em = record em { control_mode_change_finished = finished }

  quiet_event :
      (event : ℕ) (em : EacManager)
      → stops event ≡ false
      → (finished : Bool) × (event_subscription_callback services deactivated event em
          ≡ with_finished finished em)
  unfolding event_subscription_callback
  quiet_event event em q = elim (Bool-cases (u8 event == control_started)) [
    | inl f ↦ (true, rw f refl)
    | inr f ↦ elim (Bool-cases (u8 event == control_mode_switch)) [
      | inl g ↦ (false, rw (f, q, g) refl)
      | inr g ↦ (em.control_mode_change_finished, rw (f, q, g) refl)
    ]
  ]

  quiet_events :
      (events : List ℕ) (em : EacManager)
      → any stops events ≡ false
      → (finished : Bool) × (handle_events services deactivated events em
          ≡ with_finished finished em)
  unfolding handle_events
  quiet_events [] em q = (em.control_mode_change_finished, refl)
  quiet_events (event ∷ events) em q =
      let (finished, e) = quiet_event event em (ground arith) in
      let (finished', e') = quiet_events events (with_finished finished em) (ground arith) in
      (finished', ap (handle_events services deactivated events) e ∙ e')

  -- An event that stops control is handled in the loop over the robots from `idx` on.
  abbrev pub stop_amid : (ℕ → List ℕ) → ℕ → List String → Bool
  stop_amid during idx [] = false
  stop_amid during idx (model ∷ todo) = any stops (during idx) || stop_amid during (suc idx) todo

  quiet_robots :
      (during : ℕ → List ℕ) (idx : ℕ) (todo : List String) (em : EacManager)
      → stop_amid during idx todo ≡ false
      → (finished : Bool) × (activate_robots during idx todo em ≡ (
          let (log', ok) =
            bring_up services active activation_timeout inactive deactivation_timeout
              em.robot_models idx todo em.log in
          (with_finished finished (record em { log = log' }), ok)))
  unfolding activate_robots bring_up
  quiet_robots during idx [] em q = (em.control_mode_change_finished, refl)
  quiet_robots during idx (model ∷ todo) em q =
      let (log', ok) = change_hardware_state services model active activation_timeout em.log in
      let em' : EacManager = record em { log = log' } in
      let (finished, e) = quiet_events (during idx) em' (ground arith) in
      let (finished', e') =
        quiet_robots during (suc idx) todo (with_finished finished em') (ground arith) in
      elim (Bool-cases ok) [
        | inr f ↦ (finished, rw (f, e) refl)
        | inl f ↦ (finished', rw (f, e) e')
      ]

  -- Without an event in the loop that stops control it is the activation that takes events in the
  -- pause alone, but for the flag of a finished change of mode.
  quiet_amid :
      (during : ℕ → List ℕ) (events : List ℕ) (em : EacManager)
      → stop_amid during 0 em.robot_models ≡ false
      → (finished : Bool) × (on_activate_amid during events em
          ≡ on_activate services deactivated events (with_finished finished em))
  unfolding on_activate_amid on_activate activate_hardware
  quiet_amid during events em q =
      let (finished, e) =
        quiet_robots during 0 em.robot_models (record em { terminate = false }) q in
      (finished, rw e refl)

  -- If an activation returns FAILURE while the controller manager accepts every request to make a
  -- robot inactive, and none of the events behind the requests for the robots is CONTROL_STOPPED or
  -- ERROR, whatever events arrive in the pause of 20 ms behind them, then a robot whose last
  -- accepted state is active was in that state before the activation began.
  pub failed_activation_puts_back :
      (robot : String) (during : ℕ → List ℕ) (events : List ℕ) (em : EacManager)
      → AcceptsAll services inactive deactivation_timeout
      → em.state ≡ activating
      → stop_amid during 0 em.robot_models ≡ false
      → (on_activate_amid during events em).1 ≡ some failure
      → last_accepted robot (on_activate_amid during events em).0.log ≡ some active
      → last_accepted robot em.log ≡ some active
  failed_activation_puts_back robot during events em a s q r l =
      let (finished, e) = quiet_amid during events em q in
      pause_failure_puts_back services deactivated robot events (with_finished finished em) a s
        (ap (λ x. x.1) (sym e) ∙ r) (ap (λ x. last_accepted robot x.0.log) (sym e) ∙ l)
