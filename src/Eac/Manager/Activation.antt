-- ===== src/Eac/Manager/Activation.antt =====
-- An activation of the robot manager for iiQKA that does not succeed takes back what it did.
use kuka_drivers.Prelude.{
  Bool-cases, List, Option, String, [], any, arith, if◌then◌else◌, inl, inr, none, refl, reverse,
  some, true, ℕ, ◌&&◌, ◌∙◌, ◌∷◌, ◌≡◌, ◌≢◌, ◌⊎◌,
}
use kuka_drivers.Core.Modes.{
  CallbackReturn, Lifecycle, activating, active, failure, inactive, success,
}
use kuka_drivers.Core.Services.{Services, bring_down, change_controller_state, strict}
use kuka_drivers.Core.Services.Effects.{elem, last_accepted, last_accepted-switch}
use kuka_drivers.Core.Services.Loops.{
  AcceptsAll, bring_down_accepted, bring_down_all, bring_up_failed, elem-reverse,
}
use kuka_drivers.Eac.Manager.{
  EacManager, activate_hardware, activation_timeout, deactivation_timeout,
  event_subscription_callback, handle_events, on_activate, on_deactivate, rt_controllers,
  start_controllers, stop_controllers,
}
use kuka_drivers.Eac.Manager.Stages.{
  activate_all, events-terminate, started_success, stop_hardware, stops,
}
use kuka_drivers.Eac.Manager.Kept.{event-models, events-models}

module _ (services : Services) where
  -- With every robot agreeing, a deactivation makes all of them inactive whatever it returns.
  deactivated_hardware :
      (robot : String) (em : EacManager)
      → AcceptsAll services inactive deactivation_timeout
      → last_accepted robot (on_deactivate services em).0.log
        ≡ (if elem robot em.robot_models then some inactive else last_accepted robot em.log)
  unfolding on_deactivate
  deactivated_hardware robot em a =
      let (log', ok) =
        bring_down services inactive deactivation_timeout (reverse em.robot_models) true em.log in
      ground (
        arith,
        bring_down_accepted services robot inactive deactivation_timeout a (reverse em.robot_models)
            true em.log,
        bring_down_all services robot inactive deactivation_timeout (reverse em.robot_models) true
            em.log,
        stop_hardware services robot (rt_controllers em) (record em { log = log' }),
        elem-reverse services robot em.robot_models,
      )

  deactivate-state : (em : EacManager) → (on_deactivate services em).0.state ≡ em.state
  unfolding on_deactivate
  deactivate-state em =
      let down =
        bring_down services inactive deactivation_timeout (reverse em.robot_models) true em.log in
      ground (arith, stop_state (rt_controllers em) (record em { log = down.0 }))
    where
      stop_state :
          (o : Option (List String)) (em : EacManager)
          → (stop_controllers services o em).0.state ≡ em.state
      stop_state none em = refl
      stop_state (some names) em = refl

  module _ (deactivated : Option CallbackReturn → Lifecycle) (robot : String) where
    event_activating :
        (event : ℕ) (em : EacManager)
        → AcceptsAll services inactive deactivation_timeout
        → em.state ≡ activating
        → let em' = event_subscription_callback services deactivated event em in
          (em'.state ≡ activating)
          × (last_accepted robot em'.log ≡ (
              if stops event && elem robot em.robot_models
              then some inactive
              else last_accepted robot em.log))
    unfolding event_subscription_callback
    event_activating event em a s =
        let em' : EacManager = record em { terminate = true } in
        ground (arith, deactivated_hardware robot em' a, deactivate-state em')

    -- The events of an activation make its robots inactive if one of them stops it.
    events_activating :
        (events : List ℕ) (em : EacManager)
        → AcceptsAll services inactive deactivation_timeout
        → em.state ≡ activating
        → last_accepted robot (handle_events services deactivated events em).log ≡ (
            if any stops events && elem robot em.robot_models
            then some inactive
            else last_accepted robot em.log)
    unfolding handle_events
    events_activating [] em a s = refl
    events_activating (e ∷ events) em a s =
        let (s', h) = event_activating e em a s in
        let em' = event_subscription_callback services deactivated e em in
        ground (arith, h, events_activating events em' a s', event-models services deactivated e em)

    started_failure :
        (o : Option (List String)) (em : EacManager)
        → AcceptsAll services inactive deactivation_timeout
        → (start_controllers services o em).1 ≡ some failure
        → (last_accepted robot (start_controllers services o em).0.log
            ≡ (if elem robot em.robot_models then some inactive else last_accepted robot em.log))
          ⊎ (em.terminate ≡ true)
            × (last_accepted robot (start_controllers services o em).0.log
                ≡ last_accepted robot em.log)
    started_failure none em a s = cc
    started_failure (some names) em a s =
        let (log', started) = change_controller_state services names [] strict em.log in
        let em' : EacManager = record em { log = log' } in
        let e : last_accepted robot log' ≡ last_accepted robot em.log =
          last_accepted-switch services names [] strict em.log robot in
        elim (Bool-cases started) [
          | inr f ↦ inl (rw f (deactivated_hardware robot em' a ∙ rw e refl))
          | inl f ↦ inr (ground (arith, f, e))
        ]

    -- If an activation returns FAILURE while the controller manager accepts every request to make
    -- a robot inactive, whatever events arrive in its pause of 20 ms behind the loop over the
    -- robots, and none before, then a robot whose last accepted state is active was in that state
    -- before the activation began.
    pub pause_failure_puts_back :
        (events : List ℕ) (em : EacManager)
        → AcceptsAll services inactive deactivation_timeout
        → em.state ≡ activating
        → (on_activate services deactivated events em).1 ≡ some failure
        → last_accepted robot (on_activate services deactivated events em).0.log ≡ some active
        → last_accepted robot em.log ≡ some active
    unfolding on_activate activate_hardware
    pause_failure_puts_back events em a s r l =
        let em' = (activate_hardware services em).0 in
        let em'' = handle_events services deactivated events em' in
        elim (Bool-cases (activate_hardware services em).1) [
          | inr f ↦
              bring_up_failed services robot active activation_timeout inactive deactivation_timeout
                em.robot_models em.log (λ e. cc) a f (rw f at l)
          | inl f ↦ ground (
            arith,
            f,
            started_failure (rt_controllers em'') em'' a (rw f at r),
            events_activating events em' a s,
            events-terminate services deactivated events em',
            events-models services deactivated events em',
            activate_all services robot em f,
          )
        ]

    -- An activation during which an event reports that control stopped, or an error, does not
    -- succeed.
    stopped_activation_fails :
        (events : List ℕ) (em : EacManager)
        → any stops events ≡ true
        → (on_activate services deactivated events em).1 ≢ some success
    unfolding on_activate
    stopped_activation_fails events em h s =
        let em' = (activate_hardware services em).0 in
        let em'' = handle_events services deactivated events em' in
        ground (
          arith,
          started_success services robot (rt_controllers em'') em'',
          events-terminate services deactivated events em',
        )
