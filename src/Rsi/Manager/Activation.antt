-- ===== src/Rsi/Manager/Activation.antt =====
-- An activation brings every robot's hardware up, or none of it.
use kuka_drivers.Prelude.{
  All, Bool-cases, List, Option, String, [], any, ap, arith, false, if◌then◌else◌, inl, inr, refl,
  some, true, ℕ, ◌==◌, ◌||◌, ◌∙◌, ◌∷◌, ◌≡◌, ◌≢◌,
}
use kuka_drivers.Core.Modes.{
  CallbackReturn, Lifecycle, active, error_event, failure, inactive, success, u8,
}
use kuka_drivers.Core.Services.{Services}
use kuka_drivers.Core.Services.Effects.{elem, last_accepted}
use kuka_drivers.Core.Services.Loops.{AcceptsAll}
use kuka_drivers.Rsi.Manager.{
  RobotManager, begin_activation, event_subscription_callback, finish_activation, handle_events,
  hardware_deactivation_timeout, on_activate, on_deactivate,
}
use kuka_drivers.Rsi.Manager.Stages.{
  begin_activation-Begun, finish_failure, finish_success, finish_terminated,
}

module _ (services : Services) where
  -- The events that arrive while the node is activating.
  module _ (deactivated : Option CallbackReturn → Lifecycle) where
    -- Without an error among the events the pause changes nothing.
    quiet_events :
        (events : List ℕ) (rm : RobotManager)
        → All (λ e. (u8 e == error_event) ≡ false) events
        → handle_events services deactivated events rm ≡ rm
    unfolding handle_events event_subscription_callback
    quiet_events [] rm q = refl
    quiet_events (e ∷ events) rm (p, q) = rw p (quiet_events events rm q)

    on_deactivate-terminate :
        (rm : RobotManager) → (on_deactivate services rm).0.terminate ≡ rm.terminate
    unfolding on_deactivate
    on_deactivate-terminate rm = ground arith

    event-terminate :
        (event : ℕ) (rm : RobotManager)
        → (event_subscription_callback services deactivated event rm).terminate
          ≡ (if u8 event == error_event then true else rm.terminate)
    unfolding event_subscription_callback
    event-terminate event rm =
        ground (arith, on_deactivate-terminate (record rm { terminate = true }))

    pub events-terminate :
        (events : List ℕ) (rm : RobotManager)
        → (handle_events services deactivated events rm).terminate
          ≡ (any (λ e. u8 e == error_event) events || rm.terminate)
    unfolding handle_events
    events-terminate [] rm = refl
    events-terminate (e ∷ events) rm = ground (
      arith,
      event-terminate e rm,
      events-terminate events (event_subscription_callback services deactivated e rm),
    )

    -- An activation with an error event in its pause never succeeds.
    pause_error_fails_activation :
        (events : List ℕ) (rm : RobotManager)
        → any (λ e. u8 e == error_event) events ≡ true
        → (on_activate services deactivated events rm).1 ≢ some success
    unfolding on_activate
    pause_error_fails_activation events rm h s =
        let rm' = handle_events services deactivated events (begin_activation services rm).0 in
        ground (
          arith,
          events-terminate events (begin_activation services rm).0,
          finish_terminated services rm',
        )

    -- An activation that succeeds, with no error event during it, has brought the hardware of every
    -- robot to the active state.
    on_activate_brings_up :
        (events : List ℕ) (rm : RobotManager) (robot : String)
        → (on_activate services deactivated events rm).1 ≡ some success
        → elem robot rm.robot_models ≡ true
        → All (λ e. (u8 e == error_event) ≡ false) events
        → last_accepted robot (on_activate services deactivated events rm).0.log ≡ some active
    unfolding on_activate
    on_activate_brings_up events rm robot s m q =
        let rm' = (begin_activation services rm).0 in
        elim (Bool-cases (begin_activation services rm).1) [
          | inr f ↦ absurd (ground (arith, f))
          | inl f ↦
              rw (f, quiet_events events rm' q)
                (finish_success services rm' robot (rw (f, quiet_events events rm' q) at s)
                  ∙ (begin_activation-Begun services rm).all_active f robot
                  ∙ ap (λ b. if b then some active else last_accepted robot rm.log) m)
        ]

    -- If an activation returns FAILURE, with no error event during it and with the controller
    -- manager accepting every request to make a robot inactive, then a robot whose last accepted
    -- state is active was in that state before the activation began.
    pub on_activate_puts_back :
        (events : List ℕ) (rm : RobotManager) (robot : String)
        → AcceptsAll services inactive hardware_deactivation_timeout
        → All (λ e. (u8 e == error_event) ≡ false) events
        → (on_activate services deactivated events rm).1 ≡ some failure
        → last_accepted robot (on_activate services deactivated events rm).0.log ≡ some active
        → last_accepted robot rm.log ≡ some active
    unfolding on_activate
    on_activate_puts_back events rm robot a q s l =
        let rm' = (begin_activation services rm).0 in
        let begun = begin_activation-Begun services rm in
        elim (Bool-cases (begin_activation services rm).1) [
          | inr f ↦ begun.none_active f a robot (rw f at l)
          | inl f ↦
              let e =
                finish_failure services rm' robot a begun.terminate
                  (rw (f, quiet_events events rm' q) at s) in
              let l' : last_accepted robot (finish_activation services rm').0.log ≡ some active =
                rw (f, quiet_events events rm' q) at l in
              ground (arith, e, l', begun.models, begun.all_active f robot)
        ]
