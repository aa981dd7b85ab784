-- ===== src/Eac/Manager/Kept.antt =====
-- The callbacks of the robot manager for iiQKA that leave the list of its robots alone.
use kuka_drivers.Prelude.{
  Bool, List, Option, String, [], arith, false, none, refl, reverse, some, true, ℕ, ◌∙◌, ◌∷◌, ◌≡◌,
}
use kuka_drivers.Core.Modes.{CallbackReturn, Lifecycle, inactive, u32, u8}
use kuka_drivers.Core.Controllers.{get_controllers_for_mode}
use kuka_drivers.Core.Services.{Services, bring_down, change_controller_state, strict}
use kuka_drivers.Eac.Manager.{
  EacManager, activate_hardware, control_mode_msg, deactivation_timeout,
  event_subscription_callback, handle_events, on_activate, on_cleanup, on_configure, on_deactivate,
  publish, rt_controllers, start_controllers, stop_controllers,
}
use kuka_drivers.Eac.Manager.Settings.{on_control_mode_change_request, start_new, stop_old}

module _ (services : Services) where
  pub cleanup-models : (em : EacManager) → (on_cleanup services em).0.robot_models ≡ em.robot_models
  unfolding on_cleanup
  cleanup-models em = refl

  pub configure-models :
      (em : EacManager) → (on_configure services em).0.robot_models ≡ em.robot_models
  unfolding on_configure on_cleanup
  configure-models em = ground arith

  stop-models :
      (o : Option (List String)) (em : EacManager)
      → (stop_controllers services o em).0.robot_models ≡ em.robot_models
  stop-models none em = refl
  stop-models (some names) em = refl

  pub deactivate-models :
      (em : EacManager) → (on_deactivate services em).0.robot_models ≡ em.robot_models
  unfolding on_deactivate
  deactivate-models em =
      let down =
        bring_down services inactive deactivation_timeout (reverse em.robot_models) true em.log in
      ground (arith, stop-models (rt_controllers em) (record em { log = down.0 }))

  start-models :
      (o : Option (List String)) (em : EacManager)
      → (start_controllers services o em).0.robot_models ≡ em.robot_models
  start-models none em = refl
  start-models (some names) em = ground (
    arith,
    deactivate-models
        (record em { log = (change_controller_state services names [] strict em.log).0 }),
  )

  new-models :
      (o : Option (List String)) (em : EacManager)
      → (start_new services o em).0.robot_models ≡ em.robot_models
  new-models none em = refl
  new-models (some names) em = ground (
    arith,
    deactivate-models
        (record em { log = (change_controller_state services names [] strict em.log).0 }),
  )

  old-models :
      (signalled : Bool) (target : ℕ) (o : Option (List String)) (em : EacManager)
      → (stop_old services signalled target o em).0.robot_models ≡ em.robot_models
  old-models signalled target none em = refl
  old-models signalled target (some names) em =
      let log' = (change_controller_state services [] names strict em.log).0 in
      let em' : EacManager = record em { log = log' } in
      ground (
        arith,
        deactivate-models em',
        new-models (get_controllers_for_mode target em.controller_handler)
            (record em' { control_mode_change_finished = false }),
      )

  pub mode-models :
      (signalled : Bool) (mode : ℕ) (em : EacManager)
      → (on_control_mode_change_request services signalled mode em).0.robot_models ≡ em.robot_models
  unfolding on_control_mode_change_request
  mode-models signalled mode em =
      let em' = publish (control_mode_msg (u32 mode)) em in
      ground (
        arith,
        old-models signalled (u8 mode)
            (get_controllers_for_mode em.control_mode em.controller_handler) em',
      )

  module _ (deactivated : Option CallbackReturn → Lifecycle) where
    pub event-models :
        (event : ℕ) (em : EacManager)
        → (event_subscription_callback services deactivated event em).robot_models ≡ em.robot_models
    unfolding event_subscription_callback
    event-models event em = ground (arith, deactivate-models (record em { terminate = true }))

    pub events-models :
        (events : List ℕ) (em : EacManager)
        → (handle_events services deactivated events em).robot_models ≡ em.robot_models
    unfolding handle_events
    events-models [] em = refl
    events-models (e ∷ events) em =
        events-models events (event_subscription_callback services deactivated e em)
        ∙ event-models e em

    pub activate-models :
        (events : List ℕ) (em : EacManager)
        → (on_activate services deactivated events em).0.robot_models ≡ em.robot_models
    unfolding on_activate activate_hardware
    activate-models events em =
        let em' = (activate_hardware services em).0 in
        let em'' = handle_events services deactivated events em' in
        ground (arith, start-models (rt_controllers em'') em'', events-models events em')
