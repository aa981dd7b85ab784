-- ===== src/Eac/Manager/Stages.antt =====
-- What a callback of the robot manager for iiQKA leaves of the robots' hardware when it succeeds.
use kuka_drivers.Prelude.{
  Bool, List, Option, String, [], any, arith, false, if◌then◌else◌, none, refl, reverse, some, true,
  ℕ, ◌==◌, ◌||◌, ◌∷◌, ◌≡◌,
}
use kuka_drivers.Core.Modes.{
  CallbackReturn, Lifecycle, active, control_stopped, error_event, inactive, success, u32, u8,
  unconfigured,
}
use kuka_drivers.Core.Controllers.{get_controllers_for_mode}
use kuka_drivers.Core.Services.{
  Services, best_effort, bring_down, bring_up, change_controller_state, default_timeout, strict,
}
use kuka_drivers.Core.Services.Effects.{elem, last_accepted, last_accepted-switch}
use kuka_drivers.Core.Services.Loops.{bring_down_all, bring_up_all, elem-reverse}
use kuka_drivers.Eac.Manager.Settings.{on_control_mode_change_request, start_new, stop_old}
use kuka_drivers.Eac.Manager.{
  EacManager, activate_hardware, activation_timeout, control_mode_msg, deactivation_timeout,
  event_subscription_callback, handle_events, non_rt_controllers, on_activate, on_cleanup,
  on_configure, on_deactivate, publish, rt_controllers, start_controllers, stop_controllers,
}

-- Whether an event ends an activation.
abbrev pub stops : ℕ → Bool
stops event = u8 event == control_stopped || u8 event == error_event

module _ (services : Services) (robot : String) where
  pub cleanup_success :
      (em : EacManager)
      → (on_cleanup services em).1 ≡ success
      → last_accepted robot (on_cleanup services em).0.log
        ≡ (if elem robot em.robot_models then some unconfigured else last_accepted robot em.log)
  unfolding on_cleanup
  cleanup_success em s =
      let log₁ = (change_controller_state services [] non_rt_controllers strict em.log).0 in
      ground (
        arith,
        bring_down_all services robot unconfigured default_timeout em.robot_models true log₁,
        last_accepted-switch services [] non_rt_controllers strict em.log robot,
      )

  pub configure_success :
      (em : EacManager)
      → (on_configure services em).1 ≡ success
      → last_accepted robot (on_configure services em).0.log
        ≡ (if elem robot em.robot_models then some inactive else last_accepted robot em.log)
  unfolding on_configure
  configure_success em s =
      let up =
        bring_up services inactive default_timeout unconfigured default_timeout em.robot_models 0
          em.robot_models em.log in
      ground (
        arith,
        bring_up_all services robot inactive default_timeout unconfigured default_timeout
            em.robot_models 0 em.robot_models em.log,
        last_accepted-switch services non_rt_controllers [] strict up.0 robot,
      )

  pub stop_hardware :
      (o : Option (List String)) (em : EacManager)
      → last_accepted robot (stop_controllers services o em).0.log ≡ last_accepted robot em.log
  stop_hardware none em = refl
  stop_hardware (some names) em = last_accepted-switch services [] names best_effort em.log robot

  pub deactivate_success :
      (em : EacManager)
      → (on_deactivate services em).1 ≡ some success
      → last_accepted robot (on_deactivate services em).0.log
        ≡ (if elem robot em.robot_models then some inactive else last_accepted robot em.log)
  unfolding on_deactivate
  deactivate_success em s =
      let (log', ok) =
        bring_down services inactive deactivation_timeout (reverse em.robot_models) true em.log in
      ground (
        arith,
        bring_down_all services robot inactive deactivation_timeout (reverse em.robot_models) true
            em.log,
        stop_hardware (rt_controllers em) (record em { log = log' }),
        elem-reverse services robot em.robot_models,
      )

  pub activate_all :
      (em : EacManager)
      → (activate_hardware services em).1 ≡ true
      → last_accepted robot (activate_hardware services em).0.log
        ≡ (if elem robot em.robot_models then some active else last_accepted robot em.log)
  unfolding activate_hardware
  activate_all em f =
      bring_up_all services robot active activation_timeout inactive deactivation_timeout
        em.robot_models 0 em.robot_models em.log f

  pub started_success :
      (o : Option (List String)) (em : EacManager)
      → (start_controllers services o em).1 ≡ some success
      → (em.terminate ≡ false)
        × (last_accepted robot (start_controllers services o em).0.log ≡ last_accepted robot em.log)
  started_success none em s = cc
  started_success (some names) em s =
      ground (arith, last_accepted-switch services names [] strict em.log robot)

  new_hardware :
      (o : Option (List String)) (em : EacManager)
      → (start_new services o em).1 ≡ some true
      → last_accepted robot (start_new services o em).0.log ≡ last_accepted robot em.log
  new_hardware none em s = cc
  new_hardware (some names) em s =
      ground (arith, last_accepted-switch services names [] strict em.log robot)

  old_hardware :
      (signalled : Bool) (target : ℕ) (o : Option (List String)) (em : EacManager)
      → (stop_old services signalled target o em).1 ≡ some true
      → last_accepted robot (stop_old services signalled target o em).0.log
        ≡ last_accepted robot em.log
  old_hardware signalled target none em s = cc
  old_hardware signalled target (some names) em s =
      let log' = (change_controller_state services [] names strict em.log).0 in
      ground (
        arith,
        new_hardware (get_controllers_for_mode target em.controller_handler)
            (record em { log = log'; control_mode_change_finished = false }),
        last_accepted-switch services [] names strict em.log robot,
      )

  pub mode_success :
      (signalled : Bool) (mode : ℕ) (em : EacManager)
      → (on_control_mode_change_request services signalled mode em).1 ≡ some true
      → last_accepted robot (on_control_mode_change_request services signalled mode em).0.log
        ≡ last_accepted robot em.log
  unfolding on_control_mode_change_request
  mode_success signalled mode em s =
      let em' = publish (control_mode_msg (u32 mode)) em in
      ground (
        arith,
        old_hardware signalled (u8 mode)
            (get_controllers_for_mode em.control_mode em.controller_handler) em',
      )

module _ (services : Services) (deactivated : Option CallbackReturn → Lifecycle) where
  deactivate-terminate : (em : EacManager) → (on_deactivate services em).0.terminate ≡ em.terminate
  unfolding on_deactivate
  deactivate-terminate em = ground arith

  event-terminate :
      (event : ℕ) (em : EacManager)
      → (event_subscription_callback services deactivated event em).terminate
        ≡ stops event || em.terminate
  unfolding event_subscription_callback
  event-terminate event em = ground (arith, deactivate-terminate (record em { terminate = true }))

  pub events-terminate :
      (events : List ℕ) (em : EacManager)
      → (handle_events services deactivated events em).terminate ≡ any stops events || em.terminate
  unfolding handle_events
  events-terminate [] em = refl
  events-terminate (e ∷ events) em = ground (
    arith,
    event-terminate e em,
    events-terminate events (event_subscription_callback services deactivated e em),
  )

  quiet_event :
      (event : ℕ) (em : EacManager)
      → stops event ≡ false
      → (event_subscription_callback services deactivated event em).log ≡ em.log
  unfolding event_subscription_callback
  quiet_event event em q = ground arith

  pub quiet_events :
      (events : List ℕ) (em : EacManager)
      → any stops events ≡ false
      → (handle_events services deactivated events em).log ≡ em.log
  unfolding handle_events
  quiet_events [] em q = refl
  quiet_events (e ∷ events) em q = ground (
    arith,
    quiet_event e em,
    quiet_events events (event_subscription_callback services deactivated e em),
  )

  pub activate_success :
      (robot : String) (events : List ℕ) (em : EacManager)
      → (on_activate services deactivated events em).1 ≡ some success
      → last_accepted robot (on_activate services deactivated events em).0.log
        ≡ (if elem robot em.robot_models then some active else last_accepted robot em.log)
  unfolding on_activate
  activate_success robot events em s =
      let em' = (activate_hardware services em).0 in
      let em'' = handle_events services deactivated events em' in
      ground (
        arith,
        started_success services robot (rt_controllers em'') em'',
        events-terminate events em',
        quiet_events events em',
        activate_all services robot em,
      )
