-- ===== src/Fri/Manager/Activation.antt =====
-- Where the lifecycle callbacks of kuka_sunrise_fri_driver/src/robot_manager_node.cpp leave the
-- robots' hardware.
use kuka_drivers.Prelude.{
  All, List, Option, String, [], arith, false, none, refl, reverse, some, true, ℕ, ◌++◌, ◌==◌, ◌∙◌,
  ◌∷◌, ◌≡◌,
}
use kuka_drivers.Core.Modes.{CallbackReturn, Lifecycle, active, error_event, inactive, success, u8}
use kuka_drivers.Core.Services.{
  Services, best_effort, bring_down, bring_up, change_controller_state, default_timeout,
  send_request, strict,
}
use kuka_drivers.Core.Services.Effects.{elem, last_accepted, last_accepted-switch}
use kuka_drivers.Core.Services.Loops.{bring_down_all, bring_up_all, elem-reverse}
use kuka_drivers.Fri.Manager.{
  FriManager, get_controller_name, send_period_change_request, validate_period,
}
use kuka_drivers.Fri.Manager.Transitions.{
  event_subscription_callback, handle_events, on_activate, on_deactivate, rt_controllers,
  start_controllers, stop_controllers,
}

module _ {Double : Type 0} (services : Services) (robot : String) where
  -- A change of the period makes at most one request, and none of a robot's hardware.
  pub period-hardware :
      (fm : FriManager Double)
      → last_accepted robot (send_period_change_request services fm).0.log
        ≡ last_accepted robot fm.log
  unfolding send_period_change_request validate_period send_request
  period-hardware fm = ground arith

  stop-hardware :
      (o : Option String) (fm : FriManager Double)
      → last_accepted robot (stop_controllers services o fm).0.log ≡ last_accepted robot fm.log
  stop-hardware none fm = refl
  stop-hardware (some name) fm =
      last_accepted-switch services ("joint_group_impedance_controller" ∷ [])
        (name ∷ rt_controllers) best_effort fm.log robot

  -- A deactivation of the FRI driver that reports success has brought every robot's hardware to the
  -- inactive state.
  pub deactivated_robots :
      (fm : FriManager Double)
      → (on_deactivate services fm).1 ≡ some success
      → elem robot fm.robot_models ≡ true
      → last_accepted robot (on_deactivate services fm).0.log ≡ some inactive
  unfolding on_deactivate
  deactivated_robots fm s m =
      let (log', ok) =
        bring_down services inactive default_timeout (reverse fm.robot_models) true fm.log in
      let f : ok ≡ true = ground arith in
      let (_, e) =
        bring_down_all services robot inactive default_timeout (reverse fm.robot_models) true fm.log
          f in
      let e' = elem-reverse services robot fm.robot_models in
      rw f (stop-hardware (get_controller_name fm) (record fm { log = log' }) ∙ e ∙ rw (e', m) refl)

  pub started-hardware :
      (o : Option String) (fm : FriManager Double)
      → (start_controllers services o fm).1 ≡ some success
      → last_accepted robot (start_controllers services o fm).0.log ≡ last_accepted robot fm.log
  started-hardware none fm s = cc
  started-hardware (some name) fm s =
      let (log', ok) =
        change_controller_state services (rt_controllers ++ name ∷ [])
          ("joint_group_impedance_controller" ∷ []) strict fm.log in
      ground (
        arith,
        period-hardware (record fm { log = log' }),
        last_accepted-switch services (rt_controllers ++ name ∷ [])
            ("joint_group_impedance_controller" ∷ []) strict fm.log robot,
      )

  -- Without an error among the events the pause changes nothing.
  quiet-events :
      (deactivated : Option CallbackReturn → Lifecycle) (events : List ℕ) (fm : FriManager Double)
      → All (λ e. (u8 e == error_event) ≡ false) events
      → handle_events services deactivated events fm ≡ fm
  unfolding handle_events event_subscription_callback
  quiet-events deactivated [] fm q = refl
  quiet-events deactivated (e ∷ events) fm (p, q) = rw p (quiet-events deactivated events fm q)

  -- An activation of the FRI driver that reports success, with no error event during it, has
  -- brought every robot's hardware to the active state.
  pub activated_robots :
      (deactivated : Option CallbackReturn → Lifecycle) (events : List ℕ) (fm : FriManager Double)
      → (on_activate services deactivated events fm).1 ≡ some success
      → All (λ e. (u8 e == error_event) ≡ false) events
      → elem robot fm.robot_models ≡ true
      → last_accepted robot (on_activate services deactivated events fm).0.log ≡ some active
  unfolding on_activate
  activated_robots deactivated events fm s q m =
      let (log', ok) =
        bring_up services active default_timeout inactive default_timeout fm.robot_models 0
          fm.robot_models fm.log in
      let f : ok ≡ true = ground arith in
      let fm' : FriManager Double = record fm { log = log' } in
      let quiet = quiet-events deactivated events fm' q in
      let e =
        bring_up_all services robot active default_timeout inactive default_timeout fm.robot_models
          0 fm.robot_models fm.log f in
      rw (f, quiet)
        (started-hardware (get_controller_name fm') fm' (rw (f, quiet) at s) ∙ e ∙ rw m refl)
