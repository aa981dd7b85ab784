-- ===== src/Fri/Manager/Failures.antt =====
-- Activations of the robot manager in kuka_sunrise_fri_driver/src/robot_manager_node.cpp whose
-- result is not what became of the robots' hardware.
use kuka_drivers.Prelude.{
  Bool, List, Option, String, [], ap, arith, false, none, refl, reverse, some, suc, sym, true, ℕ, ℤ,
  ◌++◌, ◌∙◌, ◌∷◌, ◌≡◌, ◌≢◌,
}
use kuka_drivers.Core.Modes.{
  CallbackReturn, Lifecycle, activating, active, error_event, failure, inactive, success,
}
use kuka_drivers.Core.Services.{
  Log, Request, Services, best_effort, bring_down, bring_up, change_controller_state,
  change_hardware_state, default_timeout, is_ok, send_request, set_update_rate, strict,
  switch_controller,
}
use kuka_drivers.Core.Services.Effects.{elem, last_accepted}
use kuka_drivers.Core.Services.Loops.{AcceptsAll, bring_down_accepted, bring_up_all}
use kuka_drivers.Fri.Manager.{
  FriManager, get_controller_name, rate_of, send_period_change_request, validate_period,
}
use kuka_drivers.Fri.Manager.Transitions.{
  event_subscription_callback, handle_events, on_activate, on_deactivate, rt_controllers,
  start_controllers,
}
use kuka_drivers.Fri.Manager.Activation.{deactivated_robots, period-hardware, started-hardware}

module _ (services : Services) where
  all-accepted :
      (target back : Lifecycle) (t bt : ℕ)
      → AcceptsAll services target t
      → (robot_models todo : List String) (idx : ℕ) (log : Log)
      → (bring_up services target t back bt robot_models idx todo log).1 ≡ true
  unfolding bring_up change_hardware_state send_request
  all-accepted target back t bt a robot_models [] idx log = refl
  all-accepted target back t bt a robot_models (m ∷ todo) idx log =
      rw (a log m) (all-accepted target back t bt a robot_models todo (suc idx) _)

  abbrev RefusesRates : Type 0
  RefusesRates = (log : Log) (rate : ℤ) → services log (set_update_rate rate) ≢ some true

  abbrev AcceptsSwitches : Type 0
  AcceptsSwitches =
      (log : Log) (a d : List String) → services log (switch_controller a d strict) ≡ some true

  abbrev pub AcceptsEverything : Type 0
  AcceptsEverything = (log : Log) (request : Request) → services log request ≡ some true

not-accepted : (reply : Option Bool) → reply ≢ some true → is_ok reply ≡ false
not-accepted none n = refl
not-accepted (some true) n = absurd (n refl)
not-accepted (some false) n = refl

module _ {Double : Type 0} (services : Services) (robot : String) where
  rate_refused :
      (fm : FriManager Double)
      → RefusesRates services
      → (send_period_change_request services fm).1 ≡ false
  unfolding send_period_change_request send_request
  rate_refused fm r =
      let fm' = (validate_period fm.send_period_ms fm).0 in
      ground (arith, not-accepted _ (r fm'.log (rate_of fm'.send_period_ms)))

  started-refused :
      (o : Option String) (fm : FriManager Double)
      → AcceptsSwitches services
      → RefusesRates services
      → o ≢ none
      → ((start_controllers services o fm).1 ≡ some failure)
        × (last_accepted robot (start_controllers services o fm).0.log ≡ last_accepted robot fm.log)
  unfolding change_controller_state send_request
  started-refused none fm c r n = absurd (n refl)
  started-refused (some name) fm c r n =
      let e = c fm.log (rt_controllers ++ name ∷ []) ("joint_group_impedance_controller" ∷ []) in
      let log' =
        (change_controller_state services (rt_controllers ++ name ∷ [])
          ("joint_group_impedance_controller" ∷ []) strict fm.log).0 in
      let fm' : FriManager Double = record fm { log = log' } in
      ground (arith, e, rate_refused fm' r, period-hardware services robot fm')

  -- If the stored control mode has a controller, and the controller manager accepts every request
  -- to make a robot active and every change of controllers but no update rate, then an activation
  -- without events returns FAILURE and leaves every robot's hardware in the active state.
  pub refused_rate_leaves_active :
      (deactivated : Option CallbackReturn → Lifecycle) (fm : FriManager Double)
      → get_controller_name fm ≢ none
      → AcceptsAll services active default_timeout
      → AcceptsSwitches services
      → RefusesRates services
      → elem robot fm.robot_models ≡ true
      → ((on_activate services deactivated [] fm).1 ≡ some failure)
        × (last_accepted robot (on_activate services deactivated [] fm).0.log ≡ some active)
  unfolding on_activate handle_events get_controller_name
  refused_rate_leaves_active deactivated fm n a c r m =
      let (log', ok) =
        bring_up services active default_timeout inactive default_timeout fm.robot_models 0
          fm.robot_models fm.log in
      let f : ok ≡ true =
        all-accepted services active inactive default_timeout default_timeout a fm.robot_models
          fm.robot_models 0 fm.log in
      let fm' : FriManager Double = record fm { log = log' } in
      let (p, q) = started-refused (get_controller_name fm') fm' c r n in
      let e =
        bring_up_all services robot active default_timeout inactive default_timeout fm.robot_models
          0 fm.robot_models fm.log f in
      rw f (p, q ∙ e ∙ rw m refl)

  pub deactivation-accepted :
      (fm : FriManager Double) (name : String)
      → AcceptsEverything services
      → get_controller_name fm ≡ some name
      → (log' : Log) × (on_deactivate services fm ≡ (record fm { log = log' }, some success))
  unfolding on_deactivate change_controller_state send_request
  deactivation-accepted fm name acc e =
      let down =
        bring_down services inactive default_timeout (reverse fm.robot_models) true fm.log in
      let b : down.1 ≡ true =
        bring_down_accepted services robot inactive default_timeout (λ log n. acc log _)
          (reverse fm.robot_models) true fm.log in
      (
        (change_controller_state services ("joint_group_impedance_controller" ∷ [])
            (name ∷ rt_controllers) best_effort down.0).0,
        rw
            (
              b,
              e,
              acc down.0 (
                  switch_controller ("joint_group_impedance_controller" ∷ [])
                    (name ∷ rt_controllers) best_effort),
            )
            refl,
      )

  period-accepted :
      (fm : FriManager Double)
      → AcceptsEverything services
      → (validate_period fm.send_period_ms fm).1 ≡ true
      → (send_period_change_request services fm).1 ≡ true
  unfolding send_period_change_request send_request
  period-accepted fm acc v =
      let fm' = (validate_period fm.send_period_ms fm).0 in
      ground (arith, acc fm'.log (set_update_rate (rate_of fm'.send_period_ms)))

  pub valid-log :
      (fm : FriManager Double) (log' : Log)
      → (validate_period fm.send_period_ms (record fm { log = log' })).1
        ≡ (validate_period fm.send_period_ms fm).1
  unfolding validate_period
  valid-log fm log' = ground arith

  start-accepted :
      (fm : FriManager Double) (o : Option String)
      → AcceptsEverything services
      → o ≢ none
      → (validate_period fm.send_period_ms fm).1 ≡ true
      → (start_controllers services o fm).1 ≡ some success
  unfolding change_controller_state send_request
  start-accepted fm none acc n v = absurd (n refl)
  start-accepted fm (some name) acc n v =
      let e = acc fm.log (
        switch_controller (rt_controllers ++ name ∷ []) ("joint_group_impedance_controller" ∷ [])
          strict) in
      let log' =
        (change_controller_state services (rt_controllers ++ name ∷ [])
          ("joint_group_impedance_controller" ∷ []) strict fm.log).0 in
      ground (arith, e, period-accepted (record fm { log = log' }) acc (valid-log fm log' ∙ v))

  stopping-event :
      (deactivated : Option CallbackReturn → Lifecycle) (fm : FriManager Double)
      → fm.state ≡ activating
      → handle_events services deactivated (error_event ∷ []) fm ≡ (on_deactivate services fm).0
  unfolding handle_events event_subscription_callback
  stopping-event deactivated fm s = rw s refl

  -- An error event in the pause of an activation, and what comes behind it.
  pub pause_error_unnoticed :
      (deactivated : Option CallbackReturn → Lifecycle) (fm : FriManager Double) (name : String)
      → AcceptsEverything services
      → fm.state ≡ activating
      → get_controller_name fm ≡ some name
      → (validate_period fm.send_period_ms fm).1 ≡ true
      → elem robot fm.robot_models ≡ true
      → let fm'' = handle_events services deactivated (error_event ∷ []) fm in
        let (fm', result) = start_controllers services (get_controller_name fm'') fm'' in
        (result ≡ some success) × (last_accepted robot fm'.log ≡ some inactive)
  unfolding handle_events event_subscription_callback get_controller_name validate_period
  pause_error_unnoticed deactivated fm name acc s n v m =
      let (log₂, d) = deactivation-accepted fm name acc n in
      let fm₂ : FriManager Double = record fm { log = log₂ } in
      let stopped : last_accepted robot log₂ ≡ some inactive =
        rw d at (deactivated_robots services robot fm (rw d refl) m) in
      let started =
        start-accepted fm₂ (get_controller_name fm₂) acc (λ e. cc (sym n ∙ e))
          (valid-log fm log₂ ∙ v) in
      let kept = started-hardware services robot (get_controller_name fm₂) fm₂ started in
      let event = stopping-event deactivated fm s ∙ ap (λ r. r.0) d in
      rw event (started, kept ∙ stopped)
