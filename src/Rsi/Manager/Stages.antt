-- ===== src/Rsi/Manager/Stages.antt =====
-- The parts of an activation, and a deactivation: what each leaves of the robots' hardware.
use kuka_drivers.Prelude.{
  Bool, Bool-cases, List, Option, String, [], ap, arith, false, if◌then◌else◌, inl, inr, length,
  none, refl, reverse, some, sym, true, ℕ, ◌==◌, ◌∙◌, ◌≡◌, ◌≢◌,
}
use kuka_drivers.Core.Modes.{active, failure, inactive, success}
use kuka_drivers.Core.Services.{
  Services, best_effort, bring_down, change_controller_state, send_request, strict,
}
use kuka_drivers.Core.Services.Effects.{elem, last_accepted, last_accepted-switch}
use kuka_drivers.Core.Services.Loops.{
  AcceptsAll, bring_down_accepted, bring_down_all, bring_up_all, bring_up_failed, elem-reverse,
}
use kuka_drivers.Rsi.Manager.{
  RobotManager, activate_hardware, begin_activation, change_cycle_time, finish_activation,
  hardware_activation_timeout, hardware_deactivation_timeout, on_deactivate, rt_controllers,
  start_controllers, stop_controllers,
}

module _ (services : Services) where
  -- A change of cycle time makes at most one request, and none of a robot's hardware.
  record CycleKeeps (rm rm' : RobotManager) : Type 0 where
    models : rm'.robot_models ≡ rm.robot_models
    terminate : rm'.terminate ≡ rm.terminate
    hardware : (robot : String) → last_accepted robot rm'.log ≡ last_accepted robot rm.log

  change_cycle_time-keeps :
      (cycle : ℕ) (rm : RobotManager) → CycleKeeps rm (change_cycle_time services cycle rm).0
  unfolding change_cycle_time send_request
  change_cycle_time-keeps cycle rm = elim (Bool-cases (length rm.robot_models == 1)) [
    | inl e ↦ record { models = ground arith; terminate = ground arith; hardware = λ r. rw e }
    | inr e ↦ record { models = ground arith; terminate = ground arith; hardware = λ r. rw e }
  ]

  module _ (robot : String) where
    hardware_all :
        (rm : RobotManager) (ok : Bool)
        → (activate_hardware services rm ok).1 ≡ true
        → last_accepted robot (activate_hardware services rm ok).0.log
          ≡ (if elem robot rm.robot_models then some active else last_accepted robot rm.log)
    unfolding activate_hardware
    hardware_all rm false h = cc
    hardware_all rm true h =
        bring_up_all services robot active hardware_activation_timeout inactive
          hardware_deactivation_timeout rm.robot_models 0 rm.robot_models rm.log h

    hardware_none :
        (rm : RobotManager) (ok : Bool)
        → AcceptsAll services inactive hardware_deactivation_timeout
        → (activate_hardware services rm ok).1 ≡ false
        → last_accepted robot (activate_hardware services rm ok).0.log ≡ some active
        → last_accepted robot rm.log ≡ some active
    unfolding activate_hardware
    hardware_none rm false a h l = l
    hardware_none rm true a h l =
        bring_up_failed services robot active hardware_activation_timeout inactive
          hardware_deactivation_timeout rm.robot_models rm.log (λ e. cc) a h l

  hardware_models :
      (rm : RobotManager) (ok : Bool)
      → (activate_hardware services rm ok).0.robot_models ≡ rm.robot_models
  unfolding activate_hardware
  hardware_models rm false = refl
  hardware_models rm true = refl

  hardware_terminate :
      (rm : RobotManager) (ok : Bool)
      → (activate_hardware services rm ok).0.terminate ≡ rm.terminate
  unfolding activate_hardware
  hardware_terminate rm false = refl
  hardware_terminate rm true = refl

  -- What the first part of an activation leaves.
  pub record Begun (rm rm' : RobotManager) (ok : Bool) : Type 0 where
    pub models : rm'.robot_models ≡ rm.robot_models
    pub terminate : rm'.terminate ≡ false
    pub all_active :
        ok ≡ true
        → (robot : String)
        → last_accepted robot rm'.log
          ≡ (if elem robot rm.robot_models then some active else last_accepted robot rm.log)
    pub none_active :
        ok ≡ false
        → AcceptsAll services inactive hardware_deactivation_timeout
        → (robot : String) → last_accepted robot rm'.log ≡ some active
        → last_accepted robot rm.log ≡ some active

  pub begin_activation-Begun :
      (rm : RobotManager) → let (rm', ok) = begin_activation services rm in Begun rm rm' ok
  unfolding begin_activation
  begin_activation-Begun rm =
      let rm₀ : RobotManager = record rm { terminate = false } in
      let (rm₁, ok₁) = change_cycle_time services rm.cycle_time rm₀ in
      let k : CycleKeeps rm₀ rm₁ = change_cycle_time-keeps rm.cycle_time rm₀ in
      record {
        models = hardware_models rm₁ ok₁ ∙ k.models;
        terminate = hardware_terminate rm₁ ok₁ ∙ k.terminate;
        all_active = λ h robot. cc (
          k.hardware robot,
          ap (λ (ms : List String). elem robot ms) k.models,
          hardware_all robot rm₁ ok₁ h,
        );
        none_active = λ h a robot l. sym (k.hardware robot) ∙ hardware_none robot rm₁ ok₁ a h l;
      }

  -- The end of an activation.
  pub finish_terminated :
      (rm : RobotManager) → rm.terminate ≡ true → (finish_activation services rm).1 ≢ some success
  unfolding finish_activation
  finish_terminated rm e s = go (rt_controllers services rm) s
    where
      go : (o : Option (List String)) → (start_controllers services o rm).1 ≡ some success → ⊥
      go none h = cc
      go (some names) h = ground (arith)

  pub finish_success :
      (rm : RobotManager) (robot : String)
      → (finish_activation services rm).1 ≡ some success
      → last_accepted robot (finish_activation services rm).0.log ≡ last_accepted robot rm.log
  unfolding finish_activation
  finish_success rm robot s = go (rt_controllers services rm) s
    where
      go :
          (o : Option (List String))
          → (start_controllers services o rm).1 ≡ some success
          → last_accepted robot (start_controllers services o rm).0.log ≡ last_accepted robot rm.log
      go none h = cc
      go (some names) h = ground (arith, last_accepted-switch services names [] strict rm.log robot)

  stop_hardware :
      (o : Option (List String)) (rm : RobotManager) (robot : String)
      → last_accepted robot (stop_controllers services o rm).0.log ≡ last_accepted robot rm.log
  stop_hardware none rm robot = refl
  stop_hardware (some names) rm robot =
      last_accepted-switch services [] names best_effort rm.log robot

  -- The robots' hardware after a deactivation in which all of them agreed.
  deactivate_hardware :
      (rm : RobotManager) (robot : String)
      → (bring_down services inactive hardware_deactivation_timeout
          (reverse rm.robot_models)
          true
          rm.log).1
        ≡ true
      → last_accepted robot (on_deactivate services rm).0.log
        ≡ (if elem robot rm.robot_models then some inactive else last_accepted robot rm.log)
  unfolding on_deactivate
  deactivate_hardware rm robot f =
      let (log', ok) =
        bring_down services inactive hardware_deactivation_timeout (reverse rm.robot_models) true
          rm.log in
      let (_, e) =
        bring_down_all services robot inactive hardware_deactivation_timeout
          (reverse rm.robot_models) true rm.log f in
      rw f (
        stop_hardware (rt_controllers services rm) (record rm { log = log' }) robot
        ∙ e
        ∙ ap (λ b. if b then some inactive else last_accepted robot rm.log)
            (elem-reverse services robot rm.robot_models))

  agreed :
      (rm : RobotManager)
      → (on_deactivate services rm).1 ≡ some success
      → (bring_down services inactive hardware_deactivation_timeout
          (reverse rm.robot_models)
          true
          rm.log).1
        ≡ true
  unfolding on_deactivate
  agreed rm s = ground arith

  -- A deactivation that reports success has brought every robot's hardware to the inactive state.
  on_deactivate_brings_down :
      (rm : RobotManager) (robot : String)
      → (on_deactivate services rm).1 ≡ some success
      → elem robot rm.robot_models ≡ true
      → last_accepted robot (on_deactivate services rm).0.log ≡ some inactive
  on_deactivate_brings_down rm robot s m =
      deactivate_hardware rm robot (agreed rm s)
      ∙ ap (λ b. if b then some inactive else last_accepted robot rm.log) m

  pub finish_failure :
      (rm : RobotManager) (robot : String)
      → AcceptsAll services inactive hardware_deactivation_timeout
      → rm.terminate ≡ false
      → (finish_activation services rm).1 ≡ some failure
      → last_accepted robot (finish_activation services rm).0.log
        ≡ (if elem robot rm.robot_models then some inactive else last_accepted robot rm.log)
  unfolding finish_activation
  finish_failure rm robot a t s = go (rt_controllers services rm) s
    where
      go :
          (o : Option (List String))
          → (start_controllers services o rm).1 ≡ some failure
          → last_accepted robot (start_controllers services o rm).0.log
            ≡ (if elem robot rm.robot_models then some inactive else last_accepted robot rm.log)
      go none h = cc
      go (some names) h =
          let rm' : RobotManager = record rm {
            log = (change_controller_state services names [] strict rm.log).0;
          } in
          ground (
            arith,
            deactivate_hardware rm' robot (
                bring_down_accepted services robot inactive hardware_deactivation_timeout a
                  (reverse rm.robot_models) true rm'.log),
            last_accepted-switch services names [] strict rm.log robot,
          )
