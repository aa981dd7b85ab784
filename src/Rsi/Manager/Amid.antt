-- ===== src/Rsi/Manager/Amid.antt =====
-- An activation of kuka_rsi_driver/src/robot_manager_base.cpp with the hardware events at any moment
-- of it. They are handled in a callback group of their own, beside the callback of the activation.
use kuka_drivers.Prelude.{
  Bool, Bool-cases, List, Option, String, [], any, ap, arith, false, if◌then◌else◌, inl, inr, not,
  refl, some, suc, true, ℕ, ◌==◌, ◌||◌, ◌∷◌, ◌≡◌, ◌≢◌, ◌⊎◌,
}
use kuka_drivers.Core.Modes.{
  CallbackReturn, Lifecycle, active, error_event, failure, inactive, success, u8,
}
use kuka_drivers.Core.Services.{Services, bring_up, change_hardware_state, rollback_hardware_states}
use kuka_drivers.Rsi.Manager.{
  RobotManager, activate_hardware, begin_activation, change_cycle_time, finish_activation,
  handle_events, hardware_activation_timeout, hardware_deactivation_timeout, on_activate,
}
use kuka_drivers.Rsi.Manager.Activation.{events-terminate}
use kuka_drivers.Rsi.Manager.Stages.{finish_terminated}

module _ (services : Services) (deactivated : Option CallbackReturn → Lifecycle) where
  -- The loop over the robots from index `idx` on, with the events that are handled behind the
  -- request for each.
  unfoldable pub activate_robots :
      (ℕ → List ℕ) → ℕ → List String → RobotManager → RobotManager × Bool
  activate_robots during idx [] rm = (rm, true)
  activate_robots during idx (model ∷ todo) rm =
      let (log', ok) =
        change_hardware_state services model active hardware_activation_timeout rm.log in
      let rm' = handle_events services deactivated (during idx) (record rm { log = log' }) in
      let rest = activate_robots during (suc idx) todo rm' in
      let rolled_back =
        rollback_hardware_states services rm'.robot_models idx inactive
          hardware_deactivation_timeout rm'.log in
      if ok then rest else (record rm' { log = rolled_back }, false)

  -- `during` are the events in the loop, `events` those in the pause behind it.
  unfoldable pub on_activate_amid :
      (ℕ → List ℕ) → List ℕ → RobotManager → RobotManager × Option CallbackReturn
  on_activate_amid during events rm =
      let (rm₁, cycle_changed) =
        change_cycle_time services rm.cycle_time (record rm { terminate = false }) in
      let (rm₂, begun) = activate_robots during 0 rm₁.robot_models rm₁ in
      let finished = finish_activation services (handle_events services deactivated events rm₂) in
      if not cycle_changed
      then (rm₁, some failure)
      else if not begun
      then (rm₂, some failure)
      else finished

  -- With no event in the loop it is the loop that all robot managers share.
  activate_robots-bring_up :
      (idx : ℕ) (todo : List String) (rm : RobotManager)
      → activate_robots (λ i. []) idx todo rm ≡ (
          let (log', ok) =
            bring_up services active hardware_activation_timeout inactive
              hardware_deactivation_timeout rm.robot_models idx todo rm.log in
          (record rm { log = log' }, ok))
  unfolding activate_robots bring_up handle_events
  activate_robots-bring_up idx [] rm = refl
  activate_robots-bring_up idx (model ∷ todo) rm =
      let (log', ok) =
        change_hardware_state services model active hardware_activation_timeout rm.log in
      elim (Bool-cases ok) [
        | inr f ↦ rw f refl
        | inl f ↦ rw f (activate_robots-bring_up (suc idx) todo (record rm { log = log' }))
      ]

  -- With no event in the loop it is the activation that takes events in the pause alone.
  on_activate_amid-on_activate :
      (events : List ℕ) (rm : RobotManager)
      → on_activate_amid (λ i. []) events rm ≡ on_activate services deactivated events rm
  unfolding on_activate_amid on_activate begin_activation activate_hardware
  on_activate_amid-on_activate events rm =
      let (rm₁, changed) =
        change_cycle_time services rm.cycle_time (record rm { terminate = false }) in
      let loop = activate_robots-bring_up 0 rm₁.robot_models rm₁ in
      elim (Bool-cases changed) [ inr f ↦ rw f refl | inl f ↦ rw (f, loop) refl ]

  abbrev has_error : List ℕ → Bool
  has_error events = any (λ e. u8 e == error_event) events

  -- An error event is handled in the loop over the robots from `idx` on.
  abbrev pub error_amid : (ℕ → List ℕ) → ℕ → List String → Bool
  error_amid during idx [] = false
  error_amid during idx (model ∷ todo) = has_error (during idx) || error_amid during (suc idx) todo

  robots-terminate :
      (during : ℕ → List ℕ) (idx : ℕ) (todo : List String) (rm : RobotManager)
      → (activate_robots during idx todo rm).1 ≡ true
      → (activate_robots during idx todo rm).0.terminate
        ≡ (error_amid during idx todo || rm.terminate)
  unfolding activate_robots
  robots-terminate during idx [] rm e = refl
  robots-terminate during idx (model ∷ todo) rm e =
      let (log', ok) =
        change_hardware_state services model active hardware_activation_timeout rm.log in
      let rm' : RobotManager = record rm { log = log' } in
      let rm'' = handle_events services deactivated (during idx) rm' in
      elim (Bool-cases ok) [
        | inr f ↦ cc (rw f at e)
        | inl f ↦
            let later = robots-terminate during (suc idx) todo rm'' (rw f at e) in
            let here = events-terminate services deactivated (during idx) rm' in
            rw f (ground (arith, later, here))
      ]

  models_kept :
      (cycle : ℕ) (rm : RobotManager)
      → (change_cycle_time services cycle (record rm { terminate = false })).0.robot_models
        ≡ rm.robot_models
  unfolding change_cycle_time
  models_kept cycle rm = ground arith

  -- An activation during which an error event is handled, behind the request for a robot or in the
  -- pause behind all of them, never succeeds.
  pub error_event_fails_activation :
      (during : ℕ → List ℕ) (events : List ℕ) (rm : RobotManager)
      → (error_amid during 0 rm.robot_models ≡ true)
        ⊎ (any (λ e. u8 e == error_event) events ≡ true)
      → (on_activate_amid during events rm).1 ≢ some success
  unfolding on_activate_amid
  error_event_fails_activation during events rm h s =
      let cycle = change_cycle_time services rm.cycle_time (record rm { terminate = false }) in
      let rm₁ = cycle.0 in
      let loop = activate_robots during 0 rm₁.robot_models rm₁ in
      let rm₃ = handle_events services deactivated events loop.0 in
      let models : rm₁.robot_models ≡ rm.robot_models = models_kept rm.cycle_time rm in
      elim (Bool-cases cycle.1) [
        | inr c ↦ cc (rw c at s)
        | inl c ↦ elim (Bool-cases loop.1) [
          | inr b ↦ cc (rw (c, b) at s)
          | inl b ↦
              let amid = robots-terminate during 0 rm₁.robot_models rm₁ b in
              let paused = events-terminate services deactivated events loop.0 in
              let named : error_amid during 0 rm₁.robot_models
                  ≡ error_amid during 0 rm.robot_models =
                ap (error_amid during 0) models in
              let ended : rm₃.terminate ≡ true = ground (arith, amid, paused, named, h) in
              finish_terminated services rm₃ ended (rw (c, b) at s)
        ]
      ]
