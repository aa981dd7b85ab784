-- ===== src/Rsi/Manager/Requests.antt =====
-- What the parameter callbacks of the RSI robot manager accept and store.
use kuka_drivers.Prelude.{
  All, Bool, Bool-cases, List, Option, String, [], arith, false, inl, inr, map, none, refl, some,
  str_eq, str_eq_iff, sym, true, ℕ, ◌++◌, ◌↔◌, ◌∙◌, ◌∷◌, ◌≡◌, ◌≢◌, ◌⊎◌,
}
use Prim.Native.String.{◌++◌ as append}
use mathlib.Core.List.{append-nil, append_assoc}
use kuka_drivers.Core.Controllers.{get_controllers_for_mode}
use kuka_drivers.Core.Services.{Services, change_controller_state, strict}
use kuka_drivers.Core.Modes.{active, joint_position_control, u32, u8}
use kuka_drivers.Rsi.Manager.{RobotManager, control_mode_msg, on_deactivate, publish}
use kuka_drivers.Rsi.Manager.Settings.{
  add_models, extended_tasks, on_control_mode_change_request, on_robot_models_change_request,
  prefix_of, rsi_only_tasks, start_new, stop_old, validate_cycle_time,
}

-- A request for a cycle time is accepted exactly when the node is not active and the value is that
-- of 4 ms or of 12 ms; then the value is stored, and otherwise nothing changes.
validate_cycle_time_exact :
    (cycle : ℕ) (rm : RobotManager)
    → let (rm', ok) = validate_cycle_time cycle rm in
      ((ok ≡ true) ↔ ((rm.state ≢ active) × ((cycle ≡ 1) ⊎ (cycle ≡ 2))))
      × (ok ≡ true → rm'.cycle_time ≡ cycle)
      × (ok ≡ false → rm' ≡ rm)
unfolding validate_cycle_time
validate_cycle_time_exact cycle rm =
    ((λ h. ground arith, λ h. ground arith), λ h. ground arith, λ h. ground arith)

-- The additional tasks of either node leave the stored control mode alone.
abbrev KeepsMode : (ℕ → RobotManager → RobotManager × Option Bool) → Type 0
KeepsMode additional =
    (mode : ℕ) (rm : RobotManager) → (additional mode rm).0.control_mode ≡ rm.control_mode

request_mode :
    (additional : ℕ → RobotManager → RobotManager × Option Bool) (mode : ℕ) (rm : RobotManager)
    → KeepsMode additional
    → let (rm', result) = on_control_mode_change_request additional mode rm in
      (result ≡ some true
        → (rm'.control_mode ≡ u8 mode)
          × ((u8 mode ≡ rm.control_mode) ⊎ (u8 mode ≡ joint_position_control)))
      × (result ≢ some true → rm'.control_mode ≡ rm.control_mode)
unfolding on_control_mode_change_request
request_mode additional mode rm k = let e = k mode rm in (λ h. ground arith, λ h. ground arith)

give_up_mode :
    (services : Services) (rm : RobotManager)
    → (on_deactivate services rm).0.control_mode ≡ rm.control_mode
unfolding on_deactivate
give_up_mode services rm = ground arith

start_new_mode :
    (services : Services) (o : Option (List String)) (rm : RobotManager)
    → (start_new services o rm).0.control_mode ≡ rm.control_mode
start_new_mode services none rm = refl
start_new_mode services (some names) rm =
    let (log', started) = change_controller_state services names [] strict rm.log in
    ground (arith, give_up_mode services (record rm { log = log' }))

stop_old_mode :
    (services : Services) (signalled : Bool) (target : ℕ) (o : Option (List String))
    (rm : RobotManager)
    → (stop_old services signalled target o rm).0.control_mode ≡ rm.control_mode
stop_old_mode services signalled target none rm = refl
stop_old_mode services signalled target (some names) rm =
    let (log', stopped) = change_controller_state services [] names strict rm.log in
    let rm' : RobotManager = record rm { log = log' } in
    ground (
      arith,
      give_up_mode services rm',
      start_new_mode services (get_controllers_for_mode target rm.controller_handler)
          (record rm' { control_mode_change_finished = false }),
    )

extended_KeepsMode :
    (services : Services) (signalled : Bool) → KeepsMode (extended_tasks services signalled)
unfolding extended_tasks
extended_KeepsMode services signalled mode rm = ground (
  arith,
  stop_old_mode services signalled (u8 mode)
      (get_controllers_for_mode rm.control_mode rm.controller_handler)
      (publish (control_mode_msg (u32 mode)) rm),
)

-- Whatever the controller manager answers and whichever node it is, a request for a control mode
-- that is reported as successful stores the requested code, and that is the mode stored before or
-- joint position control; any other request leaves the stored mode.
control_mode_request :
    (services : Services) (signalled : Bool) (mode : ℕ) (rm : RobotManager)
    → let stores = λ (r : RobotManager × Option Bool).
      (r.1 ≡ some true
        → (r.0.control_mode ≡ u8 mode)
          × ((u8 mode ≡ rm.control_mode) ⊎ (u8 mode ≡ joint_position_control)))
      × (r.1 ≢ some true → r.0.control_mode ≡ rm.control_mode) in
      stores (on_control_mode_change_request (extended_tasks services signalled) mode rm)
      × stores (on_control_mode_change_request rsi_only_tasks mode rm)
unfolding rsi_only_tasks
control_mode_request services signalled mode rm = (
  request_mode (extended_tasks services signalled) mode rm (extended_KeepsMode services signalled),
  request_mode rsi_only_tasks mode rm (λ m r. refl),
)

-- The robots' names when the loop accepts all of them.
add_models_accepted :
    (ns : String) (built models : List String)
    → (add_models ns built models).1 ≡ true
    → ((add_models ns built models).0 ≡ built ++ map (append ns) models) × All (λ m. m ≢ "") models
unfolding add_models
add_models_accepted ns built [] h = (sym (append-nil built), tt)
add_models_accepted ns built (m ∷ models) h = elim (Bool-cases (str_eq m "")) [
  | inl e ↦ cc (rw e at h)
  | inr e ↦
      let (p, q) = add_models_accepted ns (built ++ append ns m ∷ []) models (rw e at h) in
      (
        rw e (p ∙ append_assoc built (append ns m ∷ []) (map (append ns) models)),
        (λ k. ground (arith, str_eq_iff m ""), q),
      )
]

-- If a request for robot models is accepted, the list is not empty, no name in it is empty, and the
-- node holds exactly these names in their order, each behind the prefix of the namespace.
robot_models_request :
    (ns : String) (models : List String) (rm : RobotManager)
    → let (rm', ok) = on_robot_models_change_request ns models rm in
      ok ≡ true
      → (models ≢ [])
        × All (λ m. m ≢ "") models
        × (rm'.robot_models ≡ map (append (prefix_of ns)) models)
unfolding on_robot_models_change_request
robot_models_request ns [] rm h = cc
robot_models_request ns (m ∷ models) rm h =
    let (p, q) = add_models_accepted (prefix_of ns) [] (m ∷ models) h in (λ e. cc, q, p)
