-- ===== src/Controllers/FriConfig/Handed.antt =====
-- The configuration of FRI on its way to the hardware interfaces of all robots.
use mathlib.Core.List.{append_assoc}
use kuka_drivers.Core.Modes.{success}
use kuka_drivers.Prelude.{
  ◌>>=◌, Bool, List, String, [], ap, arith, get_elem?-middle, length, length-append, refl,
  set-middle, some, suc, true, zero, ℕ, ◌*◌, ◌++◌, ◌+◌, ◌∙◌, ◌∷◌, ◌≡◌,
}
use kuka_drivers.Core.Interfaces.{config_prefix, receive_multiplier_name, send_period_name}
use kuka_drivers.Controllers.Names.{compose_interface_name, each_robot}
use kuka_drivers.Controllers.FriConfig.{
  FriConfigurationController, command_interface_names, on_configure, set_configs, set_fri_config,
  set_value, update,
}

-- The names asked for, each with the value of the command interface at its index.
abbrev pub named_values : List String → List ℕ → List (String × ℕ)
named_values [] values = []
named_values (n ∷ ns) [] = []
named_values (n ∷ ns) (v ∷ vs) = (n, v) ∷ named_values ns vs

-- What every robot is to be given.
abbrev pub configurations : ℕ → ℕ → List String → List (String × ℕ)
configurations multiplier period [] = []
configurations multiplier period (p ∷ ps) =
    (compose_interface_name p config_prefix receive_multiplier_name, multiplier)
    ∷ (compose_interface_name p config_prefix send_period_name, period)
    ∷ configurations multiplier period ps

abbrev pairs : ℕ → ℕ → ℕ → List ℕ
pairs zero multiplier period = []
pairs (suc n) multiplier period = multiplier ∷ period ∷ pairs n multiplier period

set_at :
    (settable : ℕ → Bool) (value i : ℕ) (before : List ℕ) (x : ℕ) (rest : List ℕ)
    → ((i : ℕ) → settable i ≡ true)
    → length before ≡ i
    → set_value settable i value (before ++ x ∷ rest) ≡ some (before ++ value ∷ rest)
unfolding set_value
set_at settable value i before x rest free e =
    let found = rw e at (get_elem?-middle before x rest) in
    let stored = rw e at (set-middle before x rest value) in
    rw (found, set_value) (rw (free i) (ap some stored))

configs_set :
    (settable : ℕ → Bool) (multiplier period left idx : ℕ) (before rest : List ℕ)
    → ((i : ℕ) → settable i ≡ true)
    → length before ≡ idx * 2
    → length rest ≡ left * 2
    → set_configs settable multiplier period left idx (before ++ rest) true
      ≡ some (before ++ pairs left multiplier period, true)
unfolding set_configs
configs_set settable multiplier period zero idx before [] free b l = refl
configs_set settable multiplier period zero idx before (x ∷ rest) free b l =
    absurd (omega (arith, l))
configs_set settable multiplier period (suc left) idx before [] free b l = absurd (omega (arith, l))
configs_set settable multiplier period (suc left) idx before (x ∷ []) free b l =
    absurd (omega (arith, l))
configs_set settable multiplier period (suc left) idx before (x ∷ y ∷ rest) free b l =
    let first = set_at settable multiplier (idx * 2) before x (y ∷ rest) free b in
    let moved = append_assoc before (multiplier ∷ []) (y ∷ rest) in
    let moved' = append_assoc before (multiplier ∷ []) (period ∷ rest) in
    let l₁ : length (before ++ multiplier ∷ []) ≡ idx * 2 + 1 =
      length-append before (multiplier ∷ []) ∙ omega (arith, b) in
    let second = set_at settable period (idx * 2 + 1) (before ++ multiplier ∷ []) y rest free l₁ in
    let after = append_assoc before (multiplier ∷ period ∷ []) rest in
    let l₂ : length (before ++ multiplier ∷ period ∷ []) ≡ suc idx * 2 =
      length-append before (multiplier ∷ period ∷ []) ∙ omega (arith, b) in
    let others =
      configs_set settable multiplier period left (suc idx) (before ++ multiplier ∷ period ∷ [])
        rest free l₂ (omega (arith, l)) in
    let end = append_assoc before (multiplier ∷ period ∷ []) (pairs left multiplier period) in
    rw (first, ◌>>=◌)
      (rw (rw (moved, moved') at second, ◌>>=◌)
        (rw (free (idx * 2), free (idx * 2 + 1)) (rw (after, end) at others)))

named_pairs :
    (multiplier period : ℕ) (ps : List String)
    → named_values
        (each_robot
          (λ p.
            compose_interface_name p config_prefix receive_multiplier_name
            ∷ compose_interface_name p config_prefix send_period_name
            ∷ [])
          ps)
        (pairs (length ps) multiplier period)
      ≡ configurations multiplier period ps
named_pairs multiplier period [] = refl
named_pairs multiplier period (p ∷ ps) =
    ap
      (λ rest.
        (compose_interface_name p config_prefix receive_multiplier_name, multiplier)
        ∷ (compose_interface_name p config_prefix send_period_name, period)
        ∷ rest)
      (named_pairs multiplier period ps)

configured_parts :
    (controller : FriConfigurationController)
    → (on_configure controller).1 ≡ success
    → let configured = (on_configure controller).0 in
      (configured.robot_prefixes ≡ controller.prefix_params)
      × (configured.commands ≡ controller.commands)
unfolding on_configure
configured_parts controller h = ground arith

-- After a configuration that succeeds and a message, on two command interfaces for each robot that
-- all take their value, an update succeeds, and the interfaces asked for hold, by their names, the
-- multiplier and the period of the message for every robot.
pub fri_config_handed_on :
    (multiplier period : ℕ) (settable : ℕ → Bool) (controller : FriConfigurationController)
    → (on_configure controller).1 ≡ success
    → ((i : ℕ) → settable i ≡ true)
    → length controller.commands ≡ length controller.prefix_params * 2
    → (after : FriConfigurationController) × (update settable
          (set_fri_config multiplier period (on_configure controller).0)
        ≡ some (after, true))
      × (named_values (command_interface_names controller) after.commands
          ≡ configurations multiplier period controller.prefix_params)
unfolding command_interface_names set_fri_config update
fri_config_handed_on multiplier period settable controller configured free l =
    let received = set_fri_config multiplier period (on_configure controller).0 in
    let parts = configured_parts controller configured in
    let set_ =
      configs_set settable multiplier period (length controller.prefix_params) 0 []
        controller.commands free refl l in
    (
      record received { commands = pairs (length controller.prefix_params) multiplier period },
      rw (parts.0, parts.1, set_, ◌>>=◌) refl,
      named_pairs multiplier period controller.prefix_params,
    )
