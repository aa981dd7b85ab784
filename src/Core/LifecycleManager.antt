-- ===== src/Core/LifecycleManager.antt =====
-- kuka_drivers_core/src/lifecycle_manager.cpp: the node that configures and activates the robot
-- manager after delays.
--
-- `W` is everything outside. The clock, `rclcpp::ok` and the change_state service are parameters:
-- `request` is `sendRequest` with the field `success` of the response, `none` when there is none.
-- Delays are in microseconds. A result `none` means that the fuel of a loop ran out.
pub mod Ends
use kuka_drivers.Prelude.{
  Bool, List, Option, [], false, if◌then◌else◌, ltb, ltb_ℤ, negsuc, none, not, pos, some, suc, true,
  zero, ℕ, ℤ, ◌&&◌, ◌+◌, ◌-ℤ◌, ◌-◌, ◌/◌, ◌>>=◌, ◌∷◌,
}
use kuka_drivers.Core.Clock.{Clock}

abbrev pub transition_configure : ℕ
transition_configure = 1

abbrev pub transition_activate : ℕ
transition_activate = 3

abbrev pub check_period : ℕ
check_period = 50000

-- The requests sent, with the time of each, the latest first.
abbrev pub Sent : Type 0
Sent = List (ℕ × ℕ)

module _ {W : Type 0} (clock : Clock W) (rclcpp_ok : W → Bool) where
  open clock use {now, sleep}

  -- The `while` loop.
  unfoldable pub sleep_loop : ℕ → ℕ → ℕ → W → Option W
  sleep_loop zero start delay w = none
  sleep_loop (suc fuel) start delay w =
      let rest = sleep_loop fuel start delay (sleep check_period w) in
      if rclcpp_ok w && ltb (now w - start) delay then rest else some w

  -- Each turn takes at least 50 ms.
  abbrev pub sleep_fuel : ℕ → ℕ
  sleep_fuel delay = suc (delay / check_period + 1)

  unfoldable pub sleep_interruptible : ℤ → W → Option (W × Bool)
  sleep_interruptible (pos zero) w = some (w, rclcpp_ok w)
  sleep_interruptible (negsuc n) w = some (w, rclcpp_ok w)
  sleep_interruptible (pos (suc n)) w = elim (sleep_loop (sleep_fuel (suc n)) (now w) (suc n) w) [
    | none ↦ none
    | some w' ↦ some (w', rclcpp_ok w')
  ]

  module _ (request : ℕ → W → W × Option Bool) where
    unfoldable pub change_state : ℕ → W → W × Bool
    change_state transition w =
        let (w', response) = request transition w in
        (w', elim response [ none ↦ false | some success ↦ success ])

    -- The second wait and the request behind it.
    unfoldable pub run_activate : ℤ → Sent → W → Option (W × Sent)
    unfolding change_state
    run_activate remaining sent w = do
      (w', woken) ←
          if ltb_ℤ (pos 0) remaining then sleep_interruptible remaining w else some (w, true)
      let (w'', done) = change_state transition_activate w'
      some (if woken then (w'', (transition_activate, now w') ∷ sent) else (w', sent))

    unfoldable pub run : ℤ → ℤ → W → Option (W × Sent)
    unfolding change_state run_activate
    run configure_delay activate_delay w = do
      (w₁, woken) ← sleep_interruptible configure_delay w
      let (w₂, configured) = change_state transition_configure w₁
      let sent = (transition_configure, now w₁) ∷ []
      if not woken
          then some (w₁, [])
          else if not configured
          then some (w₂, sent)
          else run_activate (activate_delay -ℤ configure_delay) sent w₂
