-- ===== src/Tests/ModeRuns.antt =====
-- Runs of the control mode handler, and of the lifecycle manager.
use kuka_drivers.Prelude.{
  Bool, Option, [], get_elem?, if◌then◌else◌, none, pos, some, true, ℕ, ◌%◌, ◌+◌, ◌==◌, ◌↔◌, ◌∷◌,
  ◌≡◌,
}
use kuka_drivers.Core.Clock.{exact_clock}
use kuka_drivers.Core.LifecycleManager.{Sent, run}
use kuka_drivers.Core.LifecycleManager.Ends.{IsOrderly, run_ends}
use kuka_drivers.Controllers.Mode.{ControlModeHandler, on_activate, receive_control_mode, update}
use kuka_drivers.Controllers.Mode.Handed.{all_settable, mode_handed_on}

abbrev two_handled : ControlModeHandler
two_handled = record { robot_prefixes = "a" ∷ "b" ∷ []; control_mode = 0; commands = 0 ∷ 7 ∷ [] }

-- 257 is taken for 1, and the second interface does not take it.
mode_handed_on_example :
    let received = receive_control_mode 257 two_handled in
    let (handler', ok) = update (λ i. i == 0) received in
    ((on_activate received ≡ none) ↔ (257 % 256 ≡ 0))
    × ((i old : ℕ)
        → get_elem? two_handled.commands i ≡ some old
        → get_elem? handler'.commands i ≡ some (if i == 0 then 257 % 256 else old))
    × (ok ≡ all_settable (λ i. i == 0) 0 2)
mode_handed_on_example = mode_handed_on 257 (λ i. i == 0) two_handled

-- A service that takes 5 us and accepts everything.
abbrev accepting : ℕ → ℕ → ℕ × Option Bool
accepting transition w = (w + 5, some true)

run_ends_example :
    (w' : ℕ) × (sent : Sent) × (run exact_clock (λ w. true) accepting (pos 120000) (pos 200000) 0
      ≡ some (w', sent))
    × IsOrderly exact_clock (λ w. true) accepting (pos 120000) (pos 200000) 0 sent
run_ends_example = run_ends exact_clock (λ w. true) accepting (pos 120000) (pos 200000) 0
