-- ===== src/Core/Waiting.antt =====
-- WaitForInterpolationCount of
-- kuka_drivers_core/include/kuka_drivers_core/hardware_interface_utils.hpp. Times are in
-- microseconds.
pub mod Ends
use kuka_drivers.Prelude.{
  Bool, Option, if◌then◌else◌, leb, ltb, none, not, some, suc, zero, ℕ, ◌+◌, ◌-◌, ◌==◌, ◌||◌,
}
use kuka_drivers.Core.Modes.{u32, u32_max}
use kuka_drivers.Core.Clock.{Clock}

abbrev pub retry_budget : ℕ
retry_budget = 1000

abbrev retry_step : ℕ
retry_step = 200

-- `expected_count - 1` on uint32_t
abbrev pub one_behind : ℕ → ℕ
one_behind expected = u32 (expected + u32_max)

-- Five sleeps use the budget up, and the sixth round sees it.
abbrev retry_fuel : ℕ
retry_fuel = 6

-- `remaining < sleep_time ? remaining : retry_step`
unfoldable pub sleep_time : ℕ → ℕ → ℕ
sleep_time deadline now = if ltb (deadline - now) retry_step then deadline - now else retry_step

module _ {W : Type 0} (clock : Clock W) (get_current_count : W → ℕ) where
  open clock use {now, sleep}

  -- The `while` loop; `none` means that the fuel ran out.
  unfoldable pub wait_loop : ℕ → ℕ → ℕ → ℕ → W → Option (ℕ × W)
  unfolding sleep_time
  wait_loop zero deadline expected current w = none
  wait_loop (suc fuel) deadline expected current w =
      let w' = sleep (sleep_time deadline (now w)) w in
      let rest = wait_loop fuel deadline expected (get_current_count w') w' in
      if not (current == one_behind expected)
      then some (current, w)
      else if leb deadline (now w)
      then some (current, w)
      else rest

  unfoldable pub wait_for_interpolation_count : ℕ → ℕ → Bool → W → Option (ℕ × W)
  wait_for_interpolation_count expected current is_async_hardware w =
      if not is_async_hardware || not (current == one_behind expected)
      then some (current, w)
      else wait_loop retry_fuel (now w + retry_budget) expected current w
