-- ===== src/Rsi/Hardware.antt =====
-- kuka_rsi_driver/src/hardware_interface_rsi_base.cpp: `write`, with its check of the interpolation
-- count that the event broadcaster counts up.
--
-- `W` is everything outside the hardware interface: the clock, the command interface with the
-- count, which another thread may change while `write` sleeps, and the robot. `send` is the private
-- `Write()`, which hands the commands to the robot library; `false` is the exception that it throws
-- when they cannot be sent. A result `none` would mean that the fuel of the wait ran out.
pub mod Counts
use kuka_drivers.Prelude.{
  Bool, List, Option, if◌then◌else◌, ltb, none, not, some, true, ℕ, ◌&&◌, ◌+◌, ◌==◌, ◌∷◌,
}
use kuka_drivers.Core.Modes.{u32_max}
use kuka_drivers.Core.Clock.{Clock}
use kuka_drivers.Core.Waiting.{wait_for_interpolation_count}

pub record Hardware : Type 0 where
  pub is_active : Bool
  pub msg_received : Bool
  pub is_async_hardware : Bool
  pub last_interpolation_count_command : ℕ
  pub interpolation_count_initialized : Bool
  -- the warnings about a mismatch, expected and got, the latest first
  pub mismatches : List (ℕ × ℕ)

unfoldable pub expected_count : ℕ → ℕ
expected_count last = if last == u32_max then 0 else last + 1

-- A count of 0 is not kept.
abbrev pub store_count : ℕ → Hardware → Hardware
store_count count hw =
    if ltb 0 count
    then record hw {
      interpolation_count_initialized = true;
      last_interpolation_count_command = count;
    }
    else hw

abbrev pub warn_mismatch : ℕ → ℕ → Hardware → Hardware
warn_mismatch expected count hw =
    if not (count == expected) && hw.is_active
    then record hw { mismatches = (expected, count) ∷ hw.mismatches }
    else hw

module _ {W : Type 0} (clock : Clock W) (count_command : W → ℕ) (send : W → W × Bool) where
  abbrev waited : ℕ → Hardware → Option (ℕ × W) → Option (Hardware × W)
  waited expected hw none = none
  waited expected hw (some (count, w)) =
      some (store_count count (warn_mismatch expected count hw), w)

  unfoldable pub check_count : Hardware → W → Option (Hardware × W)
  check_count hw w =
      let count = count_command w in
      let expected = expected_count hw.last_interpolation_count_command in
      let late =
        wait_for_interpolation_count clock count_command expected count hw.is_async_hardware w in
      if not (ltb 0 count && hw.interpolation_count_initialized)
      then some (store_count count hw, w)
      else if count == expected
      then some (store_count count hw, w)
      else waited expected hw late

  abbrev pub sent : Option (Hardware × W) → Option (Hardware × W × Bool)
  sent none = none
  sent (some (hw, w)) = let (w', ok) = send w in some (hw, w', ok)

  -- `true` is return_type::OK.
  unfoldable pub write : Hardware → W → Option (Hardware × W × Bool)
  write hw w = if not hw.msg_received then some (hw, w, true) else sent (check_count hw w)
