-- ===== src/Core/Counting.antt =====
-- The check of the interpolation count at the start of `write` in
-- kuka_iiqka_eac_driver/src/hardware_interface.cpp and
-- kuka_sunrise_fri_driver/src/hardware_interface.cpp, which is the same code in both.
--
-- `W` is everything outside the hardware interface: the clock and the command interface with the
-- count, which another thread may change while the check sleeps. A result `none` would mean that
-- the fuel of the wait ran out.
use kuka_drivers.Prelude.{
  Bool, Bool-cases, List, Option, if◌then◌else◌, inl, inr, ltb, none, not, refl, some, true, ℕ,
  ◌&&◌, ◌==◌, ◌∷◌, ◌≡◌,
}
use kuka_drivers.Core.Clock.{Clock}
use kuka_drivers.Core.Waiting.{wait_for_interpolation_count}
use kuka_drivers.Core.Waiting.Ends.{wait_returns}
use kuka_drivers.Rsi.Hardware.{expected_count}

pub record Counting : Type 0 where
  pub is_async_hardware : Bool
  pub last_interpolation_count_command : ℕ
  pub interpolation_count_initialized : Bool
  -- the warnings about a mismatch, expected and got, the latest first
  pub mismatches : List (ℕ × ℕ)

-- A count of 0 is not kept.
abbrev keep_count : ℕ → Counting → Counting
keep_count count c =
    if ltb 0 count
    then record c {
      interpolation_count_initialized = true;
      last_interpolation_count_command = count;
    }
    else c

abbrev warn_if_off : ℕ → ℕ → Counting → Counting
warn_if_off expected count c =
    if not (count == expected)
    then record c { mismatches = (expected, count) ∷ c.mismatches }
    else c

module _ {W : Type 0} (clock : Clock W) (count_command : W → ℕ) where
  abbrev after_wait : ℕ → Counting → Option (ℕ × W) → Option (Counting × W)
  after_wait expected c none = none
  after_wait expected c (some (count, w)) =
      some (keep_count count (warn_if_off expected count c), w)

  unfoldable pub count_check : Counting → W → Option (Counting × W)
  count_check c w =
      let count = count_command w in
      let expected = expected_count c.last_interpolation_count_command in
      let late =
        wait_for_interpolation_count clock count_command expected count c.is_async_hardware w in
      if not (ltb 0 count && c.interpolation_count_initialized)
      then some (keep_count count c, w)
      else if count == expected
      then some (keep_count count c, w)
      else after_wait expected c late

  -- The check always ends.
  pub count_check_ends :
      (c : Counting) (w : W) → (c' : Counting) × (v : W) × (count_check c w ≡ some (c', v))
  unfolding count_check
  count_check_ends c w =
      let count = count_command w in
      let expected = expected_count c.last_interpolation_count_command in
      elim (Bool-cases (ltb 0 count && c.interpolation_count_initialized)) [
        | inr e ↦ (keep_count count c, w, rw e refl)
        | inl e ↦ elim (Bool-cases (count == expected)) [
          | inl f ↦ (keep_count count c, w, rw (e, f) refl)
          | inr f ↦
              let (n, v, late) =
                wait_returns clock count_command expected count c.is_async_hardware w in
              (keep_count n (warn_if_off expected n c), v, rw (e, f, late) refl)
        ]
      ]
