-- ===== src/Rsi/Hardware/Counts.antt =====
-- What the check of the interpolation count in
-- kuka_rsi_driver/src/hardware_interface_rsi_base.cpp accepts.
use kuka_drivers.Prelude.{
  Bool, Bool-cases, ap, arith, false, get_elem?, inl, inr, length, ltb, refl, replicate, some, suc,
  sym, true, zero, ◌∙◌, ℕ, ◌&&◌, ◌<◌, ◌==◌, ◌∷◌, ◌≡◌,
}
use kuka_drivers.Core.Clock.{Clock}
use kuka_drivers.Core.Waiting.{wait_for_interpolation_count}
use kuka_drivers.Core.Waiting.Ends.{wait_returns}
use kuka_drivers.Core.Modes.{u32_max}
use kuka_drivers.Controllers.Events.{Cycle, EventBroadcaster, update}
use kuka_drivers.Controllers.Events.Runs.{SteadyFor, steady_step}
use kuka_drivers.Rsi.Hardware.{
  Hardware, check_count, expected_count, store_count, warn_mismatch, write,
}

get_elem?-replicate : (k i x y : ℕ) → get_elem? (replicate k x) i ≡ some y → y ≡ x
get_elem?-replicate zero i x y e = cc
get_elem?-replicate (suc k) zero x y e = cc
get_elem?-replicate (suc k) (suc i) x y e = get_elem?-replicate k i x y e

module _ {W : Type 0} (clock : Clock W) (count_command : W → ℕ) (send : W → W × Bool) where
  check_returns :
      (hw : Hardware) (w : W)
      → (hw' : Hardware) × (v : W) × (check_count clock count_command send hw w ≡ some (hw', v))
  unfolding check_count
  check_returns hw w =
      let count = count_command w in
      let expected = expected_count hw.last_interpolation_count_command in
      let (c, v, late) = wait_returns clock count_command expected count hw.is_async_hardware w in
      elim (Bool-cases (ltb 0 count && hw.interpolation_count_initialized)) [
        | inr e ↦ (store_count count hw, w, rw e refl)
        | inl e ↦ elim (Bool-cases (count == expected)) [
          | inl f ↦ (store_count count hw, w, rw (e, f) refl)
          | inr f ↦ (store_count c (warn_mismatch expected c hw), v, rw (e, f, late) refl)
        ]
      ]

  -- With a motion state received, `write` always returns, and it has handed the commands on at the
  -- end: a wait for a late count ends.
  write_returns :
      (hw : Hardware) (w : W)
      → hw.msg_received ≡ true
      → (hw' : Hardware) × (v : W) × (write clock count_command send hw w
          ≡ some (hw', (send v).0, (send v).1))
  unfolding write
  write_returns hw w m = let (hw', v, c) = check_returns hw w in (hw', v, rw (c, m) refl)

  -- With a motion state received, a count above 0 that is the one after the last is taken without
  -- waiting and without a warning, and the commands are handed on.
  count_in_step :
      (hw : Hardware) (w : W)
      → hw.msg_received ≡ true
      → 0 < count_command w
      → count_command w ≡ expected_count hw.last_interpolation_count_command
      → let (w', ok) = send w in
        write clock count_command send hw w
        ≡ some (
          record hw {
            interpolation_count_initialized = true;
            last_interpolation_count_command = count_command w;
          },
          w',
          ok,
        )
  unfolding write check_count
  count_in_step hw w m p e =
      let f : ltb 0 (count_command w) ≡ true = ground arith in
      let g : (count_command w == expected_count hw.last_interpolation_count_command) ≡ true =
        ground (arith, e) in
      elim (Bool-cases hw.interpolation_count_initialized) [
        | inl i ↦ rw (g, m, f, i) refl
        | inr i ↦ rw (m, f, i) refl
      ]

  -- Two cycles of the broadcaster, at the count 4294967295, while every robot is under control: the
  -- counts that a hardware interface is handed in them are 0 and 1. On active synchronous hardware
  -- that has received a motion state and the count 4294967295, the write with the first of them
  -- changes nothing in the hardware interface, and the write with the second reports it as a
  -- mismatch with the count 0.
  pub wrap_mismatch :
      (c₁ c₂ : Cycle) (eb : EventBroadcaster) (i : ℕ) (hw : Hardware) (w : W)
      → let eb₁ = (update c₁ eb).0 in
        let eb₂ = (update c₂ eb₁).0 in
        SteadyFor (length eb.robots) c₁
        → SteadyFor (length eb₁.robots) c₂
        → eb.interpolation_count ≡ u32_max
        → hw.msg_received ≡ true
        → hw.is_active ≡ true
        → hw.is_async_hardware ≡ false
        → hw.interpolation_count_initialized ≡ true
        → hw.last_interpolation_count_command ≡ u32_max
        → get_elem? eb₁.commands i ≡ some (count_command w)
        → let (w', ok) = send w in
          get_elem? eb₂.commands i ≡ some (count_command w')
          → (write clock count_command send hw w ≡ some (hw, w', ok))
            × ((hw' : Hardware) × (write clock count_command send hw w'
                  ≡ some (hw', (send w').0, (send w').1))
                × (hw'.mismatches ≡ (0, 1) ∷ hw.mismatches))
  unfolding write check_count expected_count wait_for_interpolation_count
  wrap_mismatch c₁ c₂ eb n hw w steady₁ steady₂ b m a s i l first second =
      let (count₁, commands₁) = steady_step c₁ eb 4294967295 steady₁ b in
      let (count₂, commands₂) = steady_step c₂ (update c₁ eb).0 4294967296 steady₂ count₁ in
      let z : count_command w ≡ 0 =
        get_elem?-replicate (length eb.commands) n 0 (count_command w)
          (ap (λ xs. get_elem? xs n) (sym commands₁) ∙ first) in
      let o : count_command (send w).0 ≡ 1 =
        get_elem?-replicate (length (update c₁ eb).0.commands) n 1 (count_command (send w).0)
          (ap (λ xs. get_elem? xs n) (sym commands₂) ∙ second) in
      (rw (m, z) refl, (store_count 1 (warn_mismatch 0 1 hw), rw (m, o, l, i, s) refl, rw a refl))
