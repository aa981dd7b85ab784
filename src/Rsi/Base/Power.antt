-- ===== src/Rsi/Base/Power.antt =====
-- The activation and the deactivation of the hardware interfaces for RSI that switch the drives.
use kuka_drivers.Prelude.{
  Bool, Bool-cases, Option, ap, arith, false, if◌then◌else◌, inl, inr, none, refl, some, true, ℕ,
  ◌∙◌, ◌≡◌,
}
use kuka_drivers.Core.Modes.{CallbackReturn, success, u8}
use kuka_drivers.Core.Clock.{Clock}
use kuka_drivers.Rsi.Status.{
  StatusInterfaces, drives_are_powered, is_emergency_stop_active, is_krc_in_ext_mode,
}
use kuka_drivers.Rsi.Status.Ends.{wait_for_drives_ends}
use kuka_drivers.Rsi.Base.{Robot, RsiHardware, is_error_code, reset_diagnostics, set_server_event}
use kuka_drivers.Rsi.Base.Reading.{InstalledInterface, check_status}
use kuka_drivers.Rsi.Base.Activation.{
  change_cycle_time, extended_activation, extended_deactivation, reset_initialized, set_active,
  start_session, stop_robot,
}
use kuka_drivers.Rsi.Base.Outcomes.{first_cycle_success}

module _ {W Double : Type 0} (robot : Robot W Double) (zero_double : Double) where
  -- An activation that has come to its end.
  abbrev IsActivated : RsiHardware Double → StatusInterfaces → Type 0
  IsActivated hw' status =
      (hw'.status ≡ status)
      × (hw'.runtime.is_active ≡ true)
      × (hw'.runtime.interpolation_count_initialized ≡ false)

  abbrev result_of : Option (RsiHardware Double × W × Option CallbackReturn) → Option CallbackReturn
  result_of none = none
  result_of (some (hw, w, result)) = result

  cycle_status :
      (hw : RsiHardware Double) (w : W)
      → (change_cycle_time zero_double robot hw w).0.status ≡ hw.status
  unfolding change_cycle_time
  cycle_status hw w = ground arith

  checked_status :
      (installed : InstalledInterface) (lifecycle_active : Bool) (hw : RsiHardware Double)
      → (check_status installed lifecycle_active hw).status ≡ hw.status
  unfolding check_status set_server_event
  checked_status installed lifecycle_active hw = ground arith

  session_success :
      (installed : InstalledInterface) (hw hw' : RsiHardware Double) (w w' : W)
      → start_session zero_double robot installed hw w ≡ some (hw', w', some success)
      → IsActivated hw' hw.status
  unfolding start_session
  session_success installed hw hw' w w' e =
      let (hw₁, w₁) = change_cycle_time zero_double robot hw w in
      let (w₂, code) = robot.start_controlling hw₁.hw_control_mode_command w₁ in
      let hw₂ : RsiHardware Double = record hw₁ {
        prev_control_mode = u8 hw₁.hw_control_mode_command;
      } in
      elim (Bool-cases (is_error_code code)) [
        | inl f ↦ cc (ap result_of (rw f at e))
        | inr f ↦
            let (c, same, kept) =
              first_cycle_success robot zero_double 5000 (reset_initialized zero_double)
                (check_status installed false hw₂) hw' w₂ w' (rw f at e) in
            (
              ap (λ h. h.status) same
                  ∙ kept
                  ∙ checked_status installed false hw₂
                  ∙ cycle_status hw w,
              ap (λ h. h.runtime.is_active) same,
              ap (λ h. h.runtime.interpolation_count_initialized) same,
            )
      ]

  module _ (clock : Clock W) (actual : W → StatusInterfaces) (ext : ℕ) where
    -- An activation with drives to be switched that succeeds found no emergency stop and the robot
    -- controller in the mode EXT, the drives are powered in the status that it took last, and the
    -- interface is active and will take the next interpolation count as the first.
    pub extended_activation_success :
        (installed : InstalledInterface) (hw hw' : RsiHardware Double) (w w' : W)
        → extended_activation zero_double robot clock actual ext installed hw w
          ≡ some (hw', w', some success)
        → (is_emergency_stop_active hw.status ≡ false)
          × (is_krc_in_ext_mode ext hw.status ≡ true)
          × (drives_are_powered hw'.status ≡ true)
          × (hw'.runtime.is_active ≡ true)
          × (hw'.runtime.interpolation_count_initialized ≡ false)
    unfolding extended_activation reset_diagnostics
    extended_activation_success installed hw hw' w w' e =
        let hw₁ : RsiHardware Double = record hw { packet_loss_count = 0; last_ipoc = 0 } in
        let w₁ = robot.turn_on_drives w in
        elim (Bool-cases (is_emergency_stop_active hw.status)) [
          | inl s ↦ cc (ap result_of (rw s at e))
          | inr s ↦ elim (Bool-cases (is_krc_in_ext_mode ext hw.status)) [
            | inr x ↦ cc (ap result_of (rw (s, x) at e))
            | inl x ↦ elim (Bool-cases (drives_are_powered hw.status)) [
              | inl d ↦
                  let (k, a, i) = session_success installed hw₁ hw' w w' (rw (s, x, d) at e) in
                  (s, x, ap drives_are_powered k ∙ d, a, i)
              | inr d ↦
                  let (status, v, in_time, r, on, off) =
                    wait_for_drives_ends clock actual true hw.status w₁ in
                  elim (Bool-cases in_time) [
                    | inr t ↦ cc (ap result_of (rw (s, x, d, r, t) at e))
                    | inl t ↦
                        let hw₂ : RsiHardware Double = record hw₁ { status = status } in
                        let (k, a, i) =
                          session_success installed hw₂ hw' v w' (rw (s, x, d, r, t) at e) in
                        (s, x, ap drives_are_powered k ∙ on t, a, i)
                  ]
            ]
          ]
        ]

    -- A deactivation that switches the drives always returns, and always SUCCESS, with the
    -- interface inactive and no motion state pending, also if the drives do not go off within 3 s.
    extended_deactivation_returns :
        (hw : RsiHardware Double) (w : W)
        → (hw' : RsiHardware Double) × (w' : W) × (extended_deactivation zero_double robot clock
              actual ext hw w
            ≡ some (hw', w', success))
          × (hw'.runtime.is_active ≡ false)
          × (hw'.runtime.msg_received ≡ false)
          × (hw'.runtime.interpolation_count_initialized ≡ false)
    unfolding extended_deactivation
    extended_deactivation_returns hw w =
        let off : RsiHardware Double =
          reset_initialized zero_double (set_active zero_double false hw) in
        let w₁ = stop_robot zero_double robot clock actual ext hw w in
        let w₂ = robot.turn_off_drives w₁ in
        elim (Bool-cases (drives_are_powered hw.status)) [
          | inr d ↦ (off, w₁, rw d refl, refl, refl, refl)
          | inl d ↦
              let (status, v, in_time, r, down, late) =
                wait_for_drives_ends clock actual false hw.status w₂ in
              let hw' : RsiHardware Double = record off {
                status = if in_time then status else actual v;
              } in
              (hw', v, rw (d, r) refl, refl, refl, refl)
        ]
