-- ===== src/Rsi/Base/Received.antt =====
-- What the reception of a motion state in the hardware interfaces for RSI leaves as it was.
use kuka_drivers.Prelude.{
  Bool-cases, Option, Option-cases, ap, copy_into, false, inl, inr, none, some, sym, true, ℕ, ◌∙◌,
  ◌≡◌,
}
use kuka_drivers.Core.Modes.{error_event}
use kuka_drivers.Rsi.Hardware.{Hardware}
use kuka_drivers.Rsi.Status.{StatusInterfaces}
use kuka_drivers.Rsi.Base.{
  Robot, RsiHardware, copy_if, is_ok_code, receive, save_gpio_values, set_server_event,
  take_motion_state, with_msg_received,
}

-- The members that a motion state leaves.
abbrev kept : {Double : Type 0} → RsiHardware Double → StatusInterfaces × ℕ × ℕ × Hardware
kept hw = (hw.status, hw.server_state, hw.last_event, hw.runtime)

abbrev kept_of :
    {Double : Type 0}
    → RsiHardware Double
    → Option (RsiHardware Double)
    → StatusInterfaces × ℕ × ℕ × Hardware
kept_of hw none = kept hw
kept_of hw (some hw') = kept hw'

module _ {W Double : Type 0} (robot : Robot W Double) where
  taken_kept :
      (w : W) (hw hw' : RsiHardware Double)
      → take_motion_state robot w hw ≡ some hw'
      → kept hw' ≡ kept hw
  unfolding take_motion_state
  taken_kept w hw hw' e =
      let flags = hw.flags in
      let v =
        copy_if flags.has_velocity_state_interface (robot.measured_velocities w)
          hw.velocity_states in
      let q =
        copy_if flags.has_torque_state_interface (robot.measured_torques w) hw.torque_states in
      elim (Option-cases (copy_into (robot.measured_positions w) hw.position_states)) [
        | inl n ↦ cc (rw n at e)
        | inr (positions, p) ↦ elim (Option-cases v) [
          | inl n ↦ cc (rw (p, n) at e)
          | inr (velocities, r) ↦ elim (Option-cases q) [
            | inl n ↦ cc (rw (p, r, n) at e)
            | inr (torques, s) ↦
                elim (Option-cases (save_gpio_values hw.gpio_states (robot.gpio_values w))) [
                  | inl n ↦ cc (rw (p, r, s, n) at e)
                  | inr (gpios, g) ↦ sym (ap (kept_of hw) (rw (p, r, s, g) at e))
                ]
          ]
        ]
      ]

  -- An error that is there stays.
  abbrev IsKept : RsiHardware Double → RsiHardware Double → Type 0
  IsKept hw hw' =
      (hw'.status ≡ hw.status)
      × (hw'.server_state ≡ hw.server_state)
      × (hw'.runtime.is_active ≡ hw.runtime.is_active)
      × (hw.last_event ≡ error_event → hw'.last_event ≡ error_event)

  pub received-IsKept :
      (t : ℕ) (hw hw' : RsiHardware Double) (w w' : W)
      → receive robot t hw w ≡ some (hw', w')
      → IsKept hw hw'
  unfolding receive set_server_event
  received-IsKept t hw hw' w w' e =
      let (w₁, code) = robot.receive_motion_state t w in
      let hw₁ = with_msg_received true hw in
      elim (Bool-cases (is_ok_code code)) [
        | inr n ↦
            let same : record hw {
              runtime = record hw.runtime { msg_received = false };
              last_event = error_event;
            }
                ≡ hw' =
              cc (rw n at e) in
            (
              ap (λ h. h.status) (sym same),
              ap (λ h. h.server_state) (sym same),
              ap (λ h. h.runtime.is_active) (sym same),
              λ l. ap (λ h. h.last_event) (sym same),
            )
        | inl k ↦ elim (Option-cases (take_motion_state robot w₁ hw₁)) [
          | inl n ↦ cc (rw (k, n) at e)
          | inr (hw₂, m) ↦
              let same : hw₂ ≡ hw' = cc (rw (k, m) at e) in
              let all = ap kept (sym same) ∙ taken_kept w₁ hw₁ hw₂ m in
              (
                ap (λ q. q.0) all,
                ap (λ q. q.1) all,
                ap (λ q. q.3.is_active) all,
                λ l. ap (λ q. q.2) all ∙ l,
              )
        ]
      ]

  pub received_status :
      (t : ℕ) (hw hw' : RsiHardware Double) (w w' : W)
      → receive robot t hw w ≡ some (hw', w')
      → hw'.status ≡ hw.status
  received_status t hw hw' w w' e = (received-IsKept t hw hw' w w' e).0
