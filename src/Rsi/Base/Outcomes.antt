-- ===== src/Rsi/Base/Outcomes.antt =====
-- What the activations and deactivations of the hardware interfaces for RSI achieve.
use kuka_drivers.Rsi.Status.{StatusInterfaces}
use kuka_drivers.Prelude.{
  Bool, Option, Option-cases, ap, copy_into, false, inl, inr, none, refl, some, sym, true, ℕ, ◌>>=◌,
  ◌∙◌, ◌≡◌,
}
use kuka_drivers.Core.Modes.{success}
use kuka_drivers.Rsi.Base.{Robot, RsiHardware, receive, send_commands}
use kuka_drivers.Rsi.Base.Received.{received_status}
use kuka_drivers.Rsi.Base.Gpio.{copy_gpio_states_to_commands, copy_states_to_commands}
use kuka_drivers.Rsi.Base.Activation.{after_send, first_commands, first_cycle, set_active}

module _ {W Double : Type 0} (robot : Robot W Double) (zero_double : Double) where
  abbrev status_of : StatusInterfaces → Option (RsiHardware Double) → StatusInterfaces
  status_of status none = status
  status_of status (some hw) = hw.status

  commanded_status :
      (hw hw' : RsiHardware Double)
      → first_commands zero_double hw ≡ some hw'
      → hw'.status ≡ hw.status
  unfolding first_commands copy_gpio_states_to_commands
  commanded_status hw hw' e =
      elim (Option-cases (copy_into hw.position_states hw.position_commands)) [
        | inl n ↦ cc (rw n at e)
        | inr (positions, p) ↦
            elim (Option-cases (
              copy_states_to_commands hw.gpio_states_to_commands_map hw.gpio_states
                hw.gpio_commands)) [
                  | inl n ↦ cc (rw (p, n) at e)
                  | inr (gpios, g) ↦ sym (ap (status_of hw.status) (rw (p, g) at e))
                ]
      ]

  sent_success :
      (finish : RsiHardware Double → RsiHardware Double) (c hw' : RsiHardware Double) (r : W × Bool)
      (w' : W)
      → after_send zero_double finish c r ≡ (hw', w', some success)
      → hw' ≡ finish (set_active zero_double true c)
  sent_success finish c hw' (w, true) w' e = sym (ap (λ r. r.0) e)
  sent_success finish c hw' (w, false) w' e = cc (ap (λ r. r.2) e)

  some-same : {A : Type 0} (a b : A) → some a ≡ some b → a ≡ b
  some-same a b e = cc

  -- The end of the first cycle, given what was received.
  commanded_success :
      (finish : RsiHardware Double → RsiHardware Double) (hw₁ hw' : RsiHardware Double) (w₁ w' : W)
      (o : Option (RsiHardware Double))
      → first_commands zero_double hw₁ ≡ o
      → (o >>= λ c. some (after_send zero_double finish c (send_commands robot c w₁)))
        ≡ some (hw', w', some success)
      → (c : RsiHardware Double) × (hw' ≡ finish (set_active zero_double true c))
        × (c.status ≡ hw₁.status)
  commanded_success finish hw₁ hw' w₁ w' none p e = cc
  commanded_success finish hw₁ hw' w₁ w' (some c) p e = (
    c,
    sent_success finish c hw' (send_commands robot c w₁) w' (some-same _ _ e),
    commanded_status hw₁ c p,
  )

  received_success :
      (t : ℕ) (finish : RsiHardware Double → RsiHardware Double) (hw hw' : RsiHardware Double)
      (w w' : W) (o : Option (RsiHardware Double × W))
      → receive robot t hw w ≡ o
      → (o >>= λ received. first_commands zero_double received.0 >>= λ c.
          some (after_send zero_double finish c (send_commands robot c received.1)))
        ≡ some (hw', w', some success)
      → (c : RsiHardware Double) × (hw' ≡ finish (set_active zero_double true c))
        × (c.status ≡ hw.status)
  received_success t finish hw hw' w w' none r e = cc
  received_success t finish hw hw' w w' (some (hw₁, w₁)) r e =
      let (c, same, kept) =
        commanded_success finish hw₁ hw' w₁ w' (first_commands zero_double hw₁) refl e in
      (c, same, kept ∙ received_status robot t hw hw₁ w w₁ r)

  -- An activation's first cycle that succeeds has kept the status.
  pub first_cycle_success :
      (t : ℕ) (finish : RsiHardware Double → RsiHardware Double) (hw hw' : RsiHardware Double)
      (w w' : W)
      → first_cycle zero_double robot t finish hw w ≡ some (hw', w', some success)
      → (c : RsiHardware Double) × (hw' ≡ finish (set_active zero_double true c))
        × (c.status ≡ hw.status)
  unfolding first_cycle
  first_cycle_success t finish hw hw' w w' e =
      received_success t finish hw hw' w w' (receive robot t hw w) refl e
