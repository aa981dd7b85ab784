-- ===== src/Fri/Hardware/Activation.antt =====
-- What an activation of the FRI hardware interface takes.
use kuka_drivers.Prelude.{
  Bool, Bool-cases, List, String, [], arith, false, inl, inr, map, refl, replicate, suc, true, zero,
  ℕ, ◌==◌, ◌||◌, ◌∙◌, ◌∷◌, ◌≡◌,
}
use kuka_drivers.Core.Modes.{
  joint_impedance_control, joint_position_control, joint_torque_control, u8,
}
use kuka_drivers.Fri.Connection.{
  FriConnection, position_control_mode, returned, send_command_and_wait, set_command_mode_id,
  set_control_mode_id,
}
use kuka_drivers.Fri.Connection.Commands.{
  impedance_data, set_client_command_mode, set_joint_impedance_control_mode,
  set_position_control_mode,
}
use kuka_drivers.Fri.Connection.Answers.{Answer, answered_command, packet_of, verdict}
use kuka_drivers.Fri.Client.{
  FriHardware, Reals, Sdk, change_state, client_app_read, client_app_update, client_app_write,
  command, wait_for_command,
}
use kuka_drivers.Fri.Hardware.{
  Finished, dof, keep_cyclic, position_command_mode, set_mode, then_mode, torque_command_mode,
}

-- The connection is up and no answer is pending.
abbrev pub IsIdle : FriConnection → Type 0
IsIdle fc = (fc.connected ≡ true) × (fc.answer_received ≡ false)

-- A mode that the interface can activate.
abbrev pub is_supported : ℕ → Bool
is_supported mode =
    mode == joint_position_control
    || mode == joint_impedance_control
    || mode == joint_torque_control

pub answered :
    (id : ℕ) (bytes : List ℕ) (a : Answer) (packets : List (List ℕ)) (fc : FriConnection)
    → IsIdle fc
    → (fc' : FriConnection) × (send_command_and_wait id bytes (packet_of a ∷ packets) fc
        ≡ returned (verdict id a) fc' packets)
      × IsIdle fc'
answered id bytes a packets fc (c, r) =
    let (fc', e, received, wanted, connected, sent, handlers) =
      answered_command id bytes a packets fc c r in
    (fc', e, (connected ∙ c, received))

module _ {Double : Type 0} (inet_addr : String → ℕ) (bits : Double → ℕ) where
  then_mode_answered :
      (id client_command_mode : ℕ) (bytes : List ℕ)
      (next : FriConnection → List (List ℕ) → Finished Double) (a₂ a₃ : Answer)
      (left : List (List ℕ)) (fc : FriConnection)
      → IsIdle fc
      → (fc' : FriConnection) × (then_mode inet_addr bits
            (send_command_and_wait id bytes (packet_of a₂ ∷ packet_of a₃ ∷ left) fc)
            client_command_mode
            next
          ≡ next fc' left)
        × IsIdle fc'
  unfolding set_client_command_mode
  then_mode_answered id client_command_mode bytes next a₂ a₃ left fc i =
      let (fc₂, e₂, i₂) = answered id bytes a₂ (packet_of a₃ ∷ left) fc i in
      let (fc₃, e₃, i₃) = answered set_command_mode_id (client_command_mode ∷ []) a₃ left fc₂ i₂ in
      (fc₃, rw (e₂, e₃) refl, i₃)

  pub mode_answered :
      (next : FriConnection → List (List ℕ) → Finished Double) (hw : FriHardware Double)
      (a₂ a₃ : Answer) (left : List (List ℕ)) (fc : FriConnection)
      → IsIdle fc
      → is_supported (u8 hw.control_mode) ≡ true
      → (fc' : FriConnection) × (set_mode inet_addr bits next
            (packet_of a₂ ∷ packet_of a₃ ∷ left)
            hw
            fc
          ≡ next fc' left)
        × IsIdle fc'
  unfolding set_mode set_position_control_mode set_joint_impedance_control_mode
  mode_answered next hw a₂ a₃ left fc i s =
      let mode = u8 hw.control_mode in
      let impedance : (stiffness damping : List ℕ) (command_mode : ℕ)
          → (fc' : FriConnection) × (then_mode inet_addr bits
                (set_joint_impedance_control_mode stiffness damping
                  (packet_of a₂ ∷ packet_of a₃ ∷ left) fc)
                command_mode next
              ≡ next fc' left)
            × IsIdle fc' =
        λ stiffness damping command_mode.
          then_mode_answered set_control_mode_id command_mode (impedance_data stiffness damping)
            next a₂ a₃ left fc i in
      elim (Bool-cases (mode == joint_position_control)) [
        | inl p ↦ rw p (
            then_mode_answered set_control_mode_id position_command_mode
              (position_control_mode ∷ []) next a₂ a₃ left fc i)
        | inr p ↦ elim (Bool-cases (mode == joint_impedance_control)) [
          | inl q ↦
              rw (p, q)
                (impedance (map bits hw.stiffness_commands) (map bits hw.damping_commands)
                  position_command_mode)
          | inr q ↦ elim (Bool-cases (mode == joint_torque_control)) [
            | inl t ↦
                rw (p, q, t) (impedance (replicate dof 0) (replicate dof 0) torque_command_mode)
            | inr t ↦ absurd (ground (arith, p, q, t))
          ]
        ]
      ]

-- The members that the thread of an activation writes.
abbrev Untouched : {Double : Type 0} → FriHardware Double → FriHardware Double → Type 0
Untouched hw hw' =
    (hw'.fri_started ≡ hw.fri_started)
    × (hw'.control_activated ≡ hw.control_activated)
    × (hw'.last_event ≡ hw.last_event)

module _ {W Double : Type 0} (reals : Reals Double) (sdk : Sdk W Double) where
  update-Untouched :
      (hw : FriHardware Double) (w : W) → Untouched hw (client_app_update reals sdk hw w).0
  unfolding client_app_update change_state wait_for_command command
  update-Untouched hw w = (ground arith, ground arith, ground arith)

  write-Untouched :
      (hw : FriHardware Double) (w : W) → Untouched hw (client_app_write reals sdk hw w).0
  unfolding client_app_write
  write-Untouched hw w = (ground arith, ground arith, ground arith)

  pub cyclic-Untouched :
      (rounds : ℕ) (hw : FriHardware Double) (w : W)
      → Untouched hw (keep_cyclic reals sdk rounds hw w).0
  unfolding keep_cyclic
  cyclic-Untouched zero hw w = (refl, refl, refl)
  cyclic-Untouched (suc rounds) hw w =
      let (hw₂, w₂) = client_app_update reals sdk hw (client_app_read reals sdk w).0 in
      let (hw₃, w₃, sent) = client_app_write reals sdk hw₂ w₂ in
      let (s₁, a₁, l₁) = update-Untouched hw (client_app_read reals sdk w).0 in
      let (s₂, a₂, l₂) = write-Untouched hw₂ w₂ in
      let (s₃, a₃, l₃) = cyclic-Untouched rounds hw₃ w₃ in
      (s₃ ∙ s₂ ∙ s₁, a₃ ∙ a₂ ∙ a₁, l₃ ∙ l₂ ∙ l₁)
