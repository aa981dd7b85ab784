-- ===== src/Fri/Client/Holding.antt =====
-- While the robot waits for commands the FRI hardware interface commands it where it stands.
use mathlib.Core.Path.{ap₂}
use kuka_drivers.Prelude.{
  Bool-cases, Option-cases, arith, copy_into, inl, inr, refl, some, true, ℕ, ◌==◌, ◌||◌, ◌∙◌, ◌≡◌,
}
use kuka_drivers.Core.Modes.{joint_impedance_control, joint_position_control, u8}
use kuka_drivers.Fri.Client.{
  FriHardware, Reals, Sdk, change_state, client_app_read, client_app_update, commanding_wait, read,
  set_values, take_message, update_command, wait_for_command,
}

module _ {W Double : Type 0} (reals : Reals Double) (sdk : Sdk W Double) where
  change_state-keeps :
      (state : ℕ) (hw : FriHardware Double) (w : W)
      → let hw' = (change_state reals sdk state hw w).0 in
        (hw'.position_states ≡ hw.position_states)
        × (hw'.gpio_inputs ≡ hw.gpio_inputs)
        × (hw'.control_mode ≡ hw.control_mode)
  unfolding change_state
  change_state-keeps state hw w = (ground arith, ground arith, ground arith)

  position_update :
      (hw : FriHardware Double) (w : W)
      → (u8 hw.control_mode == joint_position_control
          || u8 hw.control_mode == joint_impedance_control)
        ≡ true
      → update_command reals sdk hw w
        ≡ set_values reals sdk hw.gpio_inputs (sdk.set_joint_position hw.position_commands w)
  unfolding update_command
  position_update hw w p = rw p refl

  read_positions :
      (hw hw' : FriHardware Double) (w w' : W)
      → read reals sdk hw w ≡ some (hw', w')
      → hw'.active_read ≡ true
      → (hw'.position_states ≡ sdk.measured_joint_position w')
        × (hw'.control_mode ≡ hw.control_mode)
  unfolding read take_message
  read_positions hw hw' w w' r a =
      let (w₁, ok) = client_app_read reals sdk w in
      elim (Bool-cases hw.thread_running) [
        | inl t ↦ absurd (ground (arith, rw t at r, a))
        | inr t ↦ elim (Bool-cases ok) [
          | inr f ↦ absurd (ground (arith, rw (t, f) at r, a))
          | inl f ↦
              elim (Option-cases (copy_into hw.position_commands hw.commanded_position_states)) [
                | inl n ↦ absurd (ground (arith, rw (t, f, n) at r))
                | inr (cs, n) ↦ ground (arith, rw (t, f, n) at r)
              ]
        ]
      ]

  -- If `read` takes a message, the control mode is one of position or impedance control and the
  -- robot is in the session state that waits for commands, then the update of the next cycle
  -- commands the positions that were measured, followed by the inputs of the GPIO, whatever the
  -- controllers have commanded.
  pub waiting_holds_position :
      (hw hw' : FriHardware Double) (w w' : W)
      → read reals sdk hw w ≡ some (hw', w')
      → hw'.active_read ≡ true
      → (u8 hw.control_mode == joint_position_control
          || u8 hw.control_mode == joint_impedance_control)
        ≡ true
      → (v : W) → sdk.session_state v ≡ commanding_wait
      → (v' : W) × ((client_app_update reals sdk hw' v).1
          ≡ set_values reals sdk hw'.gpio_inputs
              (sdk.set_joint_position (sdk.measured_joint_position w') v'))
  unfolding client_app_update wait_for_command
  waiting_holds_position hw hw' w w' r a p v s =
      let (q, m) = read_positions hw hw' w w' r a in
      let (hw₂, v') = change_state reals sdk commanding_wait hw' (sdk.reset_command_message v) in
      let (states, inputs, mode) =
        change_state-keeps commanding_wait hw' (sdk.reset_command_message v) in
      let hw₃ : FriHardware Double = record hw₂ { position_commands = hw₂.position_states } in
      let positional : (u8 hw₂.control_mode == joint_position_control
            || u8 hw₂.control_mode == joint_impedance_control)
          ≡ true =
        rw (mode, m) p in
      (
        v',
        rw s (
            position_update hw₃ v' positional
            ∙ ap₂ (λ i ps. set_values reals sdk i (sdk.set_joint_position ps v')) inputs
                (states ∙ q)),
      )
