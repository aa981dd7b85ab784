-- ===== src/Eac/Hardware/Holding.antt =====
-- A robot with iiQKA is told to stay where it is until the controllers have seen where that is.
use kuka_drivers.Prelude.{
  Bool, Bool-cases, List, ap, arith, copy_into, copy_into-all, false, if◌then◌else◌, inl, inr,
  length, refl, some, subst, sym, true, ℕ, ◌+◌, ◌==◌, ◌∙◌, ◌≡◌,
}
use kuka_drivers.Core.Clock.{Clock}
use kuka_drivers.Core.Counting.{Counting, count_check_ends}
use kuka_drivers.Core.Modes.{success, u32}
use kuka_drivers.Eac.Hardware.{
  EacHardware, Robot, is_error_code, is_ok_code, on_activate, publish_event, read, reply,
  take_motion_state, write,
}

-- The vectors that a motion state is copied to have one value for each of `n` joints.
pub record IsSized {Double : Type 0} (n : ℕ) (hw : EacHardware Double) : Type 0 where
  pub position_states : length hw.position_states ≡ n
  pub position_commands : length hw.position_commands ≡ n
  pub commanded_position_states : length hw.commanded_position_states ≡ n
  pub torque_states : length hw.torque_states ≡ n

module _ {W Double : Type 0} (robot : Robot W Double) where
  open robot use {
    register_event_handler, start_controlling, receive_motion_state, measured_positions,
    measured_torques,
  }

  -- The commands after a motion state: what was measured, if it is the first one.
  abbrev commands_after : EacHardware Double → W → List Double
  commands_after hw w = if hw.cycle_count == 0 then measured_positions w else hw.position_commands

  abbrev taken_state : EacHardware Double → W → EacHardware Double
  taken_state hw w = record hw {
    position_states = measured_positions w;
    torque_states = measured_torques w;
    position_commands = commands_after hw w;
    commanded_position_states = commands_after hw w;
    cycle_count = u32 (hw.cycle_count + 1);
  }

  take_sized :
      (n : ℕ) (hw : EacHardware Double) (w : W)
      → IsSized n hw
      → length (measured_positions w) ≡ n
      → length (measured_torques w) ≡ n
      → take_motion_state robot w hw ≡ some (taken_state hw w)
  unfolding take_motion_state
  take_sized n hw w z p t =
      let fits : (target : List Double)
          → length target ≡ n
          → copy_into (measured_positions w) target ≡ some (measured_positions w) =
        λ target h. copy_into-all (measured_positions w) target (p ∙ sym h) in
      let states = fits hw.position_states z.position_states in
      let commands = fits hw.position_commands z.position_commands in
      let commanded = fits hw.commanded_position_states z.commanded_position_states in
      let same =
        copy_into-all hw.position_commands hw.commanded_position_states
          (z.position_commands ∙ sym z.commanded_position_states) in
      let torques = copy_into-all (measured_torques w) hw.torque_states (t ∙ sym z.torque_states) in
      elim (Bool-cases (hw.cycle_count == 0)) [
        | inl e ↦ rw (states, torques, e, commands, commanded) refl
        | inr e ↦ rw (states, torques, e, same) refl
      ]

  -- If the vectors have one value for each joint and so has the motion state that comes in, then
  -- `read` takes it: the states are what was measured, and so are the position commands if it is
  -- the first motion state since an activation or a change of mode; otherwise the position commands
  -- stay. They are reported as the commanded positions, the last hardware event as the server
  -- state, and the vectors keep their sizes.
  read_takes :
      (n : ℕ) (hw : EacHardware Double) (w : W)
      → IsSized n hw
      → let (w', code) = receive_motion_state 10 w in
        is_ok_code code ≡ true
        → length (measured_positions w') ≡ n
        → length (measured_torques w') ≡ n
        → (hw' : EacHardware Double) × (read robot hw w ≡ some (hw', w'))
          × IsSized n hw'
          × (hw'.msg_received ≡ true)
          × (hw'.position_states ≡ measured_positions w')
          × (hw'.position_commands
              ≡ (if hw.cycle_count == 0 then measured_positions w' else hw.position_commands))
          × (hw'.commanded_position_states ≡ hw'.position_commands)
          × (hw'.server_state ≡ hw.last_event)
  unfolding read
  read_takes n hw w z k p t =
      let (w', code) = receive_motion_state 10 w in
      let hw₁ : EacHardware Double = record hw { msg_received = true } in
      let z₁ : IsSized n hw₁ = record {
        position_states = z.position_states;
        position_commands = z.position_commands;
        commanded_position_states = z.commanded_position_states;
        torque_states = z.torque_states;
      } in
      let l : length (commands_after hw w') ≡ n = ground (arith, p, z.position_commands) in
      let sized : IsSized n (publish_event (taken_state hw₁ w')) = record {
        position_states = p;
        position_commands = l;
        commanded_position_states = l;
        torque_states = t;
      } in
      (
        publish_event (taken_state hw₁ w'),
        rw (k, take_sized n hw₁ w' z₁ p t) refl,
        sized,
        refl,
        refl,
        refl,
        refl,
        refl,
      )

  activated :
      (n : ℕ) (hw : EacHardware Double) (w : W)
      → IsSized n hw
      → let (hw₁, w₁, result) = on_activate robot hw w in
        result ≡ success → IsSized n hw₁ × (hw₁.cycle_count ≡ 0)
  unfolding on_activate
  activated n hw w z s =
      let started = (start_controlling hw.control_mode_command (register_event_handler w).0).1 in
      elim (Bool-cases (is_error_code started)) [
        | inl e ↦ absurd (ground (arith, e))
        | inr e ↦ rw e (
          record {
            position_states = z.position_states;
            position_commands = z.position_commands;
            commanded_position_states = z.commanded_position_states;
            torque_states = z.torque_states;
          },
          refl,
        )
      ]

  module _ (clock : Clock W) (count_command : W → ℕ) where
    -- `write` returns whatever the wait for the interpolation count does, and hands on the commands
    -- of all four interfaces.
    write_hands_on :
        (hw : EacHardware Double) (w : W)
        → hw.msg_received ≡ true
        → (c : Counting) × (v : W) × (write robot clock count_command hw w
            ≡ some (
                reply robot
                  (record hw { counting = c })
                  (robot.add_stiffness_and_damping_values hw.stiffness_commands hw.damping_commands
                    (robot.add_torque_values hw.torque_commands
                      (robot.add_joint_position_values hw.position_commands v)))))
    unfolding write
    write_hands_on hw w m =
        let (c, v, e) = count_check_ends clock count_command hw.counting w in (c, v, rw (m, e) refl)

    -- Reads that receive no motion state, each with the write behind it.
    pub data TimedOut : EacHardware Double → W → EacHardware Double → W → Type 0 where
      not_yet : {hw : EacHardware Double} {w : W} → TimedOut hw w hw w
      timed_out :
          {hw hw₁ hw₂ hw₃ : EacHardware Double} {w w₁ w₂ w₃ : W} {ok : Bool}
          → TimedOut hw w hw₁ w₁
          → is_ok_code (receive_motion_state 10 w₁).1 ≡ false
          → read robot hw₁ w₁ ≡ some (hw₂, w₂)
          → write robot clock count_command hw₂ w₂ ≡ some (hw₃, w₃, ok)
          → TimedOut hw w hw₃ w₃

    -- Nothing was received since the activation.
    abbrev Fresh : ℕ → EacHardware Double → Type 0
    Fresh n hw = IsSized n hw × (hw.cycle_count ≡ 0)

    silent_read :
        (n : ℕ) (hw hw' : EacHardware Double) (w w' : W)
        → Fresh n hw
        → is_ok_code (receive_motion_state 10 w).1 ≡ false
        → read robot hw w ≡ some (hw', w')
        → Fresh n hw' × (hw'.msg_received ≡ false)
    unfolding read
    silent_read n hw hw' w w' (z, c) silent e =
        let quiet : EacHardware Double = publish_event (record hw { msg_received = false }) in
        let same : quiet ≡ hw' = cc (rw silent at e) in
        let fresh : Fresh n quiet = (
          record {
            position_states = z.position_states;
            position_commands = z.position_commands;
            commanded_position_states = z.commanded_position_states;
            torque_states = z.torque_states;
          },
          c,
        ) in
        subst (λ x. Fresh n x × (x.msg_received ≡ false)) same (fresh, refl)

    silent_write :
        (n : ℕ) (hw hw' : EacHardware Double) (w w' : W) (ok : Bool)
        → Fresh n hw
        → hw.msg_received ≡ false
        → write robot clock count_command hw w ≡ some (hw', w', ok)
        → Fresh n hw'
    unfolding write
    silent_write n hw hw' w w' ok fresh silent e =
        let same : hw ≡ hw' = cc (rw silent at e) in subst (Fresh n) same fresh

    TimedOut-Fresh :
        (n : ℕ) {hw hw' : EacHardware Double} {w w' : W}
        → TimedOut hw w hw' w'
        → Fresh n hw
        → Fresh n hw'
    TimedOut-Fresh n not_yet fresh = fresh
    TimedOut-Fresh n (timed_out {hw} {hw₁} {hw₂} {hw₃} {w} {w₁} {w₂} {w₃} {ok} before silent r e)
          fresh =
        let (fresh₂, m) = silent_read n hw₁ hw₂ w₁ w₂ (TimedOut-Fresh n before fresh) silent r in
        silent_write n hw₂ hw₃ w₂ w₃ ok fresh₂ m e

    -- After an activation that succeeds, with vectors of the size of the robot, and any number of
    -- reads that time out, the first motion state that is received makes the next `write` command
    -- the positions that were measured.
    pub activation_holds_position :
        (n : ℕ) (hw : EacHardware Double) (w : W)
        → IsSized n hw
        → {hw₁ : EacHardware Double} {w₁ : W} → (on_activate robot hw w).2 ≡ success
        → TimedOut (on_activate robot hw w).0 (on_activate robot hw w).1 hw₁ w₁
        → let (w₂, code) = receive_motion_state 10 w₁ in
          is_ok_code code ≡ true
          → length (measured_positions w₂) ≡ n
          → length (measured_torques w₂) ≡ n
          → (hw₂ : EacHardware Double) × (read robot hw₁ w₁ ≡ some (hw₂, w₂))
            × ((hw₃ : EacHardware Double) × (v : W) × (write robot clock count_command hw₂ w₂
                  ≡ some (
                      reply robot hw₃ (
                        robot.add_stiffness_and_damping_values hw₂.stiffness_commands
                          hw₂.damping_commands
                          (robot.add_torque_values hw₂.torque_commands
                            (robot.add_joint_position_values (measured_positions w₂) v))))))
    activation_holds_position n hw w z {hw₁} {w₁} s silent k p t =
        let (z₁, first) = TimedOut-Fresh n silent (activated n hw w z s) in
        let (hw₂, e, z₂, m, states, commands, commanded, event) = read_takes n hw₁ w₁ z₁ k p t in
        let (c, v, sent) = write_hands_on hw₂ (receive_motion_state 10 w₁).0 m in
        let held : hw₂.position_commands ≡ measured_positions (receive_motion_state 10 w₁).0 =
          rw first at commands in
        let hw₃ : EacHardware Double = record hw₂ { counting = c } in
        let add : List Double → W = λ ps.
          robot.add_stiffness_and_damping_values hw₂.stiffness_commands hw₂.damping_commands
            (robot.add_torque_values hw₂.torque_commands (robot.add_joint_position_values ps v)) in
        (hw₂, e, (hw₃, v, sent ∙ ap (λ ps. some (reply robot hw₃ (add ps))) held))
