-- ===== src/Tests/FriRuns.antt =====
-- Runs of the models of kuka_sunrise_fri_driver.
use kuka_drivers.Prelude.{
  List, Option, [], arith, false, none, pos, refl, some, true, ℕ, ◌++◌, ◌∷◌, ◌≡◌,
}
use kuka_drivers.Core.Modes.{
  CallbackReturn, Lifecycle, activating, active, error_event, failure, inactive, success,
}
use kuka_drivers.Core.Services.{
  Services, bring_up, change_controller_state, change_hardware_state, send_request, set_update_rate,
}
use kuka_drivers.Core.Services.Effects.{last_accepted}
use kuka_drivers.Fri.Connection.{FriConnection, handle_received_tcp_data, new_connection}
use kuka_drivers.Fri.Connection.Answers.{Answer, Ended, answer, answered_command}
use kuka_drivers.Fri.Connection.Stale.{
  Round, commands_in_step, commands_out_of_step, packets_of, round, run_commands, session,
}
use kuka_drivers.Fri.Connection.Commands.{control_mode_header, impedance_data, start_fri}
use kuka_drivers.Fri.Connection.Messages.{impedance_read, read_doubles}
use kuka_drivers.Fri.Address.{
  check_part, check_parts, read_digits, split_ip, stoi, validate_ip_adress,
}
use kuka_drivers.Fri.Manager.{
  FriManager, get_controller_name, int32, send_period_change_request, validate_period,
}
use kuka_drivers.Fri.Manager.Settings.{on_receive_multiplier_change_request}
use kuka_drivers.Fri.Manager.Transitions.{event_subscription_callback, handle_events, on_activate}
use kuka_drivers.Fri.Manager.Limits.{
  IsLimited, apply_changes, limits_kept, new_multiplier, new_period,
}
use kuka_drivers.Fri.Manager.Amid.{error_event_unnoticed, on_activate_amid}
use kuka_drivers.Fri.Manager.Failures.{refused_rate_leaves_active}
use kuka_drivers.Fri.Manager.Activation.{activated_robots}

abbrev open_connection : FriConnection
open_connection = record new_connection { connected = true }

abbrev started : Answer
started = answer 1 3 1 []

answered_command_example :
    Ended 3 [] true [] open_connection (start_fri ((1 ∷ 3 ∷ 1 ∷ []) ∷ []) open_connection)
unfolding start_fri
answered_command_example = answered_command 3 [] started [] open_connection refl refl

abbrev two_rounds : List Round
two_rounds = round 3 [] started ∷ round 5 [] (answer 2 5 0 []) ∷ []

commands_in_step_example :
    (fc' : FriConnection) × (run_commands two_rounds (packets_of two_rounds) open_connection
      ≡ some (session (true ∷ false ∷ []) fc' []))
    × (fc'.answer_received ≡ false)
commands_in_step_example = commands_in_step two_rounds open_connection refl refl

-- The command to start is accepted, but the unknown packet before it makes it fail; the command to
-- activate is then judged by the acceptance of the start.
commands_out_of_step_example :
    (idle : FriConnection) × (fc' : FriConnection) × (handle_received_tcp_data
        (3 ∷ 0 ∷ 0 ∷ [])
        open_connection
      ≡ some idle)
    × (run_commands
          (round 3 [] (answer 3 0 0 []) ∷ round 5 [] started ∷ [])
          ((1 ∷ 3 ∷ 1 ∷ []) ∷ [])
          idle
        ≡ some (session (false ∷ false ∷ []) fc' []))
commands_out_of_step_example =
    commands_out_of_step (answer 3 0 0 []) 3 [] (round 5 [] started ∷ []) open_connection
      (refl, refl) refl

impedance_read_example :
    (bytes : List ℕ) × (impedance_data (5 ∷ []) (6 ∷ []) ≡ 2 ∷ control_mode_header ++ bytes)
    × (read_doubles bytes ≡ some (5 ∷ 6 ∷ []))
impedance_read_example = impedance_read (5 ∷ []) (6 ∷ []) (omega arith, tt) (omega arith, tt)

abbrev one_robot : FriManager ℕ
one_robot = record {
  robot_models = "a" ∷ [];
  send_period_ms = pos 10;
  receive_multiplier = pos 1;
  joint_stiffness = [];
  joint_damping = [];
  control_mode = 1;
  joint_pos_controller_name = "jtc";
  joint_torque_controller_name = "";
  is_configured_active = true;
  state = inactive;
  published = [];
  log = [];
}

one_robot-IsLimited : IsLimited one_robot.send_period_ms one_robot.receive_multiplier
one_robot-IsLimited = (omega arith, omega arith, omega arith)

limits_kept_example :
    let fm' = apply_changes (new_period (pos 5) ∷ new_multiplier (pos 2) ∷ []) one_robot in
    IsLimited fm'.send_period_ms fm'.receive_multiplier
limits_kept_example =
    limits_kept (new_period (pos 5) ∷ new_multiplier (pos 2) ∷ []) one_robot (tt, (omega arith, tt))
      one_robot-IsLimited

-- A product that wraps around to 4 is accepted.
wrapped_product : (on_receive_multiplier_change_request (pos 429496730) one_robot).1 ≡ true
unfolding on_receive_multiplier_change_request int32
wrapped_product = refl

abbrev accept_all : Services
accept_all log request = some true

abbrev refuse_rates : Services
refuse_rates log (set_update_rate rate) = some false
refuse_rates log _ = some true

abbrev to_inactive : Option CallbackReturn → Lifecycle
to_inactive result = inactive

activated_robots_example :
    last_accepted "a" (on_activate accept_all to_inactive (3 ∷ []) one_robot).0.log ≡ some active
unfolding handle_events event_subscription_callback on_activate bring_up change_hardware_state
    send_request change_controller_state get_controller_name send_period_change_request
    validate_period int32
activated_robots_example =
    activated_robots accept_all "a" to_inactive (3 ∷ []) one_robot refl (refl, tt) refl

refused_rate_leaves_active_example :
    ((on_activate refuse_rates to_inactive [] one_robot).1 ≡ some failure)
    × (last_accepted "a" (on_activate refuse_rates to_inactive [] one_robot).0.log ≡ some active)
unfolding get_controller_name
refused_rate_leaves_active_example =
    refused_rate_leaves_active refuse_rates "a" to_inactive one_robot (λ e. cc) (λ log name. refl)
      (λ log a d. refl) (λ log rate e. cc) refl

-- "1].2.3.4" is accepted, and "[1.2.3.4" throws.
bracket_accepted : validate_ip_adress (49 ∷ 93 ∷ 46 ∷ 50 ∷ 46 ∷ 51 ∷ 46 ∷ 52 ∷ []) ≡ some true
unfolding validate_ip_adress split_ip check_parts check_part stoi read_digits
bracket_accepted = refl

bracket_throws : validate_ip_adress (91 ∷ 49 ∷ 46 ∷ 50 ∷ 46 ∷ 51 ∷ 46 ∷ 52 ∷ []) ≡ none
unfolding validate_ip_adress split_ip check_parts check_part stoi read_digits
bracket_throws = refl

abbrev activating_robot : FriManager ℕ
activating_robot = record one_robot { state = activating }

-- An error event in the loop and one in the pause behind it.
error_event_unnoticed_example :
    let (fm', result) =
      on_activate_amid accept_all to_inactive
        (λ i. error_event ∷ [])
        (error_event ∷ [])
        activating_robot in
    (result ≡ some success) × (last_accepted "a" fm'.log ≡ some inactive)
unfolding get_controller_name validate_period int32
error_event_unnoticed_example =
    error_event_unnoticed accept_all to_inactive "a" (λ i. error_event ∷ []) activating_robot "jtc"
      (λ log request. refl) refl refl refl refl
