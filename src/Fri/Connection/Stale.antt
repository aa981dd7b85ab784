-- ===== src/Fri/Connection/Stale.antt =====
-- Runs of commands over one connection of
-- kuka_sunrise_fri_driver/src/connection_helpers/fri_connection.cpp, and what an answer that no
-- command waits for does to them.
use kuka_drivers.Prelude.{
  Bool, List, Option, [], false, inr, none, refl, some, true, ℕ, ◌∙◌, ◌∷◌, ◌≡◌,
}
use kuka_drivers.Fri.Connection.{
  FriConnection, Outcome, blocked, fault, handle_received_tcp_data, returned, send_command_and_wait,
}
use kuka_drivers.Fri.Connection.Answers.{
  Answer, IsReply, answered_command, packet_of, stale_command, packet-Taken, verdict,
}

-- A command's id, its data, and the answer that is the next packet to come in when it waits.
pub data Round : Type 0 where
  round : ℕ → List ℕ → Answer → Round

abbrev pub packets_of : List Round → List (List ℕ)
packets_of [] = []
packets_of (round id bytes a ∷ rounds) = packet_of a ∷ packets_of rounds

abbrev verdicts : List Round → List Bool
verdicts [] = []
verdicts (round id bytes a ∷ rounds) = verdict id a ∷ verdicts rounds

-- Gives the commands one after the other, each with the packets that are left, and lists what they
-- return; `none` if one does not return.
pub data Session : Type 0 where
  session : List Bool → FriConnection → List (List ℕ) → Session

abbrev note_result : Bool → Option Session → Option Session
note_result b (some (session bs fc packets)) = some (session (b ∷ bs) fc packets)
note_result b none = none

abbrev then_run : (List (List ℕ) → FriConnection → Option Session) → Outcome → Option Session
then_run k (returned b fc packets) = note_result b (k packets fc)
then_run k blocked = none
then_run k fault = none

unfoldable pub run_commands : List Round → List (List ℕ) → FriConnection → Option Session
run_commands [] packets fc = some (session [] fc packets)
run_commands (round id bytes a ∷ rounds) packets fc =
    then_run (run_commands rounds) (send_command_and_wait id bytes packets fc)

-- If each command of a run, on a connection that is up with no answer pending, is answered by a
-- packet of at least three bytes, then every one returns, with what its own answer says, and no
-- packet and no pending answer is left.
pub commands_in_step :
    (rounds : List Round) (fc : FriConnection)
    → fc.connected ≡ true
    → fc.answer_received ≡ false
    → (fc' : FriConnection) × (run_commands rounds (packets_of rounds) fc
        ≡ some (session (verdicts rounds) fc' []))
      × (fc'.answer_received ≡ false)
unfolding run_commands
commands_in_step [] fc c r = (fc, refl, r)
commands_in_step (round id bytes a ∷ rounds) fc c r =
    let (fc', e, r', w, c', s, h) = answered_command id bytes a (packets_of rounds) fc c r in
    let (fc'', e', r'') = commands_in_step rounds fc' (c' ∙ c) r' in (fc'', rw (e, e') refl, r'')

-- If a packet of at least three bytes that is none of the two errors comes in while no command
-- waits, on a connection that is up, then the first command of the run after it takes no packet and
-- returns what that packet says, and each later command takes the next packet and returns what it
-- says: with one answer to each command, that is the answer to the command before.
pub commands_out_of_step :
    (stray : Answer) (id : ℕ) (bytes : List ℕ) (rounds : List Round) (fc : FriConnection)
    → IsReply stray
    → fc.connected ≡ true
    → (idle : FriConnection) × (fc' : FriConnection) × (handle_received_tcp_data
          (packet_of stray)
          fc
        ≡ some idle)
      × (run_commands (round id bytes stray ∷ rounds) (packets_of rounds) idle
          ≡ some (session (verdict id stray ∷ verdicts rounds) fc' []))
unfolding run_commands
commands_out_of_step stray id bytes rounds fc reply c =
    let (idle, e, (v, got, c', s, h)) = packet-Taken stray fc (inr reply) in
    let (fc', e', r', w, c'', s', h') =
      stale_command id bytes (packets_of rounds) idle (c' ∙ c) got in
    let (fc'', e'', r'') = commands_in_step rounds fc' (c'' ∙ c' ∙ c) r' in
    (idle, fc'', e, rw (e', v id, e'') refl)
