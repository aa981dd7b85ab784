-- ===== src/Fri/Connection/Answers.antt =====
-- A command of kuka_sunrise_fri_driver/src/connection_helpers/fri_connection.cpp and its answer.
use kuka_drivers.Prelude.{
  Bool, Bool-cases, List, [], false, inl, inr, refl, some, true, ℕ, ◌&&◌, ◌==◌, ◌∷◌, ◌≡◌, ◌⊎◌,
}
use kuka_drivers.Fri.Connection.{
  FriConnection, Outcome, accepted, assert_last_command_success, command_success,
  error_control_ended, error_fri_ended, handle_received_tcp_data, rejected, returned,
  send_command_and_wait, unknown, wait_for_answer,
}

-- A packet with its state, the command's id and its success, and what may follow.
pub data Answer : Type 0 where
  answer : ℕ → ℕ → ℕ → List ℕ → Answer

abbrev pub packet_of : Answer → List ℕ
packet_of (answer state id result rest) = state ∷ id ∷ result ∷ rest

abbrev pub verdict : ℕ → Answer → Bool
verdict id (answer state id' result rest) =
    state == accepted && id' == id && result == command_success

-- What a received answer does to the state, besides the verdict on a command.
abbrev Taken : Answer → FriConnection → FriConnection → Type 0
Taken a fc fc' =
    ((id : ℕ) → assert_last_command_success id fc' ≡ verdict id a)
    × (fc'.answer_received ≡ true)
    × (fc'.connected ≡ fc.connected)
    × (fc'.sent ≡ fc.sent)
    × (fc'.handlers ≡ fc.handlers)

-- The state with an answer's parts.
abbrev with_state : ℕ → FriConnection → FriConnection
with_state state fc = record fc { last_command_state = state; answer_received = true }

abbrev with_id : ℕ → ℕ → FriConnection → FriConnection
with_id state id fc = record (with_state state fc) { last_command_id = id }

abbrev with_success : ℕ → ℕ → ℕ → FriConnection → FriConnection
with_success state id result fc = record (with_id state id fc) { last_command_success = result }

abbrev state_of : Answer → ℕ
state_of (answer state id result rest) = state

-- Neither of the two errors that are no answer unless a command waits.
abbrev pub IsReply : Answer → Type 0
IsReply a =
    ((state_of a == error_control_ended) ≡ false) × ((state_of a == error_fri_ended) ≡ false)

-- A packet is an answer if a command waits, and also when none does unless it is an error.
pub packet-Taken :
    (a : Answer) (fc : FriConnection)
    → (fc.answer_wanted ≡ true) ⊎ IsReply a
    → (fc' : FriConnection) × (handle_received_tcp_data (packet_of a) fc ≡ some fc')
      × Taken a fc fc'
unfolding handle_received_tcp_data assert_last_command_success
packet-Taken (answer state id result rest) fc w = elim (Bool-cases (state == accepted)) [
  | inl e ↦
      (with_success accepted id result fc, rw e refl, (λ k. rw e refl, refl, refl, refl, refl))
  | inr e ↦ elim (Bool-cases (state == rejected)) [
    | inl f ↦ (with_id rejected id fc, rw (e, f) refl, (λ k. rw e refl, refl, refl, refl, refl))
    | inr f ↦ elim w [
      | inl v ↦ elim (Bool-cases (state == error_control_ended)) [
        | inl g ↦ (
          with_state error_control_ended fc,
          rw (e, f, g, v) refl,
          (λ k. rw e refl, refl, refl, refl, refl),
        )
        | inr g ↦ elim (Bool-cases (state == error_fri_ended)) [
          | inl h ↦ (
            with_state error_fri_ended fc,
            rw (e, f, g, h, v) refl,
            (λ k. rw e refl, refl, refl, refl, refl),
          )
          | inr h ↦ (
            with_state unknown fc,
            rw (e, f, g, h) refl,
            (λ k. rw e refl, refl, refl, refl, refl),
          )
        ]
      ]
      | inr (g, h) ↦
          (with_state unknown fc, rw (e, f, g, h) refl, (λ k. rw e refl, refl, refl, refl, refl))
    ]
  ]
]

-- How a command ended that took the packets up to `left`.
abbrev pub Ended : ℕ → List ℕ → Bool → List (List ℕ) → FriConnection → Outcome → Type 0
Ended id bytes success left fc r =
    (fc' : FriConnection) × (r ≡ returned success fc' left)
    × (fc'.answer_received ≡ false)
    × (fc'.answer_wanted ≡ false)
    × (fc'.connected ≡ fc.connected)
    × (fc'.sent ≡ (id ∷ bytes) ∷ fc.sent)
    × (fc'.handlers ≡ fc.handlers)

wait_received :
    (id : ℕ) (packets : List (List ℕ)) (fc : FriConnection)
    → fc.answer_received ≡ true
    → wait_for_answer id packets fc
      ≡ returned
          (assert_last_command_success id fc)
          (record fc { answer_received = false; answer_wanted = false })
          packets
unfolding wait_for_answer
wait_received id [] fc r = rw r refl
wait_received id (p ∷ packets) fc r = rw r refl

-- On a connection that is up with no answer pending, a command whose first packet has at least
-- three bytes returns. It returns true exactly if the packet is an acceptance of this command with
-- success; it takes this packet and no other, sends the id and the data, starts no handler and
-- leaves no answer pending, whatever the packet says.
pub answered_command :
    (id : ℕ) (bytes : List ℕ) (a : Answer) (packets : List (List ℕ)) (fc : FriConnection)
    → fc.connected ≡ true
    → fc.answer_received ≡ false
    → Ended id bytes
        (verdict id a)
        packets
        fc
        (send_command_and_wait id bytes (packet_of a ∷ packets) fc)
unfolding send_command_and_wait wait_for_answer
answered_command id bytes a packets fc c r =
    let start : FriConnection = record fc { answer_wanted = true; sent = (id ∷ bytes) ∷ fc.sent } in
    let (fc', e, (v, got, con, sen, han)) = packet-Taken a start (inl refl) in
    (
      record fc' { answer_received = false; answer_wanted = false },
      rw (e, wait_received id packets fc' got, v id, c, r) refl,
      refl,
      refl,
      con,
      sen,
      han,
    )

abbrev after : ℕ → List ℕ → FriConnection → FriConnection
after id bytes fc = record fc {
  answer_wanted = false;
  answer_received = false;
  sent = (id ∷ bytes) ∷ fc.sent;
}

-- A command given on a connection that is up while an answer is pending does not wait: it takes no
-- packet, and returns what the pending answer says about it.
pub stale_command :
    (id : ℕ) (bytes : List ℕ) (packets : List (List ℕ)) (fc : FriConnection)
    → fc.connected ≡ true
    → fc.answer_received ≡ true
    → Ended id bytes
        (assert_last_command_success id fc)
        packets
        fc
        (send_command_and_wait id bytes packets fc)
unfolding send_command_and_wait wait_for_answer assert_last_command_success
stale_command id bytes [] fc c r = (after id bytes fc, rw (c, r) refl, refl, refl, refl, refl, refl)
stale_command id bytes (p ∷ packets) fc c r =
    (after id bytes fc, rw (c, r) refl, refl, refl, refl, refl, refl)
