-- ===== src/Controllers/Kss/CycleTimes.antt =====
-- The cycle time that the handler hands to the hardware.
use kuka_drivers.Prelude.{
  Bool, List, [], ap, arith, if◌then◌else◌, leb, length, refl, replicate, suc, true, ℕ, ◌&&◌, ◌∙◌,
  ◌∷◌, ◌≡◌,
}
use kuka_drivers.Core.Modes.{success}
use kuka_drivers.Controllers.Kss.{
  KssCycle, KssMessageHandler, on_configure, publish_status, rsi_cycle_time_changed, set_all,
  update,
}

-- A message on the topic of the cycle time, or a cycle.
pub data Input : Type 0 where
  message : ℕ → Input
  cycle : KssCycle → Input

unfoldable pub take_input : Input → KssMessageHandler → KssMessageHandler
take_input (message data_) handler = rsi_cycle_time_changed data_ handler
take_input (cycle c) handler = (update c handler).0

unfoldable pub take_inputs : List Input → KssMessageHandler → KssMessageHandler
take_inputs [] handler = handler
take_inputs (input ∷ inputs) handler = take_inputs inputs (take_input input handler)

-- The last message that is 1 or 2, or else `before`.
abbrev pub last_valid : ℕ → List Input → ℕ
last_valid before [] = before
last_valid before (message data_ ∷ inputs) =
    last_valid (if leb 1 data_ && leb data_ 2 then data_ else before) inputs
last_valid before (cycle c ∷ inputs) = last_valid before inputs

cycle_keeps : (c : KssCycle) (h : KssMessageHandler) → (update c h).0.cycle_time ≡ h.cycle_time
unfolding update publish_status
cycle_keeps c h = ground arith

message_taken :
    (data_ : ℕ) (h : KssMessageHandler)
    → (rsi_cycle_time_changed data_ h).cycle_time
      ≡ (if leb 1 data_ && leb data_ 2 then data_ else h.cycle_time)
unfolding rsi_cycle_time_changed
message_taken data_ h = ground arith

inputs_taken :
    (inputs : List Input) (h : KssMessageHandler)
    → (take_inputs inputs h).cycle_time ≡ last_valid h.cycle_time inputs
unfolding take_inputs take_input
inputs_taken [] h = refl
inputs_taken (message data_ ∷ inputs) h =
    inputs_taken inputs (rsi_cycle_time_changed data_ h)
    ∙ ap (λ n. last_valid n inputs) (message_taken data_ h)
inputs_taken (cycle c ∷ inputs) h =
    inputs_taken inputs (update c h).0 ∙ ap (λ n. last_valid n inputs) (cycle_keeps c h)

all_set :
    (settable : ℕ → Bool) (value idx : ℕ) (olds : List ℕ) (ok : Bool)
    → ((i : ℕ) → settable i ≡ true)
    → set_all settable value idx olds ok ≡ (replicate (length olds) value, ok)
unfolding set_all
all_set settable value idx [] ok h = refl
all_set settable value idx (old ∷ rest) ok h =
    ground (arith, h idx, all_set settable value (suc idx) rest (ok && settable idx) h)

cycle_hands_on :
    (c : KssCycle) (h : KssMessageHandler)
    → ((i : ℕ) → c.settable i ≡ true)
    → ((update c h).0.commands ≡ replicate (length h.commands) h.cycle_time)
      × ((update c h).1 ≡ true)
unfolding update publish_status
cycle_hands_on c h free = ground (arith, all_set c.settable h.cycle_time 0 h.commands true free)

configured_cycle :
    (h : KssMessageHandler) → (on_configure h).1 ≡ success → (on_configure h).0.cycle_time ≡ 1
unfolding on_configure
configured_cycle h e = ground arith

-- After a configuration that succeeds and any messages and cycles, a cycle in which every command
-- interface takes its value succeeds, and gives each robot the last message that was 1 (4 ms) or 2
-- (12 ms), and 1 if there was none.
pub last_cycle_time_handed_on :
    (inputs : List Input) (c : KssCycle) (h : KssMessageHandler)
    → (on_configure h).1 ≡ success
    → ((i : ℕ) → c.settable i ≡ true)
    → let before = take_inputs inputs (on_configure h).0 in
      let (after, ok) = update c before in
      (after.commands ≡ replicate (length before.commands) (last_valid 1 inputs)) × (ok ≡ true)
last_cycle_time_handed_on inputs c h configured free =
    let configured_ = (on_configure h).0 in
    let before = take_inputs inputs configured_ in
    let time : before.cycle_time ≡ last_valid 1 inputs =
      inputs_taken inputs configured_
      ∙ ap (λ n. last_valid n inputs) (configured_cycle h configured) in
    let handed = cycle_hands_on c before free in
    (handed.0 ∙ ap (replicate (length before.commands)) time, handed.1)
