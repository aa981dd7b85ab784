-- ===== src/Controllers/FriState/Rate.antt =====
-- How often the state of FRI is published, and what the cycles leave alone.
use kuka_drivers.Prelude.{
  All, List, Option, [], ap, arith, length, length-map, refl, suc, true, ℕ, ◌%◌, ◌+◌, ◌/◌, ◌<◌, ◌∙◌,
  ◌∷◌, ◌≡◌,
}
use kuka_drivers.Core.Modes.{success}
use kuka_drivers.Controllers.FriState.{
  Casts, FriState, FriStateBroadcaster, FriStateCycle, assign_states, empty_state, on_configure,
  publish_state, update,
}

module _ {Double : Type 0} where
  abbrev pub IsFree : FriStateCycle Double → Type 0
  IsFree c = c.lock_free ≡ true

module _ {Double : Type 0} (casts : Casts Double) where
  -- The cycles in their order.
  unfoldable pub run :
      List (FriStateCycle Double) → FriStateBroadcaster Double → FriStateBroadcaster Double
  run [] broadcaster = broadcaster
  run (c ∷ cs) broadcaster = run cs (update casts c broadcaster)

  count_step :
      (c : FriStateCycle Double) (b : FriStateBroadcaster Double)
      → IsFree c
      → b.counter < 11
      → let b' = update casts c b in
        (b'.counter ≡ (b.counter + 1) % 11)
        × (length b'.published ≡ length b.published + (b.counter + 1) / 11)
  unfolding update publish_state
  count_step c b free h = ground arith

  pub counted_run :
      (cs : List (FriStateCycle Double)) (b : FriStateBroadcaster Double)
      → All IsFree cs
      → b.counter < 11
      → let b' = run cs b in
        (b'.counter ≡ (b.counter + length cs) % 11)
        × (length b'.published ≡ length b.published + (b.counter + length cs) / 11)
  unfolding run
  counted_run [] b free h = (omega arith, omega arith)
  counted_run (c ∷ cs) b (free, frees) h =
      let s = count_step c b free h in
      let r = counted_run cs (update casts c b) frees (omega (arith, s)) in
      (omega (arith, s, r), omega (arith, s, r))

  length-assign_states :
      (reading : ℕ → Option Double) (idx : ℕ) (states : List (FriState Double))
      → length (assign_states casts reading idx states) ≡ length states
  unfolding assign_states
  length-assign_states reading idx [] = refl
  length-assign_states reading idx (s ∷ ss) = ap suc (length-assign_states reading (suc idx) ss)

  abbrev pub Kept : FriStateBroadcaster Double → FriStateBroadcaster Double → Type 0
  Kept b b' =
      (b'.state_msg.0 ≡ b.state_msg.0) × (length b'.current_states ≡ length b.current_states)

  update-Kept :
      (c : FriStateCycle Double) (b : FriStateBroadcaster Double) → Kept b (update casts c b)
  unfolding update publish_state
  update-Kept c b = ground (arith, length-assign_states c.reading 0 b.current_states)

  pub run-Kept :
      (cs : List (FriStateCycle Double)) (b : FriStateBroadcaster Double) → Kept b (run cs b)
  unfolding run
  run-Kept [] b = (refl, refl)
  run-Kept (c ∷ cs) b =
      let s = update-Kept c b in let r = run-Kept cs (update casts c b) in (r.0 ∙ s.0, r.1 ∙ s.1)

  pub configured_state :
      (b : FriStateBroadcaster Double)
      → (on_configure casts b).1 ≡ success
      → let configured = (on_configure casts b).0 in
        (configured.state_msg.0 ≡ b.prefix_params)
        × (length configured.current_states ≡ length b.prefix_params)
        × (configured.counter ≡ b.counter)
        × (length configured.published ≡ length b.published)
  unfolding on_configure
  configured_state b e = ground (arith, length-map (λ _. empty_state casts) b.prefix_params)

  -- The cycle that finds the counter at ten.
  pub publishing_update :
      (c : FriStateCycle Double) (b : FriStateBroadcaster Double)
      → IsFree c
      → b.counter ≡ 10
      → let states = assign_states casts c.reading 0 b.current_states in
        (update casts c b).published ≡ (b.state_msg.0, states) ∷ b.published
  unfolding update publish_state
  publishing_update c b free e = ground arith
