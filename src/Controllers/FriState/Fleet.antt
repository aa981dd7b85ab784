-- ===== src/Controllers/FriState/Fleet.antt =====
-- The state of FRI of every robot on its way into the message.
use kuka_drivers.Prelude.{All, List, ap, arith, length, length-map, map, ◌%◌, ◌+◌, ◌∙◌, ◌∷◌, ◌≡◌}
use kuka_drivers.Core.Modes.{success}
use kuka_drivers.Core.Interfaces.{real}
use kuka_drivers.Controllers.Lending.{Lends}
use kuka_drivers.Controllers.FriState.{
  Casts, FriStateBroadcaster, FriStateCycle, on_configure, state_interface_names, update,
}
use kuka_drivers.Controllers.FriState.Rate.{
  IsFree, configured_state, counted_run, publishing_update, run, run-Kept,
}
use kuka_drivers.Controllers.FriState.Shown.{
  FriLent, FriMember, IsFriMember, assign_states-shown, fri_exports, shown,
}

-- With the counter at 0, after a configuration that succeeds and cycles in which the publisher is
-- free, the cycle that makes their number a multiple of eleven publishes one message. If each
-- robot's hardware has its prefix, with an underscore behind it, as the prefix of its interfaces,
-- and the broadcaster is lent what it asks for of what they export, then the message has for every
-- robot, in the order of the prefixes, the state of FRI that its hardware holds, cast to int32.
pub fri_state_reaches_message :
    {Double : Type 0} (casts : Casts Double) (cs : List (FriStateCycle Double))
    (c : FriStateCycle Double) (b : FriStateBroadcaster Double) (ms : List (FriMember Double))
    → (on_configure casts b).1 ≡ success
    → b.counter ≡ 0
    → b.prefix_params ≡ map (λ m. m.robot_prefix) ms
    → All IsFriMember ms
    → All IsFree (c ∷ cs)
    → (1 + length cs) % 11 ≡ 0
    → Lends {Double = Double} real c.reading (state_interface_names b) (fri_exports ms)
    → let before = run casts cs (on_configure casts b).0 in
      (update casts c before).published
      ≡ (b.prefix_params, map (λ m. shown casts m.hw.robot_state) ms) ∷ before.published
unfolding state_interface_names
fri_state_reaches_message casts cs c b ms configured zero_ prefixes members (free, frees) due
      lends =
    let b₀ = (on_configure casts b).0 in
    let before = run casts cs b₀ in
    let (names, sized, counter, _) = configured_state casts b configured in
    let count = counted_run casts cs b₀ frees (omega (arith, counter)) in
    let kept = run-Kept casts cs b₀ in
    let l : length before.current_states ≡ length ms =
      kept.1 ∙ sized ∙ ap length prefixes ∙ length-map (λ m. m.robot_prefix) ms in
    let lent : FriLent (λ i. c.reading (0 + i)) ms =
      λ i g n v a e. let z : 0 + i ≡ i = omega arith in rw z (lends i g n v (rw prefixes a) e) in
    let shown_ = assign_states-shown casts c.reading 0 ms before.current_states members l lent in
    let p = publishing_update casts c before free (omega (arith, count, counter)) in
    p ∙ ap (λ x. x ∷ before.published) (cc (kept.0, names, shown_))
