-- ===== src/Controllers/Kss/Fleet.antt =====
-- The status of every robot on its way into the message.
use kuka_drivers.Prelude.{
  All, List, Option, [], ap, arith, length, length-map, map, refl, suc, true, ℕ, ◌%◌, ◌+◌, ◌∙◌, ◌∷◌,
  ◌≡◌,
}
use kuka_drivers.Core.Modes.{success}
use kuka_drivers.Core.Interfaces.{integer}
use kuka_drivers.Controllers.Lending.{Lends}
use kuka_drivers.Controllers.Kss.{
  KssCycle, KssMessageHandler, KssStatus, assign_statuses, empty_status, on_configure,
  publish_status, state_interface_names, update,
}
use kuka_drivers.Controllers.Kss.Rate.{IsFree, configured_counter, counted_run, run}
use kuka_drivers.Controllers.Kss.Shown.{
  IsMember, Lent, Member, all_exports, assign_statuses-shown, shown,
}

length-assign_statuses :
    (reading : ℕ → Option ℕ) (idx : ℕ) (statuses : List KssStatus)
    → length (assign_statuses reading idx statuses) ≡ length statuses
unfolding assign_statuses
length-assign_statuses reading idx [] = refl
length-assign_statuses reading idx (s ∷ ss) = ap suc (length-assign_statuses reading (suc idx) ss)

-- What the cycles leave alone.
abbrev Kept : KssMessageHandler → KssMessageHandler → Type 0
Kept h h' =
    (h'.status_msg.0 ≡ h.status_msg.0) × (length h'.current_statuses ≡ length h.current_statuses)

update-Kept : (c : KssCycle) (h : KssMessageHandler) → Kept h (update c h).0
unfolding update publish_status
update-Kept c h = ground (arith, length-assign_statuses c.reading 0 h.current_statuses)

run-Kept : (cs : List KssCycle) (h : KssMessageHandler) → Kept h (run cs h)
unfolding run
run-Kept [] h = (refl, refl)
run-Kept (c ∷ cs) h =
    let s = update-Kept c h in let r = run-Kept cs (update c h).0 in (r.0 ∙ s.0, r.1 ∙ s.1)

configured_names :
    (h : KssMessageHandler)
    → (on_configure h).1 ≡ success
    → let configured = (on_configure h).0 in
      (configured.status_msg.0 ≡ h.prefix_params)
      × (length configured.current_statuses ≡ length h.prefix_params)
unfolding on_configure
configured_names h e = ground (arith, length-map (λ _. empty_status) h.prefix_params)

-- The cycle in which the counter comes to fifty.
publishing_update :
    (c : KssCycle) (h : KssMessageHandler)
    → c.lock_free ≡ true
    → h.status_publish_counter ≡ 49
    → let statuses = assign_statuses c.reading 0 h.current_statuses in
      (update c h).0.published ≡ (h.status_msg.0, statuses) ∷ h.published
unfolding update publish_status
publishing_update c h free e = ground arith

-- After a configuration that succeeds, and cycles in which the publisher is free, the cycle that
-- makes their number a multiple of fifty publishes one message. If each robot's hardware has its
-- prefix, with an underscore behind it, as the prefix of its interfaces, and the handler is lent
-- what it asks for of what they export, then the message has for every robot, in the order of the
-- prefixes, the status that its hardware holds.
pub status_reaches_message :
    {Double : Type 0} (cs : List KssCycle) (c : KssCycle) (h : KssMessageHandler)
    (ms : List (Member Double))
    → (on_configure h).1 ≡ success
    → h.prefix_params ≡ map (λ m. m.robot_prefix) ms
    → All IsMember ms
    → All IsFree (c ∷ cs)
    → (1 + length cs) % 50 ≡ 0
    → Lends {Double = Double} integer c.reading (state_interface_names h) (all_exports ms)
    → let before = run cs (on_configure h).0 in
      (update c before).0.published
      ≡ (h.prefix_params, map (λ m. shown m.hw.status) ms) ∷ before.published
unfolding state_interface_names
status_reaches_message cs c h ms configured prefixes members (free, frees) due lends =
    let h₀ = (on_configure h).0 in
    let before = run cs h₀ in
    let s = configured_counter h configured in
    let count = counted_run cs h₀ frees (omega (arith, s)) in
    let kept = run-Kept cs h₀ in
    let names = configured_names h configured in
    let l : length before.current_statuses ≡ length ms =
      kept.1 ∙ names.1 ∙ ap length prefixes ∙ length-map (λ m. m.robot_prefix) ms in
    let lent : Lent (λ i. c.reading (0 + i)) ms =
      λ i g n v a e. let z : 0 + i ≡ i = omega arith in rw z (lends i g n v (rw prefixes a) e) in
    let shown_ = assign_statuses-shown c.reading 0 ms before.current_statuses members l lent in
    let p = publishing_update c before free (omega (arith, count, s)) in
    p ∙ ap (λ x. x ∷ before.published) (cc (kept.0, names.0, shown_))
