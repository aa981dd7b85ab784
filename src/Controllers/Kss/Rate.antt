-- ===== src/Controllers/Kss/Rate.antt =====
-- How often the status is published, and with which cycle time the robots are left.
use kuka_drivers.Core.Modes.{success}
use kuka_drivers.Prelude.{All, List, [], arith, length, true, ◌%◌, ◌+◌, ◌/◌, ◌<◌, ◌∷◌, ◌≡◌}
use kuka_drivers.Controllers.Kss.{KssCycle, KssMessageHandler, on_configure, publish_status, update}

-- The cycles in their order.
unfoldable pub run : List KssCycle → KssMessageHandler → KssMessageHandler
run [] handler = handler
run (c ∷ cs) handler = run cs (update c handler).0

abbrev pub IsFree : KssCycle → Type 0
IsFree c = c.lock_free ≡ true

count_step :
    (c : KssCycle) (handler : KssMessageHandler)
    → c.lock_free ≡ true
    → handler.status_publish_counter < 50
    → let handler' = (update c handler).0 in
      (handler'.status_publish_counter ≡ (handler.status_publish_counter + 1) % 50)
      × (length handler'.published
          ≡ length handler.published + (handler.status_publish_counter + 1) / 50)
unfolding update publish_status
count_step c handler free h = ground arith

pub counted_run :
    (cs : List KssCycle) (handler : KssMessageHandler)
    → All IsFree cs
    → handler.status_publish_counter < 50
    → let handler' = run cs handler in
      (handler'.status_publish_counter ≡ (handler.status_publish_counter + length cs) % 50)
      × (length handler'.published
          ≡ length handler.published + (handler.status_publish_counter + length cs) / 50)
unfolding run
counted_run [] handler free h = (omega arith, omega arith)
counted_run (c ∷ cs) handler (free, frees) h =
    let s = count_step c handler free h in
    let r = counted_run cs (update c handler).0 frees (omega (arith, s)) in
    (omega (arith, s, r), omega (arith, s, r))

pub configured_counter :
    (handler : KssMessageHandler)
    → (on_configure handler).1 ≡ success
    → let configured = (on_configure handler).0 in
      (configured.status_publish_counter ≡ 0)
      × (length configured.published ≡ length handler.published)
unfolding on_configure
configured_counter handler h = ground arith

-- After a configuration that succeeds, cycles in which the publisher is free publish one message
-- in every fifty.
pub published_every_50 :
    (cs : List KssCycle) (handler : KssMessageHandler)
    → (on_configure handler).1 ≡ success
    → All IsFree cs
    → let configured = (on_configure handler).0 in
      length (run cs configured).published ≡ length handler.published + length cs / 50
published_every_50 cs handler configured free =
    let s = configured_counter handler configured in
    omega (arith, s, counted_run cs (on_configure handler).0 free (omega (arith, s)))
