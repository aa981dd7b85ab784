-- ===== src/Controllers/Events/Messages.antt =====
-- The messages about events.
use kuka_drivers.Prelude.{
  List, String, [], ap, arith, false, if◌then◌else◌, not, refl, suc, true, ℕ, ◌&&◌, ◌==◌, ◌∙◌, ◌∷◌,
  ◌≡◌,
}
use kuka_drivers.Controllers.Events.{
  Cycle, EventBroadcaster, Robot, Scan, current_event, note_event, observe, scan_robots, start_scan,
  update,
}

-- The messages of a cycle, the latest first, in front of those of before.
abbrev announced : Cycle → ℕ → List Robot → List (String × ℕ) → List (String × ℕ)
announced c i [] before = before
announced c i (r ∷ rs) before = announced c (suc i) rs (
    if not (current_event c i r == r.last_event) && c.lock_free i
    then (r.name, current_event c i r) ∷ before
    else before)

scan_messages :
    (c : Cycle) (i : ℕ) (rs : List Robot) (s : Scan)
    → (scan_robots c i rs s).1.messages ≡ announced c i rs s.messages
unfolding scan_robots note_event
scan_messages c i [] s = refl
scan_messages c i (r ∷ rs) s = scan_messages c (suc i) rs (note_event c i r s)

same_event :
    (c c' : Cycle) (i : ℕ) (r : Robot)
    → c'.reading i ≡ c.reading i
    → (current_event c' i (observe c i r) == (observe c i r).last_event) ≡ true
unfolding observe
same_event c c' i r h = ground (arith, h)

scan_quiet :
    (c c' : Cycle) (i : ℕ) (rs : List Robot) (s : Scan) (before : List (String × ℕ))
    → ((j : ℕ) → c'.reading j ≡ c.reading j)
    → announced c' i (scan_robots c i rs s).0 before ≡ before
unfolding scan_robots observe
scan_quiet c c' i [] s before h = refl
scan_quiet c c' i (r ∷ rs) s before h =
    ground
      (arith, same_event c c' i r (h i), scan_quiet c c' (suc i) rs (note_event c i r s) before h)

locked_scan :
    (c : Cycle) (i : ℕ) (rs : List Robot) (before : List (String × ℕ))
    → ((j : ℕ) → c.lock_free j ≡ false)
    → announced c i rs before ≡ before
locked_scan c i [] before l = refl
locked_scan c i (r ∷ rs) before l = ground (arith, l i, locked_scan c (suc i) rs before l)

published-update :
    (c : Cycle) (eb : EventBroadcaster)
    → ((update c eb).0.published ≡ announced c 0 eb.robots eb.published)
      × ((update c eb).0.robots ≡ (scan_robots c 0 eb.robots (start_scan eb)).0)
unfolding update
published-update c eb = ground (arith, scan_messages c 0 eb.robots (start_scan eb))

-- A cycle that reads the events of the cycle before publishes nothing.
repeated_events_quiet :
    (c c' : Cycle) (eb : EventBroadcaster)
    → ((j : ℕ) → c'.reading j ≡ c.reading j)
    → (update c' (update c eb).0).0.published ≡ (update c eb).0.published
repeated_events_quiet c c' eb h =
    let eb' = (update c eb).0 in
    (published-update c' eb').0
    ∙ ap (λ (rs : List Robot). announced c' 0 rs eb'.published) (published-update c eb).1
    ∙ scan_quiet c c' 0 eb.robots (start_scan eb) eb'.published h

-- If the publisher is locked in the cycle in which events change, then they are not published, and
-- not in the next cycle either when the state interfaces still show them.
pub locked_events_lost :
    (c c' : Cycle) (eb : EventBroadcaster)
    → ((j : ℕ) → c.lock_free j ≡ false)
    → ((j : ℕ) → c'.reading j ≡ c.reading j)
    → (update c' (update c eb).0).0.published ≡ eb.published
locked_events_lost c c' eb l h =
    repeated_events_quiet c c' eb h
    ∙ (published-update c eb).0
    ∙ locked_scan c 0 eb.robots eb.published l
