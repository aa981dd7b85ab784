-- ===== src/Controllers/Events/Count.antt =====
-- The interpolation count of one cycle.
use kuka_drivers.Prelude.{
  Bool, List, [], arith, false, if◌then◌else◌, refl, suc, true, ℕ, ◌||◌, ◌∷◌, ◌≡◌, ◌⊎◌,
}
use kuka_drivers.Controllers.Events.{
  Cycle, EventBroadcaster, Robot, Scan, all_started, current_event, is_stop, next_count, note_event,
  observe, scan_robots, start_scan, update,
}

-- Some robot reports that control was stopped or failed.
abbrev any_stop : Cycle → ℕ → List Robot → Bool
any_stop c i [] = false
any_stop c i (r ∷ rs) = is_stop (current_event c i r) || any_stop c (suc i) rs

scan_count :
    (c : Cycle) (i : ℕ) (rs : List Robot) (s : Scan)
    → let s' = (scan_robots c i rs s).1 in
      (s'.count ≡ (if any_stop c i rs then 0 else s.count))
      × (s'.reset_count ≡ any_stop c i rs || s.reset_count)
unfolding scan_robots note_event
scan_count c i [] s = (refl, refl)
scan_count c i (r ∷ rs) s = ground (arith, scan_count c (suc i) rs (note_event c i r s))

-- A cycle in which some robot stops is no cycle in which all are under control.
stop_not_started :
    (c : Cycle) (i : ℕ) (rs : List Robot) (s : Scan)
    → any_stop c i rs ≡ true
    → all_started (scan_robots c i rs s).0 ≡ false
unfolding scan_robots observe
stop_not_started c i [] s h = cc
stop_not_started c i (r ∷ rs) s h =
    ground (arith, stop_not_started c (suc i) rs (note_event c i r s))

-- Control is lost by a stop alone.
started_stays :
    (c : Cycle) (i : ℕ) (rs : List Robot) (s : Scan)
    → any_stop c i rs ≡ false
    → all_started rs ≡ true
    → all_started (scan_robots c i rs s).0 ≡ true
unfolding scan_robots observe
started_stays c i [] s h a = refl
started_stays c i (r ∷ rs) s h a = ground (arith, started_stays c (suc i) rs (note_event c i r s))

-- One cycle: the count goes up by one, wrapping at 32 bits, if then all robots are under control;
-- otherwise it is set to 0 if some robot stopped; otherwise it is kept.
update_count :
    (c : Cycle) (eb : EventBroadcaster)
    → let (eb', ok) = update c eb in
      eb'.interpolation_count ≡ (
        if all_started eb'.robots
        then next_count eb.interpolation_count
        else if any_stop c 0 eb.robots
        then 0
        else eb.interpolation_count)
unfolding update
update_count c eb =
    let s : Scan = start_scan eb in
    ground (arith, scan_count c 0 eb.robots s, stop_not_started c 0 eb.robots s)

pub update-robots :
    (c : Cycle) (eb : EventBroadcaster)
    → (update c eb).0.robots ≡ (scan_robots c 0 eb.robots (start_scan eb)).0
unfolding update
update-robots c eb = ground arith

-- The count is 0 unless every robot is under control.
abbrev pub CountsOnlyUnderControl : EventBroadcaster → Type 0
CountsOnlyUnderControl eb = (all_started eb.robots ≡ true) ⊎ (eb.interpolation_count ≡ 0)

pub update-CountsOnlyUnderControl :
    (c : Cycle) (eb : EventBroadcaster)
    → CountsOnlyUnderControl eb
    → CountsOnlyUnderControl (update c eb).0
unfolding update
update-CountsOnlyUnderControl c eb h =
    let s : Scan = start_scan eb in
    ground (
      arith,
      scan_count c 0 eb.robots s,
      stop_not_started c 0 eb.robots s,
      started_stays c 0 eb.robots s,
    )
