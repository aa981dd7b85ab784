-- ===== src/Controllers/Events/Runs.antt =====
-- The interpolation count over many cycles.
use kuka_drivers.Prelude.{
  All, Bool, List, [], ap, arith, inr, length, length-replicate, map, refl, replicate, some, suc,
  true, ℕ, ◌&&◌, ◌+◌, ◌<◌, ◌∙◌, ◌∷◌, ◌≡◌,
}
use kuka_drivers.Core.Modes.{control_started, u32}
use kuka_drivers.Controllers.Events.{
  Cycle, EventBroadcaster, Robot, Scan, all_started, deactivated, next_count, note_event, observe,
  on_activate, scan_robots, set_counts, start_scan, update,
}
use kuka_drivers.Controllers.Events.Count.{CountsOnlyUnderControl, update-CountsOnlyUnderControl}

-- The cycles in their order.
unfoldable pub run : List Cycle → EventBroadcaster → EventBroadcaster
run [] eb = eb
run (c ∷ cs) eb = run cs (update c eb).0

run-CountsOnlyUnderControl :
    (cs : List Cycle) (eb : EventBroadcaster)
    → CountsOnlyUnderControl eb
    → CountsOnlyUnderControl (run cs eb)
unfolding run
run-CountsOnlyUnderControl [] eb h = h
run-CountsOnlyUnderControl (c ∷ cs) eb h =
    run-CountsOnlyUnderControl cs (update c eb).0 (update-CountsOnlyUnderControl c eb h)

-- The same after an activation and any number of cycles.
pub counts_while_started :
    (cs : List Cycle) (eb : EventBroadcaster) → CountsOnlyUnderControl (run cs (on_activate eb).0)
unfolding on_activate
counts_while_started cs eb =
    run-CountsOnlyUnderControl cs
      (record eb { robots = map deactivated eb.robots; interpolation_count = 0 }) (inr refl)

-- Every robot reports CONTROL_STARTED, and every command interface takes its value.
abbrev IsSteady : Cycle → Type 0
IsSteady c = ((i : ℕ) → c.reading i ≡ some control_started) × ((i : ℕ) → c.settable i ≡ true)

-- The same for the first `n` indices.
abbrev pub SteadyFor : ℕ → Cycle → Type 0
SteadyFor n c =
    ((i : ℕ) → i < n → c.reading i ≡ some control_started) × ((i : ℕ) → c.settable i ≡ true)

steady_scan :
    (c : Cycle) (i : ℕ) (rs : List Robot) (s : Scan)
    → SteadyFor (i + length rs) c
    → let (rs', s') = scan_robots c i rs s in (all_started rs' ≡ true) × (s'.count ≡ s.count)
unfolding scan_robots observe note_event
steady_scan c i [] s h = (refl, refl)
steady_scan c i (r ∷ rs) s h =
    let rest : SteadyFor (suc i + length rs) c = (λ j l. h.0 j (omega (arith, l)), h.1) in
    ground (arith, h.0 i (omega arith), steady_scan c (suc i) rs (note_event c i r s) rest)

set_counts_all :
    (c : Cycle) (count i : ℕ) (olds : List ℕ) (all_set : Bool)
    → ((i : ℕ) → c.settable i ≡ true)
    → set_counts c count i olds all_set ≡ (replicate (length olds) count, all_set)
unfolding set_counts
set_counts_all c count i [] all_set h = refl
set_counts_all c count i (old ∷ rest) all_set h =
    ground (arith, h i, set_counts_all c count (suc i) rest (all_set && c.settable i) h)

steady_update :
    (c : Cycle) (eb : EventBroadcaster)
    → SteadyFor (length eb.robots) c
    → let (eb', ok) = update c eb in
      (eb'.interpolation_count ≡ next_count eb.interpolation_count)
      × (eb'.commands ≡ replicate (length eb.commands) (next_count eb.interpolation_count))
      × (ok ≡ true)
unfolding update
steady_update c eb h = ground (
  arith,
  steady_scan c 0 eb.robots (start_scan eb) (λ j l. h.0 j (omega (arith, l)), h.1),
  set_counts_all c (next_count eb.interpolation_count) 0 eb.commands true h.1,
)

next_count-u32 : (n : ℕ) → next_count (u32 n) ≡ u32 (n + 1)
unfolding next_count
next_count-u32 n = ground arith

-- The count is `n` modulo 2^32, and so is each of the `k` command interfaces.
abbrev pub EndsAt : ℕ → ℕ → EventBroadcaster → Type 0
EndsAt n k eb = (eb.interpolation_count ≡ u32 n) × (eb.commands ≡ replicate k (u32 n))

pub steady_step :
    (c : Cycle) (eb : EventBroadcaster) (n : ℕ)
    → SteadyFor (length eb.robots) c
    → eb.interpolation_count ≡ u32 n
    → EndsAt (n + 1) (length eb.commands) (update c eb).0
steady_step c eb n h e =
    let (p, q, _) = steady_update c eb h in
    let f : next_count eb.interpolation_count ≡ u32 (n + 1) = ap next_count e ∙ next_count-u32 n in
    (p ∙ f, q ∙ ap (replicate (length eb.commands)) f)

steady_run :
    (cs : List Cycle) (eb : EventBroadcaster) (n k : ℕ)
    → All IsSteady cs
    → EndsAt n k eb
    → EndsAt (n + length cs) k (run cs eb)
unfolding run
steady_run [] eb n k h e = let z : n + 0 ≡ n = omega arith in rw z e
steady_run (c ∷ cs) eb n k (h, hs) e =
    let l : length eb.commands ≡ k = ap length e.1 ∙ length-replicate k (u32 n) in
    let z : n + suc (length cs) ≡ n + 1 + length cs = omega arith in
    rw z (
      steady_run cs (update c eb).0 (n + 1) k hs
        (rw l at (steady_step c eb n (λ i _. h.0 i, h.1) e.0)))

-- From an activation on, while every robot reports CONTROL_STARTED and every command interface
-- takes its value, k + 1 cycles bring the count and the value of every command interface to k + 1,
-- taken modulo 2^32.
pub steady_count :
    (c : Cycle) (cs : List Cycle) (eb : EventBroadcaster)
    → IsSteady c × All IsSteady cs
    → let eb' = run (c ∷ cs) (on_activate eb).0 in
      (eb'.interpolation_count ≡ u32 (1 + length cs))
      × (eb'.commands ≡ replicate (length eb.commands) (u32 (1 + length cs)))
unfolding run on_activate
steady_count c cs eb (h, hs) =
    let eb₀ : EventBroadcaster = (on_activate eb).0 in
    steady_run cs (update c eb₀).0 1 (length eb.commands) hs
      (steady_step c eb₀ 0 (λ i _. h.0 i, h.1) refl)
