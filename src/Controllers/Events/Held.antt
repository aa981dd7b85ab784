-- ===== src/Controllers/Events/Held.antt =====
-- What the interpolation count says of the events that the robots have reported.
use kuka_drivers.Prelude.{All, List, [], ℕ, ◌++◌, ◌∷◌, ◌≡◌, ◌≢◌}
use kuka_drivers.Core.Modes.{control_started, control_stopped, error_event, u8}
use kuka_drivers.Controllers.Events.{Cycle, Robot, observe, value_or}

-- The events that the state interface `i` reports in the cycles, in their order. Where there is no
-- value it is the event before, which is `last` at first.
abbrev pub reported : List Cycle → ℕ → ℕ → List ℕ
reported [] i last = []
reported (c ∷ cs) i last =
    let event = u8 (value_or (c.reading i) last) in event ∷ reported cs i event

abbrev pub NoStop : List ℕ → Type 0
NoStop = All (λ (event : ℕ). (event ≢ control_stopped) × (event ≢ error_event))

-- Control was started, and neither a stop nor an error came after that.
abbrev pub InControl : List ℕ → Type 0
InControl events =
    (before : List ℕ) × (after : List ℕ) × (events ≡ before ++ control_started ∷ after)
    × NoStop after

-- A robot over the cycles.
watch : List Cycle → ℕ → Robot → Robot
watch [] i r = r
watch (c ∷ cs) i r = watch cs i (observe c i r)
