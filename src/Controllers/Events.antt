-- ===== src/Controllers/Events.antt =====
-- controllers/kuka_event_broadcaster/src/kuka_event_broadcaster.cpp: publishes the hardware events
-- of the robots, and counts the interpolation cycles while all of them are under control.
--
-- A `Robot` holds the entries of one index of event_robot_prefixes_, last_events_ and
-- control_active_, which `on_configure` gives one length. The controller manager lends one state
-- and one command interface for each prefix, as the interface configurations ask for.
pub mod Count
pub mod Runs
pub mod Held
pub mod Messages
use kuka_drivers.Prelude.{
  Bool, List, Option, String, [], all, false, if◌then◌else◌, map, none, not, some, suc, true, ℕ,
  ◌&&◌, ◌+◌, ◌==◌, ◌||◌, ◌∷◌,
}
use kuka_drivers.Controllers.Names.{compose_interface_name, each_robot}
use kuka_drivers.Core.Interfaces.{
  config_prefix, interpolation_count_name, server_state_name, state_prefix,
}
use kuka_drivers.Core.Modes.{
  CallbackReturn, control_started, control_stopped, error, error_event, success, u32_max, u8,
}

pub record Robot : Type 0 where
  pub name : String
  pub last_event : ℕ
  pub control_active : Bool

pub record EventBroadcaster : Type 0 where
  -- params_.robot_prefixes
  pub robot_prefixes : List String
  pub robots : List Robot
  pub interpolation_count : ℕ
  -- the messages published, the latest first
  pub published : List (String × ℕ)
  -- the values of the command interfaces
  pub commands : List ℕ

unfoldable pub command_interface_names : EventBroadcaster → List String
unfolding compose_interface_name
command_interface_names eb =
    each_robot (λ p. compose_interface_name p config_prefix interpolation_count_name ∷ [])
      eb.robot_prefixes

abbrev pub event_names : String → List String
event_names prefix = compose_interface_name prefix state_prefix server_state_name ∷ []

unfoldable pub state_interface_names : EventBroadcaster → List String
unfolding compose_interface_name
state_interface_names eb = each_robot event_names eb.robot_prefixes

abbrev fresh_robot : String → Robot
fresh_robot name = record { name = name; last_event = 0; control_active = false }

unfoldable pub on_configure : EventBroadcaster → EventBroadcaster × CallbackReturn
on_configure eb =
    let configured = record eb {
      robots = map fresh_robot eb.robot_prefixes;
      interpolation_count = 0;
    } in
    elim eb.robot_prefixes [ [] ↦ (eb, error) | prefix ∷ prefixes ↦ (configured, success) ]

abbrev pub deactivated : Robot → Robot
deactivated r = record r { control_active = false }

unfoldable pub on_activate : EventBroadcaster → EventBroadcaster × CallbackReturn
on_activate eb =
    (record eb { robots = map deactivated eb.robots; interpolation_count = 0 }, success)

abbrev pub is_stop : ℕ → Bool
is_stop event = event == control_stopped || event == error_event

-- What one cycle meets outside: the value of each state interface, if there is one; whether the
-- publisher's lock is free; and whether each command interface takes a value.
pub record Cycle : Type 0 where
  pub reading : ℕ → Option ℕ
  pub lock_free : ℕ → Bool
  pub settable : ℕ → Bool

abbrev pub value_or : Option ℕ → ℕ → ℕ
value_or none d = d
value_or (some v) d = v

abbrev pub current_event : Cycle → ℕ → Robot → ℕ
current_event c i r = u8 (value_or (c.reading i) r.last_event)

abbrev next_active : ℕ → Bool → Bool
next_active event before =
    if event == control_started then true else if is_stop event then false else before

unfoldable pub observe : Cycle → ℕ → Robot → Robot
observe c i r =
    let event = current_event c i r in
    record r { last_event = event; control_active = next_active event r.control_active }

-- What the first loop of `update` changes besides the robots.
pub record Scan : Type 0 where
  pub count : ℕ
  pub reset_count : Bool
  pub messages : List (String × ℕ)

unfoldable pub note_event : Cycle → ℕ → Robot → Scan → Scan
note_event c i r s =
    let event = current_event c i r in
    let stops = not (event == control_started) && is_stop event in
    record {
      count = if stops then 0 else s.count;
      reset_count = if stops then true else s.reset_count;
      messages =
          if not (event == r.last_event) && c.lock_free i
          then (r.name, event) ∷ s.messages
          else s.messages;
    }

-- The first loop of `update`, from index `i` on.
unfoldable pub scan_robots : Cycle → ℕ → List Robot → Scan → List Robot × Scan
scan_robots c i [] s = ([], s)
scan_robots c i (r ∷ rs) s =
    let (rs', s') = scan_robots c (suc i) rs (note_event c i r s) in (observe c i r ∷ rs', s')

unfoldable pub next_count : ℕ → ℕ
next_count count = if count == u32_max then 0 else count + 1

-- The loop over the command interfaces: `set_value`, and whether all of them took the value.
unfoldable pub set_counts : Cycle → ℕ → ℕ → List ℕ → Bool → List ℕ × Bool
set_counts c count i [] all_set = ([], all_set)
set_counts c count i (old ∷ rest) all_set =
    let (rest', ok) = set_counts c count (suc i) rest (all_set && c.settable i) in
    ((if c.settable i then count else old) ∷ rest', ok)

abbrev pub all_started : List Robot → Bool
all_started = all (λ r. r.control_active)

abbrev pub start_scan : EventBroadcaster → Scan
start_scan eb = record {
  count = eb.interpolation_count;
  reset_count = false;
  messages = eb.published;
}

-- `true` is return_type::OK.
unfoldable pub update : Cycle → EventBroadcaster → EventBroadcaster × Bool
update c eb =
    let (robots', s) = scan_robots c 0 eb.robots (start_scan eb) in
    let count' = if all_started robots' then next_count s.count else s.count in
    let eb' = record eb {
      robots = robots';
      interpolation_count = count';
      published = s.messages;
    } in
    let (commands', ok) = set_counts c count' 0 eb.commands true in
    if all_started robots' || s.reset_count
    then (record eb' { commands = commands' }, ok)
    else (eb', true)
