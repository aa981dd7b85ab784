-- ===== src/Controllers/Kss.antt =====
-- controllers/kuka_kss_message_handler/src/kuka_kss_message_handler.cpp: publishes the status of
-- the KUKA controllers of all robots, and hands on the cycle time that RSI is to have.
--
-- The controller manager lends one command interface and nine state interfaces for each prefix, as
-- the interface configurations ask for. Their values are doubles made of integers, and here they
-- are those integers.
pub mod Rate
pub mod Shown
pub mod Fleet
pub mod CycleTimes
use kuka_drivers.Prelude.{
  Bool, List, Option, String, [], false, if◌then◌else◌, leb, map, none, not, some, suc, true, ℕ,
  ◌&&◌, ◌*◌, ◌+◌, ◌==◌, ◌||◌, ◌∷◌,
}
use kuka_drivers.Core.Modes.{CallbackReturn, error, success, u8}
use kuka_drivers.Rsi.Status.{as_flag}
use kuka_drivers.Controllers.Names.{compose_interface_name, each_robot}
use kuka_drivers.Core.Interfaces.{config_prefix, cycle_time_name, kss_state_names, state_prefix}

-- kuka_driver_interfaces/msg/KssStatus
pub record KssStatus : Type 0 where
  pub control_mode : ℕ
  pub cycle_time : ℕ
  pub operation_mode : ℕ
  pub drives_powered : Bool
  pub emergency_stop : Bool
  pub guard_stop : Bool
  pub in_motion : Bool
  pub motion_possible : Bool
  pub robot_stopped : Bool

abbrev pub empty_status : KssStatus
empty_status = record {
  control_mode = 0;
  cycle_time = 0;
  operation_mode = 0;
  drives_powered = false;
  emergency_stop = false;
  guard_stop = false;
  in_motion = false;
  motion_possible = false;
  robot_stopped = false;
}

abbrev pub rsi_4ms : ℕ
rsi_4ms = 1

abbrev pub rsi_12ms : ℕ
rsi_12ms = 2

pub record KssMessageHandler : Type 0 where
  -- params_.robot_prefixes
  pub prefix_params : List String
  pub robot_prefixes : List String
  pub current_statuses : List KssStatus
  -- status_msg_, robot_names and statuses
  pub status_msg : List String × List KssStatus
  pub status_publish_counter : ℕ
  pub cycle_time : ℕ
  -- the messages published, the latest first
  pub published : List (List String × List KssStatus)
  -- the values of the command interfaces
  pub commands : List ℕ

unfoldable pub command_interface_names : KssMessageHandler → List String
unfolding compose_interface_name
command_interface_names handler =
    each_robot (λ p. compose_interface_name p config_prefix cycle_time_name ∷ [])
      handler.prefix_params

abbrev pub robot_state_names : String → List String
robot_state_names prefix =
    map (λ name. compose_interface_name prefix state_prefix name) kss_state_names

unfoldable pub state_interface_names : KssMessageHandler → List String
unfolding compose_interface_name
state_interface_names handler = each_robot robot_state_names handler.prefix_params

unfoldable pub on_configure : KssMessageHandler → KssMessageHandler × CallbackReturn
on_configure handler =
    let statuses = map (λ _. empty_status) handler.prefix_params in
    let configured = record handler {
      robot_prefixes = handler.prefix_params;
      current_statuses = statuses;
      status_msg = (handler.prefix_params, statuses);
      status_publish_counter = 0;
      cycle_time = rsi_4ms;
    } in
    elim handler.prefix_params [ [] ↦ (handler, error) | prefix ∷ prefixes ↦ (configured, success) ]

-- The message is a uint8.
unfoldable pub rsi_cycle_time_changed : ℕ → KssMessageHandler → KssMessageHandler
rsi_cycle_time_changed data_ handler =
    if data_ == rsi_4ms || data_ == rsi_12ms then record handler { cycle_time = data_ } else handler

-- What one cycle meets outside: the value of each state interface, if there is one; whether the
-- publisher's lock is free; and whether each command interface takes a value.
pub record KssCycle : Type 0 where
  pub reading : ℕ → Option ℕ
  pub lock_free : Bool
  pub settable : ℕ → Bool

abbrev pub read_uint8 : Option ℕ → ℕ → ℕ
read_uint8 none fallback = u8 fallback
read_uint8 (some v) fallback = u8 v

abbrev pub read_bool : Option ℕ → Bool → Bool
read_bool none fallback = fallback
read_bool (some v) fallback = as_flag v

unfoldable pub assign_status : (ℕ → Option ℕ) → ℕ → KssStatus → KssStatus
assign_status reading start status = record {
  control_mode = read_uint8 (reading (start + 0)) status.control_mode;
  cycle_time = read_uint8 (reading (start + 1)) status.cycle_time;
  operation_mode = read_uint8 (reading (start + 7)) status.operation_mode;
  drives_powered = read_bool (reading (start + 2)) status.drives_powered;
  emergency_stop = read_bool (reading (start + 3)) status.emergency_stop;
  guard_stop = read_bool (reading (start + 4)) status.guard_stop;
  in_motion = read_bool (reading (start + 5)) status.in_motion;
  motion_possible = read_bool (reading (start + 6)) status.motion_possible;
  robot_stopped = read_bool (reading (start + 8)) status.robot_stopped;
}

-- The second loop of `update`, from index `idx` on.
unfoldable pub assign_statuses : (ℕ → Option ℕ) → ℕ → List KssStatus → List KssStatus
assign_statuses reading idx [] = []
assign_statuses reading idx (status ∷ statuses) =
    assign_status reading (idx * 9) status ∷ assign_statuses reading (suc idx) statuses

-- The first loop: `set_value` at each command interface, and whether all of them took the value.
unfoldable pub set_all : (ℕ → Bool) → ℕ → ℕ → List ℕ → Bool → List ℕ × Bool
set_all settable value idx [] ok = ([], ok)
set_all settable value idx (old ∷ rest) ok =
    let (rest', ok') = set_all settable value (suc idx) rest (ok && settable idx) in
    ((if settable idx then value else old) ∷ rest', ok')

abbrev pub status_publish_tick_count : ℕ
status_publish_tick_count = 50

unfoldable pub publish_status : Bool → KssMessageHandler → KssMessageHandler
publish_status free handler =
    let counter = handler.status_publish_counter + 1 in
    let message : List String × List KssStatus = (handler.status_msg.0, handler.current_statuses) in
    if not (leb status_publish_tick_count counter)
    then record handler { status_publish_counter = counter }
    else if free
    then record handler {
      status_msg = message;
      published = message ∷ handler.published;
      status_publish_counter = 0;
    }
    else record handler { status_publish_counter = 0 }

-- `true` is return_type::OK.
unfoldable pub update : KssCycle → KssMessageHandler → KssMessageHandler × Bool
update c handler =
    let (commands', ok) = set_all c.settable handler.cycle_time 0 handler.commands true in
    let handler' = record handler {
      commands = commands';
      current_statuses = assign_statuses c.reading 0 handler.current_statuses;
    } in
    (publish_status c.lock_free handler', ok)
