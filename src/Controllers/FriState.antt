-- ===== src/Controllers/FriState.antt =====
-- controllers/fri_state_broadcaster/src/fri_state_broadcaster.cpp: publishes the state of FRI of
-- all robots.
--
-- The controller manager lends nine state interfaces for each prefix, as the interface
-- configuration asks for. `Double` is the type of their values, with the casts of the code.
pub mod Rate
pub mod Shown
pub mod Fleet
use kuka_drivers.Prelude.{
  Bool, List, Option, String, [], if◌then◌else◌, map, none, not, some, suc, ℕ, ◌*◌, ◌+◌, ◌==◌, ◌∷◌,
}
use kuka_drivers.Core.Modes.{CallbackReturn, error, success}
use kuka_drivers.Controllers.Names.{compose_interface_name, each_robot}
use kuka_drivers.Core.Interfaces.{fri_state_names, fri_state_prefix}

-- static_cast<int32_t> of a double, and the conversion of an int32_t to a double. An int32_t is
-- given by its 32-bit pattern.
pub record Casts (Double : Type 0) : Type 0 where
  pub to_int32 : Double → ℕ
  pub of_int32 : ℕ → Double
  pub zero_value : Double

-- kuka_driver_interfaces/msg/FRIState
pub record FriState (Double : Type 0) : Type 0 where
  pub session_state : ℕ
  pub connection_quality : ℕ
  pub safety_state : ℕ
  pub command_mode : ℕ
  pub control_mode : ℕ
  pub operation_mode : ℕ
  pub drive_state : ℕ
  pub overlay_type : ℕ
  pub tracking_performance : Double

pub record FriStateBroadcaster (Double : Type 0) : Type 0 where
  -- params_.robot_prefixes
  pub prefix_params : List String
  pub robot_prefixes : List String
  pub current_states : List (FriState Double)
  -- state_msg_, robot_names and states
  pub state_msg : List String × List (FriState Double)
  pub counter : ℕ
  -- the messages published, the latest first
  pub published : List (List String × List (FriState Double))

-- What one cycle meets outside: the value of each state interface, if there is one, and whether the
-- publisher's lock is free.
pub record FriStateCycle (Double : Type 0) : Type 0 where
  pub reading : ℕ → Option Double
  pub lock_free : Bool

abbrev pub robot_fri_names : String → List String
robot_fri_names prefix =
    map (λ name. compose_interface_name prefix fri_state_prefix name) fri_state_names

module _ {Double : Type 0} where
  unfoldable pub state_interface_names : FriStateBroadcaster Double → List String
  unfolding compose_interface_name
  state_interface_names broadcaster = each_robot robot_fri_names broadcaster.prefix_params

  abbrev pub value_or : Option Double → Double → Double
  value_or none fallback = fallback
  value_or (some v) fallback = v

  unfoldable pub publish_state : Bool → FriStateBroadcaster Double → FriStateBroadcaster Double
  publish_state free broadcaster =
      let message : List String × List (FriState Double) =
        (broadcaster.state_msg.0, broadcaster.current_states) in
      if not (broadcaster.counter == 10)
      then record broadcaster { counter = broadcaster.counter + 1 }
      else if free
      then record broadcaster {
        state_msg = message;
        published = message ∷ broadcaster.published;
        counter = 0;
      }
      else record broadcaster { counter = 0 }

  module _ (casts : Casts Double) where
    open casts use {to_int32, of_int32, zero_value}

    abbrev pub empty_state : FriState Double
    empty_state = record {
      session_state = 0;
      connection_quality = 0;
      safety_state = 0;
      command_mode = 0;
      control_mode = 0;
      operation_mode = 0;
      drive_state = 0;
      overlay_type = 0;
      tracking_performance = zero_value;
    }

    unfoldable pub on_configure :
        FriStateBroadcaster Double → FriStateBroadcaster Double × CallbackReturn
    on_configure broadcaster =
        let states = map (λ _. empty_state) broadcaster.prefix_params in
        let configured = record broadcaster {
          robot_prefixes = broadcaster.prefix_params;
          current_states = states;
          state_msg = (broadcaster.prefix_params, states);
        } in
        elim broadcaster.prefix_params [
          | [] ↦ (broadcaster, error)
          | prefix ∷ prefixes ↦ (configured, success)
        ]

    abbrev pub read_int32 : Option Double → ℕ → ℕ
    read_int32 o fallback = to_int32 (value_or o (of_int32 fallback))

    unfoldable pub assign_state : (ℕ → Option Double) → ℕ → FriState Double → FriState Double
    assign_state reading start state = record {
      session_state = read_int32 (reading (start + 0)) state.session_state;
      connection_quality = read_int32 (reading (start + 1)) state.connection_quality;
      safety_state = read_int32 (reading (start + 2)) state.safety_state;
      command_mode = read_int32 (reading (start + 3)) state.command_mode;
      control_mode = read_int32 (reading (start + 4)) state.control_mode;
      operation_mode = read_int32 (reading (start + 5)) state.operation_mode;
      drive_state = read_int32 (reading (start + 6)) state.drive_state;
      overlay_type = read_int32 (reading (start + 7)) state.overlay_type;
      tracking_performance = value_or (reading (start + 8)) state.tracking_performance;
    }

    -- The loop of `update`, from index `idx` on.
    unfoldable pub assign_states :
        (ℕ → Option Double) → ℕ → List (FriState Double) → List (FriState Double)
    assign_states reading idx [] = []
    assign_states reading idx (state ∷ states) =
        assign_state reading (idx * 9) state ∷ assign_states reading (suc idx) states

    -- The result is always return_type::OK.
    unfoldable pub update :
        FriStateCycle Double → FriStateBroadcaster Double → FriStateBroadcaster Double
    update c broadcaster = publish_state c.lock_free (record broadcaster {
      current_states = assign_states c.reading 0 broadcaster.current_states;
    })
