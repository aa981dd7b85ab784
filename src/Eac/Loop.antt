-- ===== src/Eac/Loop.antt =====
-- The control loop of kuka_drivers_core/src/control_node.cpp, with the hardware interfaces of
-- kuka_iiqka_eac_driver and the event broadcaster, which it ties together.
--
-- The controller manager is no code of the repository. It reads the hardware in turn, updates the
-- controllers and writes the hardware; the broadcaster is lent the server states and the
-- interpolation counts of the robots in their order. The hardware interfaces are synchronous: an
-- asynchronous one reads and writes in a thread of its own, which is not modelled. `others` is what the other controllers do to a
-- hardware interface's commands. `none` is a write past the end of a vector.
pub mod Lent
pub mod Steps
pub mod Turns
pub mod Run
use kuka_drivers.Prelude.{
  Bool, List, Option, [], if◌then◌else◌, map, none, not, some, suc, true, zero, ℕ, ◌>>=◌, ◌∷◌,
}
use kuka_drivers.Core.Clock.{Clock}
use kuka_drivers.Controllers.Events.{Cycle, EventBroadcaster, update}
use kuka_drivers.Eac.Hardware.{EacHardware, Robot, read, write}

-- A robot and its hardware interface.
pub record Arm (W Double : Type 0) : Type 0 where
  pub robot : Robot W Double
  pub hw : EacHardware Double

pub record System (W Double : Type 0) : Type 0 where
  pub broadcaster : EventBroadcaster
  pub arms : List (Arm W Double)
  pub world : W

module _ {W Double : Type 0} where
  unfoldable pub read_all : List (Arm W Double) → W → Option (List (Arm W Double) × W)
  read_all [] w = some ([], w)
  read_all (arm ∷ arms) w = do
    (hw, w₁) ← read arm.robot arm.hw w
    (rest, w₂) ← read_all arms w₁
    some (record arm { hw = hw } ∷ rest, w₂)

  -- The server state of the arm at an index.
  unfoldable pub server_states : List (Arm W Double) → ℕ → Option ℕ
  server_states [] i = none
  server_states (arm ∷ arms) zero = some arm.hw.server_state
  server_states (arm ∷ arms) (suc i) = server_states arms i

  -- What the broadcaster meets: `lock_free` says whether its publisher can be had.
  unfoldable pub broadcast_cycle : (ℕ → Bool) → List (Arm W Double) → Cycle
  broadcast_cycle lock_free arms = record {
    reading = server_states arms;
    lock_free = lock_free;
    settable = λ i. true;
  }

  abbrev pub commanded :
      (EacHardware Double → EacHardware Double) → List (Arm W Double) → List (Arm W Double)
  commanded others arms = map (λ (arm : Arm W Double). record arm { hw = others arm.hw }) arms

  module _ (clock : Clock W) where
    -- Every hardware interface is given the count of its own index. What
    -- ros2_control does about a write that does not succeed is not modelled.
    unfoldable pub write_all : List ℕ → List (Arm W Double) → W → Option (List (Arm W Double) × W)
    write_all counts [] w = some ([], w)
    write_all [] (arm ∷ arms) w = none
    write_all (count ∷ counts) (arm ∷ arms) w = do
      (hw, w₁, ok) ← write arm.robot clock (λ _. count) arm.hw w
      (rest, w₂) ← write_all counts arms w₁
      some (record arm { hw = hw } ∷ rest, w₂)

    module _ (others : EacHardware Double → EacHardware Double) where
      -- One turn of the loop, with the period that it sleeps for.
      unfoldable pub loop_turn : ℕ → (ℕ → Bool) → Bool → System W Double → Option (System W Double)
      unfolding read_all write_all
      loop_turn period lock_free is_configured s =
          let idle = (update (broadcast_cycle lock_free s.arms) s.broadcaster).0 in
          if not is_configured
          then some (record {
            broadcaster = idle;
            arms = commanded others s.arms;
            world = clock.sleep period s.world;
          })
          else do
            (arms, w) ← read_all s.arms s.world
            let broadcaster = (update (broadcast_cycle lock_free arms) s.broadcaster).0
            (arms', w') ← write_all broadcaster.commands (commanded others arms) w
            some (record { broadcaster = broadcaster; arms = arms'; world = w' })
