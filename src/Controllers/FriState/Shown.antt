-- ===== src/Controllers/FriState/Shown.antt =====
-- The broadcaster of the state of FRI together with the hardware interfaces of the robots.
use kuka_drivers.Prelude.{
  All, List, Option, Option-cases, String, [], ap, arith, get_elem?, inl, inr, length, map, refl,
  some, subst, suc, ℕ, ◌*◌, ◌++◌, ◌+◌, ◌∙◌, ◌∷◌, ◌≡◌,
}
use kuka_drivers.Core.Interfaces.{
  Exported, fri_state_names, fri_state_prefix, integer, real, server_state_name, state_prefix,
}
use kuka_drivers.Controllers.Names.{compose_interface_name, each_robot}
use kuka_drivers.Controllers.Lending.{
  In, In-append_left, Lends, compose_full_name, get_elem?-map, interface_prefix_of, Lends-first,
  Lends-rest,
}
use kuka_drivers.Controllers.FriState.{
  Casts, FriState, assign_state, assign_states, robot_fri_names,
}
use kuka_drivers.Fri.Client.{FriHardware, RobotState}
use kuka_drivers.Fri.Exports.{
  Described, export_gpio, export_joint_states, export_robot_state, export_state_interfaces,
}
use Prim.Native.String.{◌++◌ as append}

-- A robot: its prefix, its hardware, and what that exports.
pub record FriMember (Double : Type 0) : Type 0 where
  pub robot_prefix : String
  pub described : Described
  pub hw : FriHardware Double
  pub exports : List (Exported Double)

module _ {Double : Type 0} where
  abbrev pub IsFriMember : FriMember Double → Type 0
  IsFriMember m =
      (m.described.interface_prefix ≡ interface_prefix_of m.robot_prefix)
      × (export_state_interfaces m.described m.hw ≡ some m.exports)

  abbrev pub fri_exports : List (FriMember Double) → List (Exported Double)
  fri_exports [] = []
  fri_exports (m ∷ ms) = m.exports ++ fri_exports ms

  abbrev pub FriLent : (ℕ → Option Double) → List (FriMember Double) → Type 0
  FriLent reading ms =
      Lends {Double = Double} real reading
        (each_robot robot_fri_names (map (λ m. m.robot_prefix) ms)) (fri_exports ms)

  robot_state_exported :
      (described : Described) (hw : FriHardware Double) (exports : List (Exported Double))
      (e : Exported Double)
      → export_state_interfaces described hw ≡ some exports
      → In e (export_robot_state described.interface_prefix hw.robot_state)
      → In e exports
  unfolding export_state_interfaces
  robot_state_exported described hw exports e h i =
      elim (Option-cases (export_joint_states hw 0 described.joint_names)) [
        | inl e' ↦ cc (rw e' at h)
        | inr (joints, e') ↦
            let state = export_robot_state described.interface_prefix hw.robot_state in
            let server : Exported Double = (
              append described.interface_prefix state_prefix,
              server_state_name,
              integer hw.server_state,
            ) in
            let rest = map export_gpio hw.gpio_outputs ++ (joints ++ server ∷ []) in
            let q : state ++ rest ≡ exports = cc (rw e' at h) in
            subst (In e) q (In-append_left e state rest i)
      ]

  module _ (reading : ℕ → Option Double) (m : FriMember Double) (member : IsFriMember m)
      (lends : Lends {Double = Double} real reading
        (robot_fri_names m.robot_prefix)
        m.exports) where
    reads :
        (k : ℕ) (name : String) (v : Double)
        → get_elem? fri_state_names k ≡ some name
        → In
            (append m.described.interface_prefix fri_state_prefix, name, real v)
            (export_robot_state m.described.interface_prefix m.hw.robot_state)
        → reading k ≡ some v
    reads k name v asked i =
        let named = compose_full_name m.robot_prefix fri_state_prefix name in
        lends k (append m.described.interface_prefix fri_state_prefix) name v
          (get_elem?-map (λ n. compose_interface_name m.robot_prefix fri_state_prefix n)
              fri_state_names k name asked
            ∙ ap some (rw member.0 named))
          (robot_state_exported m.described m.hw m.exports _ member.1 i)

module _ {Double : Type 0} (casts : Casts Double) where
  -- The message that stands for a state.
  abbrev pub shown : RobotState Double → FriState Double
  shown state = record {
    session_state = casts.to_int32 state.session_state;
    connection_quality = casts.to_int32 state.connection_quality;
    safety_state = casts.to_int32 state.safety_state;
    command_mode = casts.to_int32 state.command_mode;
    control_mode = casts.to_int32 state.control_mode;
    operation_mode = casts.to_int32 state.operation_mode;
    drive_state = casts.to_int32 state.drive_state;
    overlay_type = casts.to_int32 state.overlay_type;
    tracking_performance = state.tracking_performance;
  }

  assign_state-shown :
      (reading : ℕ → Option Double) (start : ℕ) (m : FriMember Double) (state : FriState Double)
      → IsFriMember m
      → Lends {Double = Double} real
          (λ i. reading (start + i))
          (robot_fri_names m.robot_prefix)
          m.exports
      → assign_state casts reading start state ≡ shown m.hw.robot_state
  unfolding assign_state export_robot_state
  assign_state-shown reading start m state member lends =
      let r = reads (λ i. reading (start + i)) m member lends in
      let s = m.hw.robot_state in
      ground (
        arith,
        r 0 _ s.session_state refl (inl refl),
        r 1 _ s.connection_quality refl (inr (inl refl)),
        r 2 _ s.safety_state refl (inr (inr (inl refl))),
        r 3 _ s.command_mode refl (inr (inr (inr (inl refl)))),
        r 4 _ s.control_mode refl (inr (inr (inr (inr (inl refl))))),
        r 5 _ s.operation_mode refl (inr (inr (inr (inr (inr (inl refl)))))),
        r 6 _ s.drive_state refl (inr (inr (inr (inr (inr (inr (inl refl))))))),
        r 7 _ s.overlay_type refl (inr (inr (inr (inr (inr (inr (inr (inl refl)))))))),
        r 8 _ s.tracking_performance refl
            (inr (inr (inr (inr (inr (inr (inr (inr (inl refl))))))))),
      )

  -- The readings from index `idx * 9` on are those of the robots that are left.
  pub assign_states-shown :
      (reading : ℕ → Option Double) (idx : ℕ) (ms : List (FriMember Double))
      (states : List (FriState Double))
      → All IsFriMember ms
      → length states ≡ length ms
      → FriLent (λ i. reading (idx * 9 + i)) ms
      → assign_states casts reading idx states ≡ map (λ m. shown m.hw.robot_state) ms
  unfolding assign_states
  assign_states-shown reading idx [] [] members l lends = refl
  assign_states-shown reading idx [] (s ∷ ss) members l lends = absurd (omega (arith, l))
  assign_states-shown reading idx (m ∷ ms) [] members l lends = absurd (omega (arith, l))
  assign_states-shown reading idx (m ∷ ms) (s ∷ ss) (member, members) l lends =
      let names = robot_fri_names m.robot_prefix in
      let more = each_robot robot_fri_names (map (λ m. m.robot_prefix) ms) in
      let shifted = λ (i : ℕ). reading (idx * 9 + i) in
      let first = Lends-first real shifted names more m.exports (fri_exports ms) lends in
      let rest = Lends-rest real shifted names more m.exports (fri_exports ms) lends in
      let same = assign_state-shown reading (idx * 9) m s member first in
      let next : FriLent (λ i. reading (suc idx * 9 + i)) ms = λ i g n v a h.
        let z : suc idx * 9 + i ≡ idx * 9 + (9 + i) = omega arith in rw z (rest i g n v a h) in
      let others = assign_states-shown reading (suc idx) ms ss members (omega (arith, l)) next in
      cc (same, others)
