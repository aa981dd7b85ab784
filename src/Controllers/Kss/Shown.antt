-- ===== src/Controllers/Kss/Shown.antt =====
-- The status handler together with the hardware interfaces of the robots: what it reads is what
-- they export.
use kuka_drivers.Prelude.{
  All, List, Option, Option-cases, String, [], ap, arith, get_elem?, inl, inr, length, map, refl,
  some, suc, ℕ, ◌*◌, ◌++◌, ◌+◌, ◌∙◌, ◌∷◌, ◌≡◌,
}
use kuka_drivers.Core.Modes.{u8}
use kuka_drivers.Core.Interfaces.{Exported, integer, kss_state_names, state_prefix}
use kuka_drivers.Controllers.Names.{compose_interface_name, each_robot}
use kuka_drivers.Controllers.Lending.{
  In, In-append_right, Lends, compose_full_name, get_elem?-map, interface_prefix_of, Lends-first,
  Lends-rest,
}
use kuka_drivers.Controllers.Kss.{KssStatus, assign_status, assign_statuses, robot_state_names}
use kuka_drivers.Rsi.Status.{StatusInterfaces, as_flag}
use kuka_drivers.Rsi.Base.{RsiHardware}
use kuka_drivers.Rsi.Exports.{
  Described, export_base_states, export_state_interfaces, register_state_interfaces,
}
use Prim.Native.String.{◌++◌ as append}

-- The message that stands for a status.
abbrev pub shown : StatusInterfaces → KssStatus
shown status = record {
  control_mode = u8 status.control_mode;
  cycle_time = u8 status.cycle_time;
  operation_mode = u8 status.operation_mode;
  drives_powered = as_flag status.drives_powered;
  emergency_stop = as_flag status.emergency_stop;
  guard_stop = as_flag status.guard_stop;
  in_motion = as_flag status.in_motion;
  motion_possible = as_flag status.motion_possible;
  robot_stopped = as_flag status.robot_stopped;
}

-- A robot: its prefix, its hardware, and what that exports.
pub record Member (Double : Type 0) : Type 0 where
  pub robot_prefix : String
  pub described : Described
  pub hw : RsiHardware Double
  pub exports : List (Exported Double)

module _ {Double : Type 0} where
  abbrev pub IsMember : Member Double → Type 0
  IsMember m =
      (m.described.interface_prefix ≡ interface_prefix_of m.robot_prefix)
      × (export_state_interfaces m.described m.hw ≡ some m.exports)

  abbrev pub all_exports : List (Member Double) → List (Exported Double)
  all_exports [] = []
  all_exports (m ∷ ms) = m.exports ++ all_exports ms

  abbrev pub Lent : (ℕ → Option ℕ) → List (Member Double) → Type 0
  Lent reading ms =
      Lends {Double = Double} integer reading
        (each_robot robot_state_names (map (λ m. m.robot_prefix) ms)) (all_exports ms)

  -- The status that a hardware interface exports is among its state interfaces.
  status_exported :
      (described : Described) (hw : RsiHardware Double) (exports : List (Exported Double))
      (e : Exported Double)
      → export_state_interfaces described hw ≡ some exports
      → In e (register_state_interfaces hw.status described.interface_prefix)
      → In e exports
  unfolding export_state_interfaces
  status_exported described hw exports e h i =
      elim (Option-cases (export_base_states described hw)) [
        | inl e' ↦ cc (rw e' at h)
        | inr (base, e') ↦
            let status = register_state_interfaces hw.status described.interface_prefix in
            let q : base ++ status ≡ exports = cc (rw e' at h) in
            rw q at (In-append_right e base status i)
      ]

  module _ (reading : ℕ → Option ℕ) (m : Member Double) (member : IsMember m)
      (lends : Lends {Double = Double} integer reading
        (robot_state_names m.robot_prefix)
        m.exports) where
    reads :
        (k : ℕ) (name : String) (v : ℕ)
        → get_elem? kss_state_names k ≡ some name
        → In
            (append m.described.interface_prefix state_prefix, name, integer v)
            (register_state_interfaces {Double = Double} m.hw.status m.described.interface_prefix)
        → reading k ≡ some v
    reads k name v asked i =
        let named = compose_full_name m.robot_prefix state_prefix name in
        lends k (append m.described.interface_prefix state_prefix) name v
          (get_elem?-map (λ n. compose_interface_name m.robot_prefix state_prefix n) kss_state_names
              k name asked
            ∙ ap some (rw member.0 named))
          (status_exported m.described m.hw m.exports _ member.1 i)

  assign_status-shown :
      (reading : ℕ → Option ℕ) (start : ℕ) (m : Member Double) (status : KssStatus)
      → IsMember m
      → Lends {Double = Double} integer
          (λ i. reading (start + i))
          (robot_state_names m.robot_prefix)
          m.exports
      → assign_status reading start status ≡ shown m.hw.status
  unfolding assign_status register_state_interfaces
  assign_status-shown reading start m status member lends =
      let r = reads (λ i. reading (start + i)) m member lends in
      let s = m.hw.status in
      ground (
        arith,
        r 0 _ s.control_mode refl (inl refl),
        r 1 _ s.cycle_time refl (inr (inl refl)),
        r 2 _ s.drives_powered refl (inr (inr (inl refl))),
        r 3 _ s.emergency_stop refl (inr (inr (inr (inl refl)))),
        r 4 _ s.guard_stop refl (inr (inr (inr (inr (inl refl))))),
        r 5 _ s.in_motion refl (inr (inr (inr (inr (inr (inl refl)))))),
        r 6 _ s.motion_possible refl (inr (inr (inr (inr (inr (inr (inl refl))))))),
        r 7 _ s.operation_mode refl (inr (inr (inr (inr (inr (inr (inr (inl refl)))))))),
        r 8 _ s.robot_stopped refl (inr (inr (inr (inr (inr (inr (inr (inr (inl refl))))))))),
      )

  -- The readings from index `idx * 9` on are those of the robots that are left.
  pub assign_statuses-shown :
      (reading : ℕ → Option ℕ) (idx : ℕ) (ms : List (Member Double)) (statuses : List KssStatus)
      → All IsMember ms
      → length statuses ≡ length ms
      → Lent (λ i. reading (idx * 9 + i)) ms
      → assign_statuses reading idx statuses ≡ map (λ m. shown m.hw.status) ms
  unfolding assign_statuses
  assign_statuses-shown reading idx [] [] members l lends = refl
  assign_statuses-shown reading idx [] (s ∷ ss) members l lends = absurd (omega (arith, l))
  assign_statuses-shown reading idx (m ∷ ms) [] members l lends = absurd (omega (arith, l))
  assign_statuses-shown reading idx (m ∷ ms) (s ∷ ss) (member, members) l lends =
      let names = robot_state_names m.robot_prefix in
      let more = each_robot robot_state_names (map (λ m. m.robot_prefix) ms) in
      let shifted = λ (i : ℕ). reading (idx * 9 + i) in
      let first = Lends-first integer shifted names more m.exports (all_exports ms) lends in
      let rest = Lends-rest integer shifted names more m.exports (all_exports ms) lends in
      let same = assign_status-shown reading (idx * 9) m s member first in
      let next : Lent (λ i. reading (suc idx * 9 + i)) ms = λ i g n v a h.
        let z : suc idx * 9 + i ≡ idx * 9 + (9 + i) = omega arith in rw z (rest i g n v a h) in
      let others = assign_statuses-shown reading (suc idx) ms ss members (omega (arith, l)) next in
      cc (same, others)
