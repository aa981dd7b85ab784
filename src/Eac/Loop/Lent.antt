-- ===== src/Eac/Loop/Lent.antt =====
-- The event broadcaster together with the hardware interfaces of the robots: what the control loop
-- takes it to read is what they export.
use kuka_drivers.Prelude.{
  All, Bool, List, Option, Option-cases, String, [], ap, arith, inl, inr, length, map, refl, some,
  suc, true, zero, ℕ, ◌++◌, ◌+◌, ◌<◌, ◌>>=◌, ◌∙◌, ◌∷◌, ◌≡◌,
}
use kuka_drivers.Core.Interfaces.{Exported, integer, server_state_name, state_prefix}
use kuka_drivers.Controllers.Names.{each_robot}
use kuka_drivers.Controllers.Lending.{
  In, In-append_left, In-append_right, Lends, Lends-rest, compose_full_name, interface_prefix_of,
}
use kuka_drivers.Controllers.Events.{
  Cycle, EventBroadcaster, Robot, Scan, event_names, note_event, observe, scan_robots, set_counts,
  start_scan, state_interface_names, update,
}
use kuka_drivers.Controllers.Events.Count.{update-robots}
use kuka_drivers.Core.Modes.{u8}
use kuka_drivers.Eac.Exports.{Described, export_joint_states, export_state_interfaces}
use kuka_drivers.Eac.Loop.{Arm, broadcast_cycle, server_states}
use Prim.Native.String.{◌++◌ as append}

-- The cycle that reads through the lent interfaces.
abbrev pub lent_cycle : (ℕ → Option ℕ) → (ℕ → Bool) → Cycle
lent_cycle reading lock_free = record {
  reading = reading;
  lock_free = lock_free;
  settable = λ i. true;
}

-- Two cycles with the same locks scan robots alike if they read the same for each.
scan_robots-lent_cycle :
    (first second : ℕ → Option ℕ) (lock_free : ℕ → Bool) (i : ℕ) (rs : List Robot) (s : Scan)
    → ((j : ℕ) → j < length rs → first (i + j) ≡ second (i + j))
    → scan_robots (lent_cycle first lock_free) i rs s
      ≡ scan_robots (lent_cycle second lock_free) i rs s
unfolding scan_robots observe note_event
scan_robots-lent_cycle first second lock_free i [] s same = refl
scan_robots-lent_cycle first second lock_free i (r ∷ rs) s same =
    let z : i + 0 ≡ i = omega arith in
    let here : first i ≡ second i = rw z at (same 0 (omega arith)) in
    let later = λ (s' : Scan). scan_robots-lent_cycle first second lock_free (suc i) rs s' (λ j l.
      let e : suc i + j ≡ i + suc j = omega arith in rw e (same (suc j) (omega (arith, l)))) in
    let event_noted = note_event (lent_cycle second lock_free) i r s in
    rw here (
      ap (λ (x : List Robot × Scan). (observe (lent_cycle second lock_free) i r ∷ x.0, x.1))
        (later event_noted))

-- A robot: its prefix, its arm in the control loop, and what its hardware interface exports.
pub record Watched (W Double : Type 0) : Type 0 where
  pub robot_prefix : String
  pub described : Described
  pub arm : Arm W Double
  pub exports : List (Exported Double)

module _ {W Double : Type 0} where
  abbrev pub IsWatched : Watched W Double → Type 0
  IsWatched m =
      (m.described.interface_prefix ≡ interface_prefix_of m.robot_prefix)
      × (export_state_interfaces m.described m.arm.hw ≡ some m.exports)

  abbrev pub watched_exports : List (Watched W Double) → List (Exported Double)
  watched_exports [] = []
  watched_exports (m ∷ ms) = m.exports ++ watched_exports ms

  abbrev pub arms_of : List (Watched W Double) → List (Arm W Double)
  arms_of ms = map (λ m. m.arm) ms

  -- The server state is the last of the exported state interfaces.
  server_state_exported :
      (m : Watched W Double)
      → IsWatched m
      → In
          (
            append m.described.interface_prefix state_prefix,
            server_state_name,
            integer m.arm.hw.server_state,
          )
          m.exports
  unfolding export_state_interfaces
  server_state_exported m (named, e) =
      elim (Option-cases (export_joint_states m.arm.hw 0 m.described.joint_names)) [
        | inl e' ↦ cc (rw (e', ◌>>=◌) at e)
        | inr (joints, e') ↦
            let server = append m.described.interface_prefix state_prefix in
            let last : List (Exported Double) =
              (server, server_state_name, integer m.arm.hw.server_state) ∷ [] in
            let q : joints ++ last ≡ m.exports = cc (rw e' at e) in
            rw q at (In-append_right _ joints last (inl refl))
      ]

  server_states_lent :
      (ms : List (Watched W Double)) (reading : ℕ → Option ℕ)
      → All IsWatched ms
      → Lends {Double = Double} integer reading
          (each_robot event_names (map (λ m. m.robot_prefix) ms))
          (watched_exports ms)
      → (i : ℕ) → i < length ms
      → reading i ≡ server_states (arms_of ms) i
  unfolding server_states
  server_states_lent [] reading watched lends i l = absurd (omega (arith, l))
  server_states_lent (m ∷ ms) reading (w, ws) lends zero l =
      let named = compose_full_name m.robot_prefix state_prefix server_state_name in
      lends 0 (append m.described.interface_prefix state_prefix) server_state_name
        m.arm.hw.server_state (ap some (rw w.0 named))
        (In-append_left _ m.exports (watched_exports ms) (server_state_exported m w))
  server_states_lent (m ∷ ms) reading (w, ws) lends (suc i) l =
      let more = each_robot event_names (map (λ m. m.robot_prefix) ms) in
      let rest =
        Lends-rest integer reading (event_names m.robot_prefix) more m.exports (watched_exports ms)
          lends in
      let z : 1 + i ≡ suc i = omega arith in
      rw z at (server_states_lent ms (λ i. reading (1 + i)) ws rest i (omega (arith, l)))

  -- The events that are kept are those that the robots' server states tell.
  last_events-scan :
      (reading : ℕ → Option ℕ) (lock_free : ℕ → Bool) (i : ℕ) (rs : List Robot) (s : Scan)
      (ms : List (Watched W Double))
      → length rs ≡ length ms
      → ((j : ℕ) → j < length ms → reading (i + j) ≡ server_states (arms_of ms) j)
      → map (λ r. r.last_event) (scan_robots (lent_cycle reading lock_free) i rs s).0
        ≡ map (λ m. u8 m.arm.hw.server_state) ms
  unfolding scan_robots observe server_states
  last_events-scan reading lock_free i [] s [] l reads = refl
  last_events-scan reading lock_free i [] s (m ∷ ms) l reads = absurd (omega (arith, l))
  last_events-scan reading lock_free i (r ∷ rs) s [] l reads = absurd (omega (arith, l))
  last_events-scan reading lock_free i (r ∷ rs) s (m ∷ ms) l reads =
      let z : i + 0 ≡ i = omega arith in
      let here : reading i ≡ some m.arm.hw.server_state = rw z at (reads 0 (omega arith)) in
      let later =
        last_events-scan reading lock_free (suc i) rs
          (note_event (lent_cycle reading lock_free) i r s) ms (omega (arith, l))
          (λ j b.
            let e : suc i + j ≡ i + suc j = omega arith in
            rw e (reads (suc j) (omega (arith, b)))) in
      rw here (ap (λ events. u8 m.arm.hw.server_state ∷ events) later)

  -- If each robot's hardware interface has its prefix, with an underscore behind it, as the prefix
  -- of its interfaces, and the event broadcaster watches these robots and is lent what it asks for
  -- of what they export, then an update of the broadcaster does what the control loop takes it to
  -- do, and then the last event that it keeps for every robot, in the order of the prefixes, is the
  -- server state of that robot's hardware interface, taken modulo 256.
  pub server_states_reach_broadcaster :
      (eb : EventBroadcaster) (reading : ℕ → Option ℕ) (lock_free : ℕ → Bool)
      (ms : List (Watched W Double))
      → eb.robot_prefixes ≡ map (λ m. m.robot_prefix) ms
      → length eb.robots ≡ length ms
      → All IsWatched ms
      → Lends {Double = Double} integer reading (state_interface_names eb) (watched_exports ms)
      → (update (lent_cycle reading lock_free) eb
          ≡ update (broadcast_cycle lock_free (arms_of ms)) eb)
        × (map (λ r. r.last_event) (update (lent_cycle reading lock_free) eb).0.robots
            ≡ map (λ m. u8 m.arm.hw.server_state) ms)
  unfolding update state_interface_names broadcast_cycle server_states set_counts
  server_states_reach_broadcaster eb reading lock_free ms prefixes watches watched lends =
      let same = server_states_lent ms reading watched (rw prefixes at lends) in
      let scans =
        scan_robots-lent_cycle reading (server_states (arms_of ms)) lock_free 0 eb.robots
          (start_scan eb)
          (λ j l. let z : 0 + j ≡ j = omega arith in rw z (same j (omega (arith, l, watches)))) in
      let kept =
        last_events-scan reading lock_free 0 eb.robots (start_scan eb) ms watches
          (λ j l. let z : 0 + j ≡ j = omega arith in rw z (same j l)) in
      (
        rw scans refl,
        ap (map (λ r. r.last_event)) (update-robots (lent_cycle reading lock_free) eb) ∙ kept,
      )
