-- ===== src/Eac/Loop/Turns.antt =====
-- Many turns of the control loop, with every robot under control.
use kuka_drivers.Prelude.{
  All, Bool, List, [], ap, arith, length, length-map, length-replicate, map, refl, replicate, some,
  subst, suc, sym, true, zero, ℕ, ◌+◌, ◌<◌, ◌>>=◌, ◌∙◌, ◌∷◌, ◌≡◌,
}
use kuka_drivers.Core.Modes.{control_started, u32}
use kuka_drivers.Core.Clock.{Clock}
use kuka_drivers.Core.Counting.{Counting}
use kuka_drivers.Controllers.Events.{
  Cycle, EventBroadcaster, Robot, Scan, note_event, scan_robots, start_scan, update,
}
use kuka_drivers.Eac.Hardware.{EacHardware}
use kuka_drivers.Eac.Loop.{
  Arm, System, broadcast_cycle, commanded, loop_turn, read_all, server_states, write_all,
}
use kuka_drivers.Controllers.Events.Runs.{SteadyFor, steady_step}
use kuka_drivers.Eac.Loop.Steps.{InStep, countings, read_all-countings, stepped, write_all_step}

length-scan :
    (c : Cycle) (i : ℕ) (rs : List Robot) (s : Scan) → length (scan_robots c i rs s).0 ≡ length rs
unfolding scan_robots
length-scan c i [] s = refl
length-scan c i (r ∷ rs) s = ap suc (length-scan c (suc i) rs (note_event c i r s))

robots_kept : (c : Cycle) (eb : EventBroadcaster) → length (update c eb).0.robots ≡ length eb.robots
unfolding update
robots_kept c eb = ground (arith, length-scan c 0 eb.robots (start_scan eb))

abbrev pub mismatches : List Counting → List (List (ℕ × ℕ))
mismatches = map (λ c. c.mismatches)

pub stepped_mismatches :
    (count : ℕ) (cs : List Counting) → mismatches (map (stepped count) cs) ≡ mismatches cs
stepped_mismatches count [] = refl
stepped_mismatches count (c ∷ cs) = ap (λ l. c.mismatches ∷ l) (stepped_mismatches count cs)

stepped-InStep : (k : ℕ) (cs : List Counting) → All (InStep (suc k)) (map (stepped (suc k)) cs)
stepped-InStep k [] = tt
stepped-InStep k (c ∷ cs) = (refl, stepped-InStep k cs)

-- What the other controllers leave alone.
abbrev pub LeavesCounting : {Double : Type 0} → (EacHardware Double → EacHardware Double) → Type 0
LeavesCounting {Double} others =
    (hw : EacHardware Double)
    → ((others hw).counting ≡ hw.counting) × ((others hw).msg_received ≡ hw.msg_received)

module _ {W Double : Type 0} where
  -- The last read took a motion state of every robot, and the event of each is CONTROL_STARTED.
  abbrev pub UnderControl : List (Arm W Double) → Type 0
  UnderControl = All (λ (arm : Arm W Double).
      (arm.hw.msg_received ≡ true) × (arm.hw.server_state ≡ control_started))

  abbrev counting_of : Arm W Double → Counting
  counting_of arm = arm.hw.counting

  same_length : (xs ys : List (Arm W Double)) → countings xs ≡ countings ys → length xs ≡ length ys
  same_length xs ys e = sym (length-map counting_of xs) ∙ (ap length e ∙ length-map counting_of ys)

  started_states :
      (arms : List (Arm W Double)) (i : ℕ)
      → UnderControl arms
      → i < length arms
      → server_states arms i ≡ some control_started
  unfolding server_states
  started_states [] i h l = absurd (omega (arith, l))
  started_states (arm ∷ arms) zero h l = ap some h.0.1
  started_states (arm ∷ arms) (suc i) h l = started_states arms i h.1 (omega (arith, l))

  -- After `k` turns.
  pub record Counted (k : ℕ) (s : System W Double) : Type 0 where
    pub count : s.broadcaster.interpolation_count ≡ u32 k
    pub lent : length s.broadcaster.commands ≡ length s.arms
    pub watched : length s.broadcaster.robots ≡ length s.arms
    pub in_step : All (InStep k) (countings s.arms)

  module _ (others : EacHardware Double → EacHardware Double) (leaves : LeavesCounting others) where
    countings-commanded :
        (arms : List (Arm W Double)) → countings (commanded others arms) ≡ countings arms
    countings-commanded [] = refl
    countings-commanded (arm ∷ arms) = cc ((leaves arm.hw).0, countings-commanded arms)

    commanded_received :
        (arms : List (Arm W Double))
        → UnderControl arms
        → All (λ (arm : Arm W Double). arm.hw.msg_received ≡ true) (commanded others arms)
    commanded_received [] h = tt
    commanded_received (arm ∷ arms) h = ((leaves arm.hw).1 ∙ h.0.0, commanded_received arms h.1)

    -- The broadcaster counts on, and hands the count to every command interface.
    broadcast_step :
        (lock_free : ℕ → Bool) (k : ℕ) (s : System W Double) (arms : List (Arm W Double))
        → Counted k s
        → suc k < 4294967296
        → length arms ≡ length s.arms
        → UnderControl arms
        → let eb = (update (broadcast_cycle lock_free arms) s.broadcaster).0 in
          (eb.interpolation_count ≡ suc k) × (eb.commands ≡ replicate (length arms) (suc k))
    unfolding broadcast_cycle
    broadcast_step lock_free k s arms before small sized control =
        let c = broadcast_cycle lock_free arms in
        let steady : SteadyFor (length s.broadcaster.robots) c = (
          λ i l. started_states arms i control (omega (arith, l, before.watched, sized)),
          λ i. refl,
        ) in
        let small_ : u32 (k + 1) ≡ suc k = omega (arith, small) in
        let lent : length s.broadcaster.commands ≡ length arms = before.lent ∙ sym sized in
        rw (small_, lent) at (steady_step c s.broadcaster k steady before.count)

    -- The next turn goes through, warns of nothing, and keeps the count in step.
    pub turn_step :
        (clock : Clock W) (period : ℕ) (lock_free : ℕ → Bool) (k : ℕ) (s : System W Double)
        (arms : List (Arm W Double)) (w : W)
        → Counted k s
        → suc k < 4294967296
        → read_all s.arms s.world ≡ some (arms, w)
        → UnderControl arms
        → (u : System W Double) × (loop_turn clock others period lock_free true s ≡ some u)
          × Counted (suc k) u
          × (countings u.arms ≡ map (stepped (suc k)) (countings s.arms))
    unfolding loop_turn
    turn_step clock period lock_free k s arms w before small was_read control =
        let c = broadcast_cycle lock_free arms in
        let eb = (update c s.broadcaster).0 in
        let read_ = read_all-countings s.arms s.world was_read in
        let sized = same_length arms s.arms read_ in
        let ends = broadcast_step lock_free k s arms before small sized control in
        let moved = commanded others arms in
        let same : countings moved ≡ countings s.arms = countings-commanded arms ∙ read_ in
        let (arms', w', e, kept) =
          write_all_step clock k moved w (commanded_received arms control)
            (subst (All (InStep k)) (sym same) before.in_step) small in
        let counts : eb.commands ≡ replicate (length moved) (suc k) =
          ends.1 ∙ ap (λ m. replicate m (suc k)) (sym (length-map _ arms)) in
        let wrote : write_all clock eb.commands moved w ≡ some (arms', w') =
          ap (λ l. write_all clock l moved w) counts ∙ e in
        let all_ : countings arms' ≡ map (stepped (suc k)) (countings s.arms) =
          kept ∙ ap (map (stepped (suc k))) same in
        let sized' : length arms' ≡ length s.arms =
          sym (length-map counting_of arms')
          ∙ (ap length all_
              ∙ (length-map (stepped (suc k)) (countings s.arms)
                  ∙ length-map counting_of s.arms)) in
        (
          record { broadcaster = eb; arms = arms'; world = w' },
          rw (was_read, ◌>>=◌) (rw (wrote, ◌>>=◌) refl),
          record {
            count = ends.0 ∙ omega (arith, small);
            lent =
                ap length ends.1 ∙ (length-replicate (length arms) (suc k) ∙ (sized ∙ sym sized'));
            watched = robots_kept c s.broadcaster ∙ (before.watched ∙ sym sized');
            in_step = subst (All (InStep (suc k))) (sym all_) (stepped-InStep k (countings s.arms));
          },
          all_,
        )
