-- ===== src/Eac/Loop/Run.antt =====
-- The control loop from the activation on.
use kuka_drivers.Prelude.{
  All, Bool, List, Option, ap, arith, false, length, length-map, none, refl, some, subst, suc, sym,
  true, zero, ℕ, ◌<◌, ◌∙◌, ◌≡◌,
}
use kuka_drivers.Core.Clock.{Clock}
use kuka_drivers.Controllers.Events.{EventBroadcaster, deactivated, on_activate}
use kuka_drivers.Eac.Hardware.{EacHardware, counted}
use kuka_drivers.Eac.Loop.{Arm, System, loop_turn, read_all}
use kuka_drivers.Eac.Loop.Steps.{countings}
use kuka_drivers.Eac.Loop.Turns.{
  Counted, LeavesCounting, UnderControl, mismatches, stepped_mismatches, turn_step,
}

module _ {W Double : Type 0} where
  module _ (clock : Clock W) (others : EacHardware Double → EacHardware Double) where
    -- The turns of the loop on a configured system, in each of which every robot has sent a motion
    -- state and is under control.
    pub data TurnsUnderControl : ℕ → System W Double → System W Double → Type 0 where
      no_turn : {s : System W Double} → TurnsUnderControl zero s s
      turn :
          {k : ℕ} {s t u : System W Double}
          → TurnsUnderControl k s t
          → (period : ℕ) (lock_free : ℕ → Bool) (arms : List (Arm W Double)) (w : W)
          → read_all t.arms t.world ≡ some (arms, w)
          → UnderControl arms
          → loop_turn clock others period lock_free true t ≡ some u
          → TurnsUnderControl (suc k) s u

  -- The system after the activation of the broadcaster and of the hardware interfaces, which are
  -- all synchronous.
  pub record Activated (eb : EventBroadcaster) (s : System W Double) : Type 0 where
    pub broadcaster_activated : s.broadcaster ≡ (on_activate eb).0
    pub commands_lent : length eb.commands ≡ length s.arms
    pub robots_watched : length eb.robots ≡ length s.arms
    -- the loop does their reads and writes itself
    pub synchronous : All (λ c. c.is_async_hardware ≡ false) (countings s.arms)
    pub count_uninitialized :
        All (λ c. c.interpolation_count_initialized ≡ false) (countings s.arms)

  Activated-Counted : (eb : EventBroadcaster) (s : System W Double) → Activated eb s → Counted 0 s
  unfolding on_activate
  Activated-Counted eb s a =
      let b = a.broadcaster_activated in
      record {
        count = ap (λ (x : EventBroadcaster). x.interpolation_count) b;
        lent = ap (λ (x : EventBroadcaster). length x.commands) b ∙ a.commands_lent;
        watched =
            ap (λ (x : EventBroadcaster). length x.robots) b
            ∙ (length-map deactivated eb.robots ∙ a.robots_watched);
        in_step = a.count_uninitialized;
      }

  some_injective :
      {a b : System W Double} {o : Option (System W Double)} → o ≡ some a → o ≡ some b → a ≡ b
  some_injective {a = a} p q = ap (λ o. elim o [ none ↦ a | some x ↦ x ]) (sym p ∙ q)

  module _ (clock : Clock W) (others : EacHardware Double → EacHardware Double)
      (leaves : LeavesCounting others) where
    -- After `k` turns the count is in step, and no mismatch is new.
    abbrev Quiet : ℕ → System W Double → System W Double → Type 0
    Quiet k s t = Counted k t × (mismatches (countings t.arms) ≡ mismatches (countings s.arms))

    Quiet-step :
        (k : ℕ) (s t : System W Double)
        → Quiet k s t
        → suc k < 4294967296
        → (period : ℕ) (lock_free : ℕ → Bool) (arms : List (Arm W Double)) (w : W)
        → read_all t.arms t.world ≡ some (arms, w)
        → UnderControl arms
        → (u : System W Double) × (loop_turn clock others period lock_free true t ≡ some u)
          × Quiet (suc k) s u
    Quiet-step k s t q small period lock_free arms w was_read control =
        let (u, e, counted, all_) =
          turn_step others leaves clock period lock_free k t arms w q.0 small was_read control in
        (
          u,
          e,
          (counted, ap mismatches all_ ∙ (stepped_mismatches (suc k) (countings t.arms) ∙ q.1)),
        )

    Quiet-turns :
        {k : ℕ} {s t : System W Double}
        → Counted 0 s
        → TurnsUnderControl clock others k s t
        → k < 4294967296
        → Quiet k s t
    Quiet-turns a no_turn small = (a, refl)
    Quiet-turns {s = s} a (turn {k} {t = t} r period lock_free arms w was_read control went) small =
        let before = Quiet-turns a r (omega (arith, small)) in
        let (u, e, q) = Quiet-step k s t before small period lock_free arms w was_read control in
        subst (Quiet (suc k) s) (some_injective e went) q

    -- With synchronous hardware interfaces, from the activation on, as long as in every turn of the
    -- control loop each robot has sent a motion state and reports CONTROL_STARTED, and the other controllers leave the count alone,
    -- each of the first 4294967295 turns goes through: after the k-th, the broadcaster's count and
    -- the count that each hardware interface keeps are k, and no hardware interface has reported a
    -- mismatch since the activation.
    pub turns_in_step :
        (k : ℕ) (eb : EventBroadcaster) (s t : System W Double)
        → Activated eb s
        → TurnsUnderControl clock others k s t
        → suc k < 4294967296
        → (period : ℕ) (lock_free : ℕ → Bool) (arms : List (Arm W Double)) (w : W)
        → read_all t.arms t.world ≡ some (arms, w)
        → UnderControl arms
        → (u : System W Double) × (loop_turn clock others period lock_free true t ≡ some u)
          × (u.broadcaster.interpolation_count ≡ suc k)
          × All (λ c. c.last_interpolation_count_command ≡ suc k) (countings u.arms)
          × (mismatches (countings u.arms) ≡ mismatches (countings s.arms))
    turns_in_step k eb s t a turns small period lock_free arms w was_read control =
        let before = Quiet-turns (Activated-Counted eb s a) turns (omega (arith, small)) in
        let (u, e, q) = Quiet-step k s t before small period lock_free arms w was_read control in
        (u, e, q.0.count ∙ omega (arith, small), q.0.in_step, q.1)
