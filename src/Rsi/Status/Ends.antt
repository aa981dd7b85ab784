-- ===== src/Rsi/Status/Ends.antt =====
-- The waits for the drives end.
use kuka_drivers.Prelude.{
  Bool, Bool-cases, Option, arith, false, if◌then◌else◌, inl, inr, ltb, not, refl, some, suc, true,
  zero, ℕ, ◌*◌, ◌+◌, ◌-◌, ◌<◌, ◌≡◌, ◌≢◌,
}
use kuka_drivers.Core.Clock.{Clock}
use kuka_drivers.Rsi.Status.{
  StatusInterfaces, drives_are_powered, drives_fuel, drives_powered_check_interval,
  drives_powered_timeout, wait_for_drives,
}

module _ {W : Type 0} (clock : Clock W) (actual : W → StatusInterfaces) where
  open clock use {now, sleep, sleep_blocks}

  -- How a wait ended: in time with the drives as wanted, or late with the drives still not.
  abbrev pub DrivesEnded : Bool → ℕ → Option (StatusInterfaces × W × Bool) → Type 0
  DrivesEnded on start r =
      (status : StatusInterfaces) × (w : W) × (in_time : Bool) × (r ≡ some (status, w, in_time))
      × ((in_time ≡ true) → drives_are_powered status ≡ on)
      × ((in_time ≡ false)
          → (drives_are_powered status ≢ on) × (drives_powered_timeout + start < now w))

  wanted : (on b : Bool) → (if on then b else not b) ≡ true → b ≡ on
  wanted true b t = t
  wanted false b t = ground arith

  unwanted : (on b : Bool) → (if on then b else not b) ≡ false → b ≢ on
  unwanted true b t e = cc
  unwanted false b t e = ground arith

  -- One round, given what the rounds after the sleep do when there is time left.
  round :
      (k : ℕ) (on : Bool) (start : ℕ) (status : StatusInterfaces) (w : W)
      → (ltb drives_powered_timeout (now w - start) ≡ false
          → DrivesEnded on start (
              wait_for_drives clock actual k on start
                (actual w)
                (sleep drives_powered_check_interval w)))
      → DrivesEnded on start (wait_for_drives clock actual (suc k) on start status w)
  unfolding wait_for_drives
  round k on start status w more =
      let powered = drives_are_powered status in
      elim (Bool-cases (if on then powered else not powered)) [
        | inl t ↦ (status, w, true, rw t refl, λ e. wanted on powered t, λ e. cc)
        | inr t ↦ elim (Bool-cases (ltb drives_powered_timeout (now w - start))) [
          | inl l ↦ (
            status,
            w,
            false,
            rw (t, l) refl,
            λ e. cc,
            λ e. (unwanted on powered t, ground (arith, l)),
          )
          | inr l ↦ rw (t, l) (more l)
        ]
      ]

  loop_ends :
      (k : ℕ) (on : Bool) (start : ℕ) (status : StatusInterfaces) (w : W)
      → drives_powered_timeout + start < now w + 100000 * k
      → DrivesEnded on start (wait_for_drives clock actual (suc k) on start status w)
  loop_ends zero on start status w h =
      round 0 on start status w (λ l. absurd (ground (arith, l, h)))
  loop_ends (suc k) on start status w h =
      let w' = sleep drives_powered_check_interval w in
      let slept = sleep_blocks drives_powered_check_interval w in
      round (suc k) on start status w
        (λ l. loop_ends k on start (actual w) w' (omega (arith, h, slept)))

  -- The wait for the drives returns: in time with the status of the drives that was wanted, or
  -- after more than 3 s with the status of the drives still not so.
  pub wait_for_drives_ends :
      (on : Bool) (status : StatusInterfaces) (w : W)
      → DrivesEnded on (now w) (wait_for_drives clock actual drives_fuel on (now w) status w)
  wait_for_drives_ends on status w = loop_ends 31 on (now w) status w (omega arith)
