-- ===== src/Eac/Loop/Steps.antt =====
-- One turn of the control loop, with every robot under control.
use kuka_drivers.Prelude.{
  All, Bool, Bool-cases, List, Option-cases, [], ap, arith, false, inl, inr, length, map, none,
  refl, replicate, some, suc, true, zero, ℕ, ◌<◌, ◌>>=◌, ◌∷◌, ◌≡◌,
}
use kuka_drivers.Core.Clock.{Clock}
use kuka_drivers.Core.Counting.{Counting, count_check}
use kuka_drivers.Rsi.Hardware.{expected_count}
use kuka_drivers.Eac.Loop.{Arm, read_all, write_all}
use kuka_drivers.Eac.Hardware.{
  EacHardware, Robot, add_values, is_ok_code, read, reply, take_motion_state, write,
}

-- The count that the next check expects is `suc k`.
abbrev pub InStep : ℕ → Counting → Type 0
InStep zero c = c.interpolation_count_initialized ≡ false
InStep (suc k) c = c.last_interpolation_count_command ≡ suc k

abbrev pub stepped : ℕ → Counting → Counting
stepped count c = record c {
  interpolation_count_initialized = true;
  last_interpolation_count_command = count;
}

module _ {W : Type 0} (clock : Clock W) where
  check_step :
      (k : ℕ) (c : Counting) (w : W)
      → InStep k c
      → suc k < 4294967296
      → count_check clock (λ _. suc k) c w ≡ some (stepped (suc k) c, w)
  unfolding count_check expected_count
  check_step zero c w s l = rw s refl
  check_step (suc k) c w s l = ground arith

module _ {W Double : Type 0} (robot : Robot W Double) where
  reply_counting : (hw : EacHardware Double) (w : W) → (reply robot hw w).0.counting ≡ hw.counting
  unfolding reply
  reply_counting hw w = ground arith

  taken_counting :
      (w : W) (hw : EacHardware Double) {hw' : EacHardware Double}
      → take_motion_state robot w hw ≡ some hw'
      → hw'.counting ≡ hw.counting
  unfolding take_motion_state
  taken_counting w hw h = ground arith

  read_counting :
      (hw : EacHardware Double) (w : W) {hw' : EacHardware Double} {w' : W}
      → read robot hw w ≡ some (hw', w')
      → hw'.counting ≡ hw.counting
  unfolding read
  read_counting hw w {hw' = hw'} h =
      let (v, code) = robot.receive_motion_state 10 w in
      let received = record hw { msg_received = is_ok_code code } in
      elim (Bool-cases (is_ok_code code)) [
        | inr e ↦ ground (arith, h)
        | inl e ↦ elim (Option-cases (take_motion_state robot v received)) [
          | inl f ↦ ground (arith, h)
          | inr (taken, f) ↦ ground (arith, h, taken_counting v received f)
        ]
      ]

  -- A write with a motion state received and the count that is expected warns of nothing.
  write_step :
      (clock : Clock W) (k : ℕ) (hw : EacHardware Double) (w : W)
      → hw.msg_received ≡ true
      → InStep k hw.counting
      → suc k < 4294967296
      → (hw' : EacHardware Double) × (w' : W) × (ok : Bool) × (write robot clock (λ _. suc k) hw w
          ≡ some (hw', w', ok))
        × (hw'.counting ≡ stepped (suc k) hw.counting)
  unfolding write
  write_step clock k hw w received step small =
      let hw₁ = record hw { counting = stepped (suc k) hw.counting } in
      let added = add_values robot hw₁ w in
      let (hw₂, w₂, ok) = reply robot hw₁ added in
      (
        hw₂,
        w₂,
        ok,
        rw (received, check_step clock k hw.counting w step small) refl,
        reply_counting hw₁ added,
      )

module _ {W Double : Type 0} where
  abbrev pub countings : List (Arm W Double) → List Counting
  countings arms = map (λ (arm : Arm W Double). arm.hw.counting) arms

  pub read_all-countings :
      (arms : List (Arm W Double)) (w : W) {arms' : List (Arm W Double)} {w' : W}
      → read_all arms w ≡ some (arms', w')
      → countings arms' ≡ countings arms
  unfolding read_all
  read_all-countings [] w h = ground (arith, h)
  read_all-countings (arm ∷ arms) w {arms' = arms'} {w' = w'} h =
      elim (Option-cases (read arm.robot arm.hw w)) [
        | inl e ↦ cc (rw (e, ◌>>=◌) at h)
        | inr ((hw, v), e) ↦
            let h' = rw (e, ◌>>=◌) at h in
            elim (Option-cases (read_all arms v)) [
              | inl f ↦ cc (rw (f, ◌>>=◌) at h')
              | inr ((rest, u), f) ↦
                  let q : record arm { hw = hw } ∷ rest ≡ arms' =
                    ap (λ o. elim o [ none ↦ arms' | some p ↦ p.0 ]) (rw (f, ◌>>=◌) at h') in
                  rw (← q) (cc (read_counting arm.robot arm.hw w e, read_all-countings arms v f))
            ]
      ]

  pub write_all_step :
      (clock : Clock W) (k : ℕ) (arms : List (Arm W Double)) (w : W)
      → All (λ (arm : Arm W Double). arm.hw.msg_received ≡ true) arms
      → All (InStep k) (countings arms)
      → suc k < 4294967296
      → (arms' : List (Arm W Double)) × (w' : W) × (write_all clock
            (replicate (length arms) (suc k))
            arms
            w
          ≡ some (arms', w'))
        × (countings arms' ≡ map (stepped (suc k)) (countings arms))
  unfolding write_all
  write_all_step clock k [] w received steps small = ([], w, refl, refl)
  write_all_step clock k (arm ∷ arms) w (r, rs) (s, ss) small =
      let (hw, v, ok, wrote, same) = write_step arm.robot clock k arm.hw w r s small in
      let (rest, u, others, kept) = write_all_step clock k arms v rs ss small in
      (
        record arm { hw = hw } ∷ rest,
        u,
        rw (wrote, ◌>>=◌) (rw (others, ◌>>=◌) refl),
        cc (same, kept),
      )
