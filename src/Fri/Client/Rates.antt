-- ===== src/Fri/Client/Rates.antt =====
-- What the cyclic communication of the FRI hardware interface commands, and how often.
use kuka_drivers.Prelude.{
  ap, arith, false, refl, suc, sym, true, zero, ℕ, ◌%◌, ◌*◌, ◌+◌, ◌-◌, ◌/◌, ◌<◌, ◌==◌, ◌∙◌, ◌≡◌,
  ◌≤◌,
}
use native.Mathlib.Nat.{div-add-mod', mod-lt}
use kuka_drivers.Core.Modes.{u32, u32_max}
use kuka_drivers.Fri.Client.{FriHardware, Reals, Sdk, command, update_command}

module _ {W Double : Type 0} (reals : Reals Double) (sdk : Sdk W Double) where
  -- `n` calls of `command` in a row
  pub commands : ℕ → FriHardware Double → W → FriHardware Double × W
  commands zero hw w = (hw, w)
  commands (suc n) hw w = let (hw', w') = command reals sdk hw w in commands n hw' w'

  pub updates : ℕ → FriHardware Double → W → W
  updates zero hw w = w
  updates (suc k) hw w = updates k hw (update_command reals sdk hw w)

  abbrev counted_to : ℕ → FriHardware Double → FriHardware Double
  counted_to n hw = record hw { receive_counter = n }

  next_count : (n m : ℕ) → suc n ≤ m → m ≤ u32_max → u32 (n + 1) ≡ suc n
  next_count n m l b = ground arith

  command_skips :
      (hw : FriHardware Double) (w : W)
      → suc hw.receive_counter < hw.receive_multiplier
      → hw.receive_multiplier ≤ u32_max
      → command reals sdk hw w ≡ (counted_to (suc hw.receive_counter) hw, w)
  unfolding command
  command_skips hw w l b =
      let next = next_count hw.receive_counter hw.receive_multiplier (omega arith) b in
      let below : (suc hw.receive_counter == hw.receive_multiplier) ≡ false = ground arith in
      rw (next, below) refl

  command_updates :
      (hw : FriHardware Double) (w : W)
      → suc hw.receive_counter ≡ hw.receive_multiplier
      → hw.receive_multiplier ≤ u32_max
      → command reals sdk hw w ≡ (counted_to 0 hw, update_command reals sdk hw w)
  unfolding command
  command_updates hw w e b =
      let next = next_count hw.receive_counter hw.receive_multiplier (omega arith) b in
      let reached : (suc hw.receive_counter == hw.receive_multiplier) ≡ true = ground arith in
      rw (next, reached) refl

  -- The calls up to the one that updates.
  round :
      (k : ℕ) (hw : FriHardware Double) (w : W)
      → hw.receive_counter + suc k ≡ hw.receive_multiplier
      → hw.receive_multiplier ≤ u32_max
      → commands (suc k) hw w ≡ (counted_to 0 hw, update_command reals sdk hw w)
  unfolding commands update_command
  round zero hw w e b = command_updates hw w (omega arith) b
  round (suc k) hw w e b =
      rw (command_skips hw w (omega arith) b)
        (round k (counted_to (suc hw.receive_counter) hw) w (omega arith) b)

  commands-add :
      (m n : ℕ) (hw : FriHardware Double) (w : W)
      → commands (m + n) hw w ≡ (let (hw', w') = commands m hw w in commands n hw' w')
  unfolding commands
  commands-add zero n hw w = let e : 0 + n ≡ n = omega arith in ap (λ k. commands k hw w) e
  commands-add (suc m) n hw w =
      let (hw', w') = command reals sdk hw w in
      let e : suc m + n ≡ suc (m + n) = omega arith in
      ap (λ k. commands k hw w) e ∙ commands-add m n hw' w'

  full_rounds :
      (k : ℕ) (hw : FriHardware Double) (w : W)
      → hw.receive_counter ≡ 0
      → 0 < hw.receive_multiplier
      → hw.receive_multiplier ≤ u32_max
      → commands (k * hw.receive_multiplier) hw w ≡ (hw, updates k hw w)
  unfolding commands updates
  full_rounds zero hw w z p b =
      let e : 0 * hw.receive_multiplier ≡ 0 = omega arith in ap (λ n. commands n hw w) e
  full_rounds (suc k) hw w z p b =
      let m = hw.receive_multiplier in
      let split : suc k * m ≡ suc (m - 1) + k * m = omega arith in
      let again : counted_to 0 hw ≡ hw = ap (λ c. counted_to c hw) (sym z) in
      ap (λ n. commands n hw w) split
      ∙ commands-add (suc (m - 1)) (k * m) hw w
      ∙ ap (λ r. commands (k * m) r.0 r.1)
          (round (m - 1) hw w (omega arith) b
            ∙ ap (λ hw'. (hw', update_command reals sdk hw w)) again)
      ∙ full_rounds k hw (update_command reals sdk hw w) z p b

  -- Fewer calls than that do nothing but count.
  command_between :
      (r : ℕ) (hw : FriHardware Double) (w : W)
      → hw.receive_counter + r < hw.receive_multiplier
      → hw.receive_multiplier ≤ u32_max
      → commands r hw w ≡ (counted_to (hw.receive_counter + r) hw, w)
  unfolding commands
  command_between zero hw w l b = ap (λ c. (counted_to c hw, w)) (omega arith)
  command_between (suc r) hw w l b = rw (command_skips hw w (omega arith) b) (
      command_between r (counted_to (suc hw.receive_counter) hw) w (omega arith) b
      ∙ ap (λ c. (counted_to c hw, w)) (omega arith))

  -- Starting with the counter at 0, the calls of `command` update the command on every
  -- `receive_multiplier`-th call and on no other: after `n` calls there were `n /
  -- receive_multiplier` updates, rounded down, and the counter is at the remainder.
  pub command_every :
      (n : ℕ) (hw : FriHardware Double) (w : W)
      → hw.receive_counter ≡ 0
      → 0 < hw.receive_multiplier
      → hw.receive_multiplier ≤ u32_max
      → commands n hw w ≡ (
        record hw { receive_counter = n % hw.receive_multiplier },
        updates (n / hw.receive_multiplier) hw w,
      )
  command_every n hw w z p b =
      let m = hw.receive_multiplier in
      let split : n / m * m + n % m ≡ n = div-add-mod' n m in
      let left : hw.receive_counter + n % m < m = omega (arith, z, mod-lt n p) in
      let counted : hw.receive_counter + n % m ≡ n % m = omega (arith, z) in
      ap (λ k. commands k hw w) (sym split)
      ∙ commands-add (n / m * m) (n % m) hw w
      ∙ ap (λ r. commands (n % m) r.0 r.1) (full_rounds (n / m) hw w z p b)
      ∙ command_between (n % m) hw (updates (n / m) hw w) left b
      ∙ ap (λ k. (counted_to k hw, updates (n / m) hw w)) counted
