-- ===== src/Fri/Manager/Limits.antt =====
-- The limits that the parameter callbacks of
-- kuka_sunrise_fri_driver/src/robot_manager_node.cpp keep.
use kuka_drivers.Prelude.{
  All, Bool, Bool-cases, List, [], arith, false, if◌then◌else◌, inl, inr, ltb, ltb_ℤ, negsuc, none,
  not, pos, refl, suc, true, zero, ℕ, ℤ, ◌&&◌, ◌*ℤ◌, ◌*◌, ◌<◌, ◌^◌, ◌↔◌, ◌∷◌, ◌≡◌, ◌≢◌, ◌≤ℤ◌, ◌≤◌,
}
use kuka_drivers.Core.Modes.{Lifecycle, active, joint_torque_control, u8}
use kuka_drivers.Fri.Manager.Settings.{
  on_control_mode_change_request, on_receive_multiplier_change_request,
}
use kuka_drivers.Fri.Manager.{FriManager, get_controller_name, int32, validate_period}

-- Both values are at least 1 and their product, the time between two control signals, is at most
-- 10 ms.
abbrev pub IsLimited : ℤ → ℤ → Type 0
IsLimited (pos p) (pos m) = (1 ≤ p) × (1 ≤ m) × (p * m ≤ 10)
IsLimited _ _ = ⊥

int32_lem : (k m : ℕ) → k * m < 2 ^ 31 → int32 (pos k *ℤ pos m) ≡ pos (k * m)
unfolding int32
int32_lem k m h = ground arith

mul_bound : (k m b : ℕ) → m ≤ b → k * m ≤ k * b
mul_bound zero m b h = omega arith
mul_bound (suc k) m b h = omega (arith, mul_bound k m b h)

-- The tests of a new period, and of a new multiplier.
abbrev period_test : ℤ → ℤ → Bool
period_test period multiplier =
    not (ltb_ℤ period (pos 1))
    && not (ltb_ℤ (pos 100) period)
    && not (ltb_ℤ (pos 10) (int32 (period *ℤ multiplier)))

abbrev multiplier_test : ℤ → ℤ → Bool
multiplier_test multiplier period =
    not (ltb_ℤ multiplier (pos 1)) && not (ltb_ℤ (pos 10) (int32 (multiplier *ℤ period)))

factor_bound : (p m : ℕ) → 1 ≤ p → p * m ≤ 10 → m ≤ 10
factor_bound p m hp h = omega (arith, mul_bound m 1 p hp)

period_test_iff : (k old m : ℤ) → IsLimited old m → (period_test k m ≡ true) ↔ IsLimited k m
period_test_iff k (negsuc p) m h = absurd h
period_test_iff k (pos p) (negsuc m) h = absurd h
period_test_iff (negsuc k) (pos p) (pos m) h = (λ e. ground arith, λ e. absurd e)
period_test_iff (pos k) (pos p) (pos m) (hp, hm, h) =
    let b : m ≤ 10 = factor_bound p m hp h in
    elim (Bool-cases (ltb 100 k)) [
      | inl e ↦ (λ t. ground arith, λ (u, v, w). ground (arith, mul_bound k 1 m hm))
      | inr e ↦
          let small = int32_lem k m (ground (arith, mul_bound k m 10 b)) in
          (λ t. ground (arith, small), λ (u, v, w). ground (arith, small))
    ]

multiplier_test_iff :
    (k old p : ℤ)
    → IsLimited p old
    → k ≤ℤ pos 214748364
    → (multiplier_test k p ≡ true) ↔ IsLimited p k
multiplier_test_iff k old (negsuc p) h b = absurd h
multiplier_test_iff k (negsuc m) (pos p) h b = absurd h
multiplier_test_iff (negsuc k) (pos m) (pos p) h b = (λ e. ground arith, λ e. absurd e)
multiplier_test_iff (pos k) (pos m) (pos p) (hp, hm, h) b =
    let small =
      int32_lem k p (omega (arith, mul_bound k p 10 (omega (arith, mul_bound p 1 m hm)))) in
    (λ t. ground (arith, small), λ (u, v, w). ground (arith, small))

kept :
    (period old : ℤ) {period' m m' : ℤ} (ok : Bool)
    → period' ≡ (if ok then period else old)
    → m' ≡ m
    → (ok ≡ true → IsLimited period m)
    → IsLimited old m
    → IsLimited period' m'
kept k old true e e' f h = rw (e, e') (f refl)
kept k old false e e' f h = rw (e, e') h

kept_multiplier :
    (m old : ℤ) {p p' m' : ℤ} (ok : Bool)
    → m' ≡ (if ok then m else old)
    → p' ≡ p
    → (ok ≡ true → IsLimited p m)
    → IsLimited p old
    → IsLimited p' m'
kept_multiplier k old true e e' f h = rw (e, e') (f refl)
kept_multiplier k old false e e' f h = rw (e, e') h

-- On a node whose period and multiplier are within their limits, a period is accepted exactly when
-- the node is not active, it is at least 1 and the time between two control signals stays at most
-- 10 ms; an accepted period is stored, and every request leaves the limits kept.
period_request :
    {Double : Type 0} (fm : FriManager Double) (period : ℤ)
    → IsLimited fm.send_period_ms fm.receive_multiplier
    → let (fm', ok) = validate_period period fm in
      ((ok ≡ true) ↔ ((fm.state ≢ active) × IsLimited period fm.receive_multiplier))
      × (fm'.send_period_ms ≡ (if ok then period else fm.send_period_ms))
      × IsLimited fm'.send_period_ms fm'.receive_multiplier
unfolding validate_period
period_request fm period h =
    let (to, from) = period_test_iff period fm.send_period_ms fm.receive_multiplier h in
    (
      (λ e. (ground arith, to (ground arith)), λ (s, l). let t = from l in ground arith),
      ground arith,
      kept period fm.send_period_ms (validate_period period fm).1 (ground arith) (ground arith)
          (λ e. to (ground arith)) h,
    )

-- On a node whose period and multiplier are within their limits, a multiplier of at most 214748364
-- is accepted exactly when it is at least 1 and the time between two control signals stays at most
-- 10 ms; an accepted multiplier is stored, and every such request leaves the limits kept.
multiplier_request :
    {Double : Type 0} (fm : FriManager Double) (multiplier : ℤ)
    → IsLimited fm.send_period_ms fm.receive_multiplier
    → multiplier ≤ℤ pos 214748364
    → let (fm', ok) = on_receive_multiplier_change_request multiplier fm in
      ((ok ≡ true) ↔ IsLimited fm.send_period_ms multiplier)
      × (fm'.receive_multiplier ≡ (if ok then multiplier else fm.receive_multiplier))
      × IsLimited fm'.send_period_ms fm'.receive_multiplier
unfolding on_receive_multiplier_change_request
multiplier_request fm multiplier h b =
    let (to, from) = multiplier_test_iff multiplier fm.receive_multiplier fm.send_period_ms h b in
    (
      (λ e. to (ground arith), λ l. let t = from l in ground arith),
      ground arith,
      kept_multiplier multiplier fm.receive_multiplier
          (on_receive_multiplier_change_request multiplier fm).1 (ground arith) (ground arith)
          (λ e. to (ground arith)) h,
    )

-- A change of one of the two parameters, or of the node's state.
pub data Change : Type 0 where
  new_period : ℤ → Change
  new_multiplier : ℤ → Change
  new_state : Lifecycle → Change

abbrev apply_change : {Double : Type 0} → Change → FriManager Double → FriManager Double
apply_change (new_period period) fm = (validate_period period fm).0
apply_change (new_multiplier multiplier) fm = (on_receive_multiplier_change_request multiplier fm).0
apply_change (new_state state) fm = record fm { state = state }

abbrev pub apply_changes : {Double : Type 0} → List Change → FriManager Double → FriManager Double
apply_changes [] fm = fm
apply_changes (change ∷ changes) fm = apply_changes changes (apply_change change fm)

abbrev IsSmall : Change → Type 0
IsSmall (new_multiplier multiplier) = multiplier ≤ℤ pos 214748364
IsSmall _ = Unit

-- A node whose period and multiplier are within their limits keeps them there: no sequence of
-- requests for the two, in any states of the node, breaks the limits, if no multiplier in it is
-- above 214748364.
pub limits_kept :
    {Double : Type 0} (changes : List Change) (fm : FriManager Double)
    → All IsSmall changes
    → IsLimited fm.send_period_ms fm.receive_multiplier
    → let fm' = apply_changes changes fm in IsLimited fm'.send_period_ms fm'.receive_multiplier
limits_kept [] fm s h = h
limits_kept (new_period period ∷ changes) fm (b, s) h =
    limits_kept changes (validate_period period fm).0 s (period_request fm period h).2
limits_kept (new_multiplier multiplier ∷ changes) fm (b, s) h =
    limits_kept changes (on_receive_multiplier_change_request multiplier fm).0 s
      (multiplier_request fm multiplier h b).2
limits_kept (new_state state ∷ changes) fm (b, s) h =
    limits_kept changes (record fm { state = state }) s h

-- The stored mode after an accepted request has a controller, and it is torque control only if the
-- send period was at most 5 ms then; a request that is not accepted changes nothing.
pub mode_request :
    {Double : Type 0} (fm : FriManager Double) (mode : ℤ)
    → let (fm', ok) = on_control_mode_change_request mode fm in
      (ok ≡ true
        → (get_controller_name fm' ≢ none)
          × (u8 fm'.control_mode ≡ joint_torque_control → fm.send_period_ms ≤ℤ pos 5))
      × (ok ≡ false → fm' ≡ fm)
unfolding on_control_mode_change_request get_controller_name
mode_request fm mode = (λ e. (λ n. ground arith, λ t. ground arith), λ e. ground arith)
