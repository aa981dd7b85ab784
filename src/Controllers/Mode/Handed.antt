-- ===== src/Controllers/Mode/Handed.antt =====
-- The control mode on its way from a message to the hardware interfaces.
use kuka_drivers.Prelude.{
  Bool, List, [], arith, get_elem?, if◌then◌else◌, length, none, refl, some, suc, true, zero, ℕ,
  ◌%◌, ◌&&◌, ◌+◌, ◌↔◌, ◌∷◌, ◌≡◌,
}
use kuka_drivers.Controllers.Mode.{
  ControlModeHandler, on_activate, receive_control_mode, set_modes, update,
}

handed :
    (settable : ℕ → Bool) (mode idx : ℕ) (olds : List ℕ) (ok : Bool) (i old : ℕ)
    → get_elem? olds i ≡ some old
    → get_elem? (set_modes settable mode idx olds ok).0 i
      ≡ some (if settable (idx + i) then mode else old)
unfolding set_modes
handed settable mode idx [] ok i old h = cc
handed settable mode idx (x ∷ xs) ok zero old h =
    let z : idx + 0 ≡ idx = omega arith in rw z (ground (arith, h))
handed settable mode idx (x ∷ xs) ok (suc i) old h =
    let z : idx + suc i ≡ suc idx + i = omega arith in
    rw z (handed settable mode (suc idx) xs (settable idx && ok) i old h)

-- Every one of `n` command interfaces, from index `idx` on, takes its value.
abbrev pub all_settable : (ℕ → Bool) → ℕ → ℕ → Bool
all_settable settable idx zero = true
all_settable settable idx (suc n) = settable idx && all_settable settable (suc idx) n

accepted :
    (settable : ℕ → Bool) (mode idx : ℕ) (olds : List ℕ) (ok : Bool)
    → (set_modes settable mode idx olds ok).1 ≡ (all_settable settable idx (length olds) && ok)
unfolding set_modes
accepted settable mode idx [] ok = refl
accepted settable mode idx (x ∷ xs) ok =
    ground (arith, accepted settable mode (suc idx) xs (settable idx && ok))

-- After a message, the handler can be activated unless the message is a multiple of 256, and an
-- update leaves each command interface with the message modulo 256 if it takes the value, and with
-- what it held otherwise; it reports success exactly if all of them take the value.
pub mode_handed_on :
    (message : ℕ) (settable : ℕ → Bool) (handler : ControlModeHandler)
    → let received = receive_control_mode message handler in
      let (handler', ok) = update settable received in
      ((on_activate received ≡ none) ↔ (message % 256 ≡ 0))
      × ((i old : ℕ)
          → get_elem? handler.commands i ≡ some old
          → get_elem? handler'.commands i ≡ some (if settable i then message % 256 else old))
      × (ok ≡ all_settable settable 0 (length handler.commands))
unfolding receive_control_mode update on_activate
mode_handed_on message settable handler =
    let mode = message % 256 in
    (
      (λ h. ground arith, λ h. ground arith),
      (λ i old h.
          let z : 0 + i ≡ i = omega arith in
          rw z at (handed settable mode 0 handler.commands true i old h)),
      ground (arith, accepted settable mode 0 handler.commands true),
    )
