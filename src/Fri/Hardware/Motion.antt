-- ===== src/Fri/Hardware/Motion.antt =====
-- When an activation of the FRI hardware interface succeeds.
use kuka_drivers.Prelude.{
  Bool-cases, List, String, [], false, if◌then◌else◌, inl, inr, refl, true, ℕ, ◌&&◌, ◌↔◌, ◌∙◌, ◌∷◌,
  ◌≡◌,
}
use kuka_drivers.Core.Modes.{CallbackReturn, control_started, error, failure, success, u8}
use kuka_drivers.Fri.Connection.{
  FriConnection, activate_control_id, deactivate_control_id, set_fri_config_id, start_fri_id,
}
use kuka_drivers.Fri.Connection.Commands.{
  activate_control, deactivate_control, fri_config_data, set_fri_config, start_fri,
}
use kuka_drivers.Fri.Connection.Answers.{Answer, packet_of, verdict}
use kuka_drivers.Fri.Client.{FriHardware, Reals, Sdk}
use kuka_drivers.Fri.Hardware.{
  Addresses, Finished, control_activated_with, finished, joined, keep_cyclic, on_activate,
  on_deactivate, start_motion,
}
use kuka_drivers.Fri.Hardware.Activation.{
  IsIdle, answered, cyclic-Untouched, is_supported, mode_answered,
}

module _ {Double : Type 0} where
  -- The thread of an activation, with the answers to its commands.
  start_answered :
      (cyclic : FriHardware Double → FriHardware Double) (a₄ a₅ : Answer) (left : List (List ℕ))
      (hw : FriHardware Double) (fc : FriConnection)
      → IsIdle fc
      → (fc₁ : FriConnection) × (fc₂ : FriConnection) × (start_motion cyclic
            (packet_of a₄ ∷ packet_of a₅ ∷ left)
            hw
            fc
          ≡ (if verdict start_fri_id a₄
              then joined
                  (control_activated_with
                    (verdict activate_control_id a₅)
                    (record (cyclic hw) { fri_started = true }))
                  fc₂
                  left
              else joined (cyclic hw) fc₁ (packet_of a₅ ∷ left)))
  unfolding start_motion start_fri activate_control
  start_answered cyclic a₄ a₅ left hw fc i =
      let (fc₁, e₁, i₁) = answered start_fri_id [] a₄ (packet_of a₅ ∷ left) fc i in
      let (fc₂, e₂, i₂) = answered activate_control_id [] a₅ left fc₁ i₁ in
      elim (Bool-cases (verdict start_fri_id a₄)) [
        | inl v ↦ (fc₁, fc₂, rw (e₁, v, e₂) refl)
        | inr v ↦ (fc₁, fc₂, rw (e₁, v) refl)
      ]

  module _ {W : Type 0} (reals : Reals Double) (sdk : Sdk W Double) (inet_addr : String → ℕ)
      (bits : Double → ℕ) (addresses : Addresses) (rounds : ℕ) (w : W) where
    abbrev pub activate : List (List ℕ) → FriHardware Double → FriConnection → Finished Double
    activate = on_activate inet_addr bits reals sdk addresses rounds w

    -- The packets that answer the five commands.
    abbrev five : (a₁ a₂ a₃ a₄ a₅ : Answer) → List (List ℕ) → List (List ℕ)
    five a₁ a₂ a₃ a₄ a₅ left =
        packet_of a₁ ∷ packet_of a₂ ∷ packet_of a₃ ∷ packet_of a₄ ∷ packet_of a₅ ∷ left

    -- What the loop of the main thread leaves of the interface with the thread running.
    abbrev after_cyclic : FriHardware Double → FriHardware Double
    after_cyclic hw = (keep_cyclic reals sdk rounds (record hw { thread_running = true }) w).0

    configured_start :
        (a₁ a₂ a₃ a₄ a₅ : Answer) (left : List (List ℕ)) (hw : FriHardware Double)
        (fc : FriConnection)
        → IsIdle fc
        → is_supported (u8 hw.control_mode) ≡ true
        → verdict set_fri_config_id a₁ ≡ true
        → (fc₁ : FriConnection) × (fc₂ : FriConnection) × (activate (five a₁ a₂ a₃ a₄ a₅ left) hw fc
            ≡ (let hw' = after_cyclic hw in
                if verdict start_fri_id a₄
                then joined
                    (control_activated_with
                      (verdict activate_control_id a₅)
                      (record hw' { fri_started = true }))
                    fc₂
                    left
                else joined hw' fc₁ (packet_of a₅ ∷ left)))
    unfolding on_activate set_fri_config
    configured_start a₁ a₂ a₃ a₄ a₅ left hw fc i s v =
        let bytes =
          fri_config_data inet_addr addresses.client_ip addresses.client_port hw.send_period_ms
            hw.receive_multiplier in
        let (fc₁, e₁, i₁) =
          answered set_fri_config_id bytes a₁
            (packet_of a₂ ∷ packet_of a₃ ∷ packet_of a₄ ∷ packet_of a₅ ∷ left) fc i in
        let cyclic : FriHardware Double → FriHardware Double =
          λ hw'. (keep_cyclic reals sdk rounds hw' w).0 in
        let running : FriHardware Double = record hw { thread_running = true } in
        let (fc₃, e₃, i₃) =
          mode_answered inet_addr bits (λ fc₂ left₂. start_motion cyclic left₂ running fc₂) hw a₂ a₃
            (packet_of a₄ ∷ packet_of a₅ ∷ left) fc₁ i₁ s in
        let (fc₄, fc₅, e) = start_answered cyclic a₄ a₅ left running fc₃ i₃ in
        (fc₄, fc₅, rw (e₁, v) (e₃ ∙ e))

    refused_config :
        (a₁ a₂ a₃ a₄ a₅ : Answer) (left : List (List ℕ)) (hw : FriHardware Double)
        (fc : FriConnection)
        → IsIdle fc
        → verdict set_fri_config_id a₁ ≡ false
        → (fc₁ : FriConnection) × (activate (five a₁ a₂ a₃ a₄ a₅ left) hw fc
            ≡ finished error hw fc₁
                (packet_of a₂ ∷ packet_of a₃ ∷ packet_of a₄ ∷ packet_of a₅ ∷ left))
    unfolding on_activate set_fri_config
    refused_config a₁ a₂ a₃ a₄ a₅ left hw fc i v =
        let bytes =
          fri_config_data inet_addr addresses.client_ip addresses.client_port hw.send_period_ms
            hw.receive_multiplier in
        let (fc₁, e₁, i₁) =
          answered set_fri_config_id bytes a₁
            (packet_of a₂ ∷ packet_of a₃ ∷ packet_of a₄ ∷ packet_of a₅ ∷ left) fc i in
        (fc₁, rw (e₁, v) refl)

    -- On a connection that is up with no answer pending, with a control mode that is supported,
    -- with motion neither started nor control activated before, and with one answer to each of the
    -- five commands, an activation returns. It returns SUCCESS exactly if the answers to the
    -- configuration, to the start of FRI and to the activation of control are acceptances with
    -- success, whatever those to the mode are, and then it has reported that control started.
    pub activation_outcome :
        (a₁ a₂ a₃ a₄ a₅ : Answer) (left : List (List ℕ)) (hw : FriHardware Double)
        (fc : FriConnection)
        → IsIdle fc
        → is_supported (u8 hw.control_mode) ≡ true
        → hw.fri_started ≡ false
        → hw.control_activated ≡ false
        → (c : CallbackReturn) × (hw' : FriHardware Double) × (fc' : FriConnection) × (left' : List
            (List ℕ))
          × (on_activate inet_addr bits reals sdk addresses rounds w
                (five a₁ a₂ a₃ a₄ a₅ left)
                hw
                fc
              ≡ finished c hw' fc' left')
          × ((c ≡ success) ↔ (
              (verdict set_fri_config_id a₁
                && verdict start_fri_id a₄
                && verdict activate_control_id a₅)
              ≡ true))
          × (c ≡ success → hw'.last_event ≡ control_started)
    activation_outcome a₁ a₂ a₃ a₄ a₅ left hw fc i s f g =
        let v₁ = verdict set_fri_config_id a₁ in
        let v₄ = verdict start_fri_id a₄ in
        let v₅ = verdict activate_control_id a₅ in
        let running : FriHardware Double = record hw { thread_running = true } in
        let hwc = after_cyclic hw in
        let (f', g', l') = cyclic-Untouched reals sdk rounds running w in
        elim (Bool-cases v₁) [
          | inr e₁ ↦
              let (fc₁, r) = refused_config a₁ a₂ a₃ a₄ a₅ left hw fc i e₁ in
              (error, hw, fc₁, _, r, (λ c. cc, λ h. cc (rw e₁ at h)), λ c. cc)
          | inl e₁ ↦
              let (fc₁, fc₂, r) = configured_start a₁ a₂ a₃ a₄ a₅ left hw fc i s e₁ in
              elim (Bool-cases v₄) [
                | inr e₄ ↦ (
                  failure,
                  record hwc { thread_running = false },
                  fc₁,
                  packet_of a₅ ∷ left,
                  r ∙ rw (e₄, f' ∙ f) refl,
                  (λ c. cc, λ h. cc (rw (e₁, e₄) at h)),
                  λ c. cc,
                )
                | inl e₄ ↦ elim (Bool-cases v₅) [
                  | inr e₅ ↦ (
                    failure,
                    record hwc { fri_started = true; thread_running = false },
                    fc₂,
                    left,
                    r ∙ rw (e₄, e₅, g' ∙ g) refl,
                    (λ c. cc, λ h. cc (rw (e₁, e₄, e₅) at h)),
                    λ c. cc,
                  )
                  | inl e₅ ↦ (
                    success,
                    record hwc {
                      fri_started = true;
                      thread_running = false;
                      control_activated = true;
                      last_event = control_started;
                      counting = record hwc.counting { interpolation_count_initialized = false };
                    },
                    fc₂,
                    left,
                    r ∙ rw (e₄, e₅) refl,
                    (λ c. rw (e₁, e₄, e₅) refl, λ h. refl),
                    λ c. refl,
                  )
                ]
              ]
        ]

    -- After a deactivation that fails because control could not be deactivated, with a control mode
    -- that is supported, an activation in which the controller takes the configuration but refuses
    -- to start FRI returns SUCCESS, without a report that control started: the flags of the
    -- earlier activation stand.
    pub stale_flags_succeed :
        (a₀ a₁ a₂ a₃ a₄ a₅ : Answer) (left : List (List ℕ)) (hw : FriHardware Double)
        (fc : FriConnection)
        → IsIdle fc
        → is_supported (u8 hw.control_mode) ≡ true
        → hw.fri_started ≡ true
        → hw.control_activated ≡ true
        → verdict deactivate_control_id a₀ ≡ false
        → verdict set_fri_config_id a₁ ≡ true
        → verdict start_fri_id a₄ ≡ false
        → (fc₀ : FriConnection) × (on_deactivate (packet_of a₀ ∷ five a₁ a₂ a₃ a₄ a₅ left) hw fc
            ≡ finished error hw fc₀ (five a₁ a₂ a₃ a₄ a₅ left))
          × ((hw' : FriHardware Double) × (fc' : FriConnection) × (left' : List (List ℕ))
              × (on_activate inet_addr bits reals sdk addresses rounds w
                    (five a₁ a₂ a₃ a₄ a₅ left)
                    hw
                    fc₀
                  ≡ finished success hw' fc' left')
              × (hw'.last_event ≡ hw.last_event))
    unfolding on_deactivate deactivate_control
    stale_flags_succeed a₀ a₁ a₂ a₃ a₄ a₅ left hw fc i s f g d v₁ v₄ =
        let packets = five a₁ a₂ a₃ a₄ a₅ left in
        let (fc₀, e₀, i₀) = answered deactivate_control_id [] a₀ packets fc i in
        let (fc₁, fc₂, r) = configured_start a₁ a₂ a₃ a₄ a₅ left hw fc₀ i₀ s v₁ in
        let running : FriHardware Double = record hw { thread_running = true } in
        let hwc = after_cyclic hw in
        let (f', g', l') = cyclic-Untouched reals sdk rounds running w in
        (
          fc₀,
          rw (e₀, d) refl,
          (
            record hwc {
              thread_running = false;
              counting = record hwc.counting { interpolation_count_initialized = false };
            },
            fc₁,
            packet_of a₅ ∷ left,
            r ∙ rw (v₄, f' ∙ f, g' ∙ g) refl,
            l',
          ),
        )
