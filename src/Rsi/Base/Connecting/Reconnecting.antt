-- ===== src/Rsi/Base/Connecting/Reconnecting.antt =====
-- What the report of one connection does to the next.
use kuka_drivers.Prelude.{
  Bool, Bool-cases, Option, Option-cases, String, ap, inl, inr, none, not, refl, some, sym, true, ℕ,
  ℤ, ◌&&◌, ◌∙◌, ◌≡◌, ◌≢◌,
}
use kuka_drivers.Core.Modes.{success}
use kuka_drivers.Rsi.Base.{RsiHardware, is_ok_code}
use kuka_drivers.Rsi.Base.Reading.{InstalledInterface}
use kuka_drivers.Rsi.Base.Setup.{HardwareInfo}
use kuka_drivers.Rsi.Base.Connecting.{
  Arriving, Connection, InitSequenceReport, Kept, configured, connect_robot, connected,
  extended_configure, initialized, on_connected, read_addresses, report_of, set_up_robot,
  status_taken, verifies_model, wait_for_report, waits_for_ever,
}

module _ {Double : Type 0} where
  -- The wait ends with a report that is complete.
  waited_complete :
      (late : Option Bool) (kept kept' : Kept Double)
      → wait_for_report late kept ≡ some kept'
      → kept'.1.sequence_complete ≡ true
  unfolding wait_for_report on_connected
  waited_complete late (hw, report) kept' e = elim (Bool-cases report.sequence_complete) [
    | inl complete ↦
        let same : (hw, report) ≡ kept' = cc (rw complete at e) in
        ap (λ (k : Kept Double). k.1.sequence_complete) (sym same) ∙ complete
    | inr waiting ↦ elim (Option-cases late) [
      | inl never ↦ cc (rw (waiting, never) at e)
      | inr (ok, comes) ↦
          let same : on_connected (report_of ok) hw ≡ kept' = cc (rw (waiting, comes) at e) in
          ap (λ (k : Kept Double). k.1.sequence_complete) (sym same)
    ]
  ]

module _ {W Double : Type 0} (connection : Connection W) (stoi : String → Option ℤ)
    (rsi_4ms : ℕ) where
  -- A configuration that succeeds keeps a complete report.
  connected_complete :
      (verify : Bool) (arriving : Arriving) (hw hw' : RsiHardware Double)
      (report report' : InitSequenceReport) (w w' : W)
      → connect_robot connection stoi rsi_4ms verify arriving hw report w
        ≡ configured success hw' report' w'
      → report'.sequence_complete ≡ true
  unfolding connect_robot
  connected_complete verify arriving hw hw' report report' w w' e =
      let w₁ = (set_up_robot connection w).0 in
      let code = (connection.register_status_response_handler w₁).1 in
      let kept = status_taken arriving.first_status (connected arriving.early (hw, report)) in
      elim (Bool-cases (set_up_robot connection w).1) [
        | inr s ↦ cc (rw s at e)
        | inl s ↦ elim (Bool-cases (is_ok_code code)) [
          | inr c ↦ cc (rw (s, c) at e)
          | inl c ↦ elim (Option-cases (wait_for_report arriving.late kept)) [
            | inl never ↦ cc (rw (s, c, never) at e)
            | inr (kept', ends) ↦ elim (Bool-cases (verify && not kept'.1.ok)) [
              | inl refused ↦ cc (rw (s, c, ends, refused) at e)
              | inr fits ↦
                  let same : kept'.1 ≡ report' = cc (rw (s, c, ends, fits) at e) in
                  ap (λ (r : InitSequenceReport). r.sequence_complete) (sym same)
                  ∙ waited_complete arriving.late kept kept' ends
            ]
          ]
        ]
      ]

  -- With a complete report kept and no new one before the wait, a configuration ends.
  connects_at_once :
      (verify : Bool) (late : Option Bool) (hw : RsiHardware Double) (report : InitSequenceReport)
      (w : W)
      → report.sequence_complete ≡ true
      → connect_robot connection stoi rsi_4ms verify
          (record { early = none; late = late; first_status = none })
          hw
          report
          w
        ≢ waits_for_ever
  unfolding connect_robot wait_for_report
  connects_at_once verify late hw report w complete e =
      let w₁ = (set_up_robot connection w).0 in
      let code = (connection.register_status_response_handler w₁).1 in
      elim (Bool-cases (set_up_robot connection w).1) [
        | inr s ↦ cc (rw s at e)
        | inl s ↦ elim (Bool-cases (is_ok_code code)) [
          | inr c ↦ cc (rw (s, c) at e)
          | inl c ↦ elim (Bool-cases (verify && not report.ok)) [
            | inl refused ↦ cc (rw (s, c, complete, refused) at e)
            | inr fits ↦ cc (rw (s, c, complete, fits) at e)
          ]
        ]
      ]

  -- After a configuration that succeeds, whatever came in during it, a later configuration in which
  -- the server connects only during the wait, or never, does not wait for it: it ends, and in the
  -- same way in both cases.
  pub late_report_ignored :
      (installed : InstalledInterface) (info : HardwareInfo) (arriving : Arriving)
      (hw hw₁ hw₂ : RsiHardware Double) (report report₁ : InitSequenceReport) (w w₁ w₂ : W)
      (late : Bool)
      → extended_configure connection stoi rsi_4ms installed info arriving hw report w
        ≡ configured success hw₁ report₁ w₁
      → let configure_again = λ (late : Option Bool).
        extended_configure connection stoi rsi_4ms installed info
          (record { early = none; late = late; first_status = none })
          hw₂
          report₁
          w₂ in
        (configure_again (some late) ≡ configure_again none)
        × (configure_again none ≢ waits_for_ever)
  unfolding extended_configure connect_robot wait_for_report
  late_report_ignored installed info arriving hw hw₁ hw₂ report report₁ w w₁ w₂ late e =
      elim (Option-cases (read_addresses stoi installed info)) [
        | inl missing ↦ cc (rw missing at e)
        | inr (addresses, given) ↦
            let complete =
              connected_complete (verifies_model info) arriving
                (initialized connection stoi rsi_4ms installed hw) hw₁ report report₁ w w₁
                (rw given at e) in
            (
              rw (given, complete) refl,
              rw given (
                  connects_at_once (verifies_model info) none
                    (initialized connection stoi rsi_4ms installed hw₂) report₁ w₂ complete),
            )
      ]
