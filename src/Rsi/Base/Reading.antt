-- ===== src/Rsi/Base/Reading.antt =====
-- `read` and `Read` of kuka_rsi_driver/src/hardware_interface_eki_rsi.cpp and
-- src/hardware_interface_mxa_rsi.cpp, which look at the status of the robot before they do what the
-- base class does.
use kuka_drivers.Prelude.{
  Bool, Option, ap, arith, false, if◌then◌else◌, inl, inr, not, refl, some, sym, true, ◌&&◌, ◌∙◌,
  ◌≡◌, ◌⊎◌,
}
use kuka_drivers.Core.Modes.{error_event}
use kuka_drivers.Core.Clock.{Clock}
use kuka_drivers.Rsi.Status.{
  StatusInterfaces, drives_are_powered, is_emergency_stop_active, is_motion_possible,
}
use kuka_drivers.Rsi.Base.Received.{received-IsKept}
use kuka_drivers.Rsi.Base.{Robot, RsiHardware, receive, set_server_event}

-- Configuration::InstalledInterface, as far as the code names its values.
pub data InstalledInterface : Type 0 where
  eki_rsi mxa_rsi : InstalledInterface

-- Whether the interface tests that motion is possible.
abbrev tests_motion : InstalledInterface → Bool
tests_motion eki_rsi = false
tests_motion mxa_rsi = true

-- Whether `Read` reports an error. `lifecycle_active` tells whether the component's lifecycle state
-- is active, which it is not yet during an activation.
unfoldable pub reports_error : InstalledInterface → Bool → StatusInterfaces → Bool
reports_error installed lifecycle_active status =
    if is_emergency_stop_active status
    then true
    else if not (drives_are_powered status)
    then true
    else tests_motion installed && not (is_motion_possible status) && lifecycle_active

reports_fault :
    (installed : InstalledInterface) (lifecycle_active : Bool) (status : StatusInterfaces)
    → (is_emergency_stop_active status ≡ true)
      ⊎ (drives_are_powered status ≡ false)
      ⊎ ((installed ≡ mxa_rsi) × (is_motion_possible status ≡ false) × (lifecycle_active ≡ true))
    → reports_error installed lifecycle_active status ≡ true
unfolding reports_error
reports_fault installed lifecycle_active status (inl stop) = rw stop refl
reports_fault installed lifecycle_active status (inr (inl off)) = ground (arith, off)
reports_fault installed lifecycle_active status (inr (inr (mxa, still, on))) =
    let tested : tests_motion installed ≡ true = ap tests_motion mxa in
    ground (arith, tested, still, on)

choose_other : {A : Type 0} (b : Bool) (x y : A) → b ≡ true → (if not b then x else y) ≡ y
choose_other true x y e = refl
choose_other false x y e = cc

module _ {Double : Type 0} where
  -- What `Read` does before the base class's.
  unfoldable pub check_status : InstalledInterface → Bool → RsiHardware Double → RsiHardware Double
  check_status installed lifecycle_active hw =
      if reports_error installed lifecycle_active hw.status
      then set_server_event error_event hw
      else hw

  module _ {W : Type 0} (robot : Robot W Double) (clock : Clock W)
      (actual : W → StatusInterfaces) where
    -- It always returns OK.
    unfoldable pub extended_read :
        InstalledInterface → Bool → RsiHardware Double → W → Option (RsiHardware Double × W)
    extended_read installed lifecycle_active hw w =
        let hw' = record hw { status = actual w; server_state = hw.last_event } in
        if not hw.runtime.is_active
        then some (hw', clock.sleep 2000 w)
        else receive robot 1000 (check_status installed lifecycle_active hw') w

    -- The interface that the base class's `Read` is given.
    abbrev checked_with : InstalledInterface → Bool → RsiHardware Double → W → RsiHardware Double
    checked_with installed lifecycle_active hw w =
        check_status installed lifecycle_active
          (record hw { status = actual w; server_state = hw.last_event })

    read_active :
        (installed : InstalledInterface) (lifecycle_active : Bool) (hw : RsiHardware Double) (w : W)
        → hw.runtime.is_active ≡ true
        → extended_read installed lifecycle_active hw w
          ≡ receive robot 1000 (checked_with installed lifecycle_active hw w) w
    unfolding extended_read
    read_active installed lifecycle_active hw w a = choose_other hw.runtime.is_active _ _ a

    read_error :
        (installed : InstalledInterface) (lifecycle_active : Bool) (hw hw' : RsiHardware Double)
        (w w' : W)
        → hw.runtime.is_active ≡ true
        → reports_error installed lifecycle_active (actual w) ≡ true
        → extended_read installed lifecycle_active hw w ≡ some (hw', w')
        → (hw'.last_event ≡ error_event) × (hw'.runtime.is_active ≡ true)
    unfolding check_status set_server_event
    read_error installed lifecycle_active hw hw' w w' a f e =
        let checked = checked_with installed lifecycle_active hw w in
        let (s, v, on, l) =
          received-IsKept robot 1000 checked hw' w w'
            (sym (read_active installed lifecycle_active hw w a) ∙ e) in
        (l (ground (arith, f)), on ∙ ground arith ∙ a)

    read_publishes :
        (installed : InstalledInterface) (lifecycle_active : Bool) (hw hw' : RsiHardware Double)
        (w w' : W)
        → hw.runtime.is_active ≡ true
        → extended_read installed lifecycle_active hw w ≡ some (hw', w')
        → hw'.server_state ≡ hw.last_event
    unfolding check_status set_server_event
    read_publishes installed lifecycle_active hw hw' w w' a e =
        let checked = checked_with installed lifecycle_active hw w in
        let (s, v, on, l) =
          received-IsKept robot 1000 checked hw' w w'
            (sym (read_active installed lifecycle_active hw w a) ∙ e) in
        v ∙ ground arith

    -- If the status that the robot reports when an active interface reads has an emergency stop, or
    -- the drives off, or, for mxAutomation, no motion possible while the component is active, then
    -- the server state is an error after the next read, whatever motion states are received.
    pub fault_is_reported :
        (installed : InstalledInterface) (lifecycle_active : Bool) (hw hw₁ hw₂ : RsiHardware Double)
        (w w₁ w₂ v : W)
        → hw.runtime.is_active ≡ true
        → (is_emergency_stop_active (actual w) ≡ true)
          ⊎ (drives_are_powered (actual w) ≡ false)
          ⊎ ((installed ≡ mxa_rsi)
              × (is_motion_possible (actual w) ≡ false)
              × (lifecycle_active ≡ true))
        → extended_read installed lifecycle_active hw w ≡ some (hw₁, w₁)
        → extended_read installed lifecycle_active hw₁ v ≡ some (hw₂, w₂)
        → hw₂.server_state ≡ error_event
    fault_is_reported installed lifecycle_active hw hw₁ hw₂ w w₁ w₂ v a f e e' =
        let reported = reports_fault installed lifecycle_active (actual w) f in
        let (l, on) = read_error installed lifecycle_active hw hw₁ w w₁ a reported e in
        read_publishes installed lifecycle_active hw₁ hw₂ v w₂ on e' ∙ l
