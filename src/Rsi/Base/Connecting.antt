-- ===== src/Rsi/Base/Connecting.antt =====
-- `on_init`, `on_configure` and the handlers of the connection of
-- kuka_rsi_driver/src/hardware_interface_eki_rsi.cpp and src/hardware_interface_mxa_rsi.cpp, and the
-- part of `SetupRobot` of src/hardware_interface_rsi_base.cpp behind the robot's configuration.
--
-- Texts that are searched are lists of their bytes. std::regex_search, std::stoi and std::stoull are
-- the C++ library's: parameters, with `none` for what does not match or for what is thrown.
pub mod Reconnecting
use kuka_drivers.Prelude.{
  Bool, List, Option, String, [], false, if◌then◌else◌, leb, map, none, not, some, str_eq, true, ℕ,
  ℤ, ◌&&◌, ◌+◌, ◌==◌, ◌>>=◌, ◌∷◌,
}
use kuka_drivers.Rsi.Status.{StatusInterfaces}
use kuka_drivers.Core.Modes.{
  CallbackReturn, command_accepted, control_mode_switch, control_started, control_stopped, error,
  error_event, joint_position_control, success, u8,
}
use kuka_drivers.Rsi.Base.{
  ReturnCode, RsiHardware, initialize_command_interfaces, is_ok_code, set_server_event,
}
use kuka_drivers.Rsi.Base.Reading.{InstalledInterface, eki_rsi, mxa_rsi}
use kuka_drivers.Rsi.Base.Setup.{HardwareInfo}
use kuka_drivers.Rsi.Xml.{Configuration}

pub record InitSequenceReport : Type 0 where
  pub sequence_complete : Bool
  pub ok : Bool

abbrev pub report_of : Bool → InitSequenceReport
report_of ok = record { sequence_complete = true; ok = ok }

abbrev bytes_eq : List ℕ → List ℕ → Bool
bytes_eq [] [] = true
bytes_eq [] (d ∷ ds) = false
bytes_eq (c ∷ cs) [] = false
bytes_eq (c ∷ cs) (d ∷ ds) = c == d && bytes_eq cs ds

abbrev to_lower : ℕ → ℕ
to_lower c = if leb 65 c && leb c 90 then c + 32 else c

-- The bytes before the first space.
abbrev before_space : List ℕ → List ℕ
before_space [] = []
before_space (c ∷ rest) = let more = before_space rest in if c == 32 then [] else c ∷ more

module _ (regex_search : String → List ℕ → Option (List ℕ × List ℕ × List ℕ))
    (stoull : List ℕ → Option ℕ) where
  unfoldable pub get_payload_reach_and_type : List ℕ → String → Option (ℕ × ℕ × List ℕ)
  get_payload_reach_and_type input regex = elim (regex_search regex input) [
    | none ↦ some (0, 0, [])
    | some (payload_text, reach_text, type) ↦ do
      payload ← stoull payload_text
      reach ← stoull reach_text
      some (payload, reach, type)
  ]

  -- `substr(1)` of an empty text throws.
  unfoldable pub process_krc_reported_robot_name : List ℕ → Option (ℕ × ℕ × List ℕ)
  process_krc_reported_robot_name [] = none
  process_krc_reported_robot_name (c ∷ trimmed) =
      get_payload_reach_and_type (map to_lower (before_space trimmed))
        "kr(\\d+)r(\\d+)_*([a-z\\d]*)"

  abbrev same_robot : ℕ × ℕ × List ℕ → ℕ × ℕ × List ℕ → Bool
  same_robot (p_exp, r_exp, t_exp) (p_rep, r_rep, t_rep) =
      p_exp == p_rep && r_exp == r_rep && bytes_eq t_exp t_rep

  -- The parameter `name` of the hardware, the number of its joints, and what the server sends: the
  -- model's name, if it is the data of an EKI server, and the number of axes.
  unfoldable pub eki_init : Option (List ℕ) → ℕ → Option (List ℕ) → ℕ → Option InitSequenceReport
  eki_init name joints model_name axes = do
    expected_name ← name
    expected ← get_payload_reach_and_type expected_name "kr(\\d+)_r(\\d+)_*([a-z\\d]*)"
    elim model_name [
      | none ↦ some (report_of false)
      | some reported_name ↦ do
        reported ← process_krc_reported_robot_name reported_name
        some (
            if not (same_robot expected reported)
            then report_of false
            else if not (joints == axes)
            then report_of false
            else report_of true)
    ]

unfoldable pub mxa_init : ℕ → ℕ → InitSequenceReport
mxa_init joints axes =
    if axes == 0
    then report_of true
    else if not (joints == axes)
    then report_of false
    else report_of true

abbrev pub verifies_model : HardwareInfo → Bool
verifies_model info = elim (info.hardware_parameters "verify_robot_model") [
  | none ↦ false
  | some value ↦ str_eq value "True"
]

module _ {Double : Type 0} where
  -- What both interfaces do with the result of the base class's `on_init`, `none` for ERROR. A
  -- result `none` is the exception of a missing address.
  unfoldable pub extended_init :
      HardwareInfo
      → Option (RsiHardware Double × Configuration × String)
      → Option (Option (RsiHardware Double × Configuration × String × Bool))
  extended_init info none = some none
  extended_init info (some (hw, config, prefix)) = do
    controller_ip ← info.hardware_parameters "controller_ip"
    some (
        some (
          record hw { cycle_time_command = 0; hw_control_mode_command = 0 },
          config,
          prefix,
          verifies_model info,
        ))

module _ {Double : Type 0} where
  -- EventObserver, whose methods the robot library calls.
  unfoldable pub on_sampling : RsiHardware Double → RsiHardware Double
  on_sampling hw = set_server_event control_started hw

  unfoldable pub on_control_mode_switch : RsiHardware Double → RsiHardware Double
  on_control_mode_switch hw = set_server_event control_mode_switch hw

  unfoldable pub on_stopped : RsiHardware Double → RsiHardware Double
  on_stopped hw = set_server_event control_stopped hw

  unfoldable pub on_error : RsiHardware Double → RsiHardware Double
  on_error hw = set_server_event error_event hw

  -- OnConnected of both extensions; the report is what `eki_init` or `mxa_init` makes.
  unfoldable pub on_connected :
      InitSequenceReport → RsiHardware Double → RsiHardware Double × InitSequenceReport
  on_connected report hw = (set_server_event command_accepted hw, report)

  -- StatusUpdateHandler: the interface and `first_update`. The status itself is in the world.
  unfoldable pub on_status_update_received :
      Bool → StatusInterfaces → RsiHardware Double → RsiHardware Double × Bool
  on_status_update_received first_update update hw = (
    if first_update
        then initialize_command_interfaces (u8 update.control_mode) update.cycle_time hw
        else hw,
    false,
  )

-- What the configuration calls of the robot library.
pub record Connection (W : Type 0) : Type 0 where
  pub register_event_handler : W → W × ReturnCode
  pub register_event_handler_extension : W → W × ReturnCode
  pub setup : W → W × ReturnCode
  pub register_status_response_handler : W → W × ReturnCode
  -- `robot_ptr_.reset()`
  pub release : W → W

-- How a configuration ends: with a result, the interface, the report that it keeps and the world.
pub data Configured (W Double : Type 0) : Type 0 where
  configured : CallbackReturn → RsiHardware Double → InitSequenceReport → W → Configured W Double
  waits_for_ever : Configured W Double
  thrown_out : Configured W Double

-- What comes in from the other threads during a configuration: before the wait and during it, that
-- the server has connected, with the verdict of `eki_init` or `mxa_init`; and the first status after
-- the handler for it is registered.
pub record Arriving : Type 0 where
  pub early : Option Bool
  pub late : Option Bool
  pub first_status : Option StatusInterfaces

-- The interface and the report that it keeps.
abbrev pub Kept : Type 0 → Type 0
Kept Double = RsiHardware Double × InitSequenceReport

module _ {Double : Type 0} where
  abbrev pub connected : Option Bool → Kept Double → Kept Double
  connected none kept = kept
  connected (some ok) (hw, report) = on_connected (report_of ok) hw

  abbrev pub status_taken : Option StatusInterfaces → Kept Double → Kept Double
  status_taken none kept = kept
  status_taken (some update) (hw, report) = ((on_status_update_received true update hw).0, report)

  -- What the wait ends with, `none` if it does not end: it does not wait for a new report if one is
  -- kept.
  unfoldable pub wait_for_report : Option Bool → Kept Double → Option (Kept Double)
  unfolding on_connected
  wait_for_report late (hw, report) =
      if report.sequence_complete
      then some (hw, report)
      else elim late [ none ↦ none | some ok ↦ some (on_connected (report_of ok) hw) ]

module _ {W : Type 0} (connection : Connection W) where
  open connection use {register_event_handler, register_event_handler_extension, setup}

  -- The registrations are not fatal.
  unfoldable pub set_up_robot : W → W × Bool
  set_up_robot w =
      let (w₁, handled) = register_event_handler w in
      let (w₂, extended) = register_event_handler_extension w₁ in
      let (w₃, code) = setup w₂ in (w₃, is_ok_code code)

module _ (stoi : String → Option ℤ) where
  -- The addresses and the ports that the configuration reads.
  unfoldable pub read_addresses : InstalledInterface → HardwareInfo → Option (List String × List ℤ)
  read_addresses installed info = do
    controller_ip ← info.hardware_parameters "controller_ip"
    client_ip ← info.hardware_parameters "client_ip"
    client_port ← info.hardware_parameters "client_port"
    port ← stoi client_port
    elim installed [
      | eki_rsi ↦ some (controller_ip ∷ client_ip ∷ [], port ∷ [])
      | mxa_rsi ↦ do
        mxa_client_port ← info.hardware_parameters "mxa_client_port"
        mxa_port ← stoi mxa_client_port
        some (controller_ip ∷ client_ip ∷ [], port ∷ mxa_port ∷ [])
    ]

module _ {W Double : Type 0} (connection : Connection W) (stoi : String → Option ℤ)
    (rsi_4ms : ℕ) where
  open connection use {register_status_response_handler, release}

  abbrev verified : Bool → Option (Kept Double) → W → Configured W Double
  verified verify none w = waits_for_ever
  verified verify (some (hw, report)) w =
      if verify && not report.ok
      then configured error hw report (release w)
      else configured success hw report w

  -- The mxAutomation server does not store control mode and cycle time.
  abbrev pub initialized : InstalledInterface → RsiHardware Double → RsiHardware Double
  initialized eki_rsi hw = hw
  initialized mxa_rsi hw = initialize_command_interfaces joint_position_control rsi_4ms hw

  unfoldable pub connect_robot :
      Bool → Arriving → RsiHardware Double → InitSequenceReport → W → Configured W Double
  unfolding on_connected on_status_update_received
  connect_robot verify arriving hw report w =
      let (w₁, set_up) = set_up_robot connection w in
      let (w₂, code) = register_status_response_handler w₁ in
      let (hw', report') = connected arriving.early (hw, report) in
      if not set_up
      then configured error hw' report' w₁
      else if not (is_ok_code code)
      then configured error hw' report' w₂
      else verified verify
          (wait_for_report arriving.late (status_taken arriving.first_status (hw', report'))) w₂

  abbrev addressed : Option (List String × List ℤ) → Configured W Double → Configured W Double
  addressed none outcome = thrown_out
  addressed (some addresses) outcome = outcome

  unfoldable pub extended_configure :
      InstalledInterface
      → HardwareInfo
      → Arriving
      → RsiHardware Double
      → InitSequenceReport
      → W
      → Configured W Double
  extended_configure installed info arriving hw report w =
      addressed (read_addresses stoi installed info)
        (connect_robot (verifies_model info) arriving (initialized installed hw) report w)
