-- ===== src/Eac/Hardware/Setup.antt =====
-- The set-up of kuka_iiqka_eac_driver/src/hardware_interface.cpp: `on_init` behind the base class's,
-- and `on_configure`. A result `none` is an exception: `map::at` of a missing parameter, or
-- `std::stoi` of no number. `stoi` is the C++ library's.
use Prim.Native.String.{◌++◌ as append}
use kuka_drivers.Prelude.{
  All, Bool, Bool-cases, List, Option, String, [], false, if◌then◌else◌, inl, inr, length,
  length-resize, none, not, refl, resize, some, true, ℤ, ◌>>=◌, ◌↔◌, ◌∷◌, ◌≡◌,
}
use kuka_drivers.Core.Modes.{CallbackReturn, failure, success}
use kuka_drivers.Core.Validator.{JointInfo, contains}
use kuka_drivers.Core.Validator.Joints.{Declares, check_joints, check_joints_exact}
use kuka_drivers.Eac.Hardware.Holding.{IsSized}
use kuka_drivers.Eac.Hardware.{EacHardware, Robot, is_ok_code}

abbrev pub command_names : List String
command_names = "position" ∷ "stiffness" ∷ "damping" ∷ "effort" ∷ []

abbrev pub state_names : List String
state_names = "position" ∷ "effort" ∷ "commanded_position" ∷ []

-- info_, as far as it is read; the parameters are a map.
pub record HardwareInfo : Type 0 where
  pub name : String
  pub is_async : Bool
  pub joints : List JointInfo
  pub hardware_parameters : String → Option String

abbrev pub interface_prefix : HardwareInfo → String
interface_prefix info = elim (info.hardware_parameters "interface_prefix") [
  | none ↦ append info.name "/"
  | some prefix ↦ prefix
]

module _ {Double : Type 0} where
  -- The vectors, with `none_yet`, `stiffness` and `damping` the doubles 0.0, 30 and 0.7, and the
  -- interfaces' prefix. `false` is the result ERROR.
  unfoldable pub on_init :
      (none_yet stiffness damping : Double)
      → HardwareInfo
      → EacHardware Double
      → Option (EacHardware Double × String × Bool)
  on_init none_yet stiffness damping info hw =
      let n = length info.joints in
      let hw' = record hw {
        position_states = resize n none_yet hw.position_states;
        commanded_position_states = resize n none_yet hw.commanded_position_states;
        torque_states = resize n none_yet hw.torque_states;
        position_commands = resize n none_yet hw.position_commands;
        torque_commands = resize n none_yet hw.torque_commands;
        stiffness_commands = resize n stiffness hw.stiffness_commands;
        damping_commands = resize n damping hw.damping_commands;
      } in
      if not (check_joints command_names state_names info.joints) then some (hw', "", false) else do
        controller_ip ← info.hardware_parameters "controller_ip"
        client_ip ← info.hardware_parameters "client_ip"
        some (
          record hw' { counting = record hw'.counting { is_async_hardware = info.is_async } },
          interface_prefix info,
          true,
        )

  -- If the addresses of the controller and of the client are given, then `on_init` returns, with
  -- SUCCESS exactly if every joint declares the expected names of its command interfaces and of its
  -- state interfaces in some order, and the vectors have one value for each joint.
  on_init_outcome :
      (none_yet stiffness damping : Double) (info : HardwareInfo) (hw : EacHardware Double)
      (controller_ip client_ip : String)
      → info.hardware_parameters "controller_ip" ≡ some controller_ip
      → info.hardware_parameters "client_ip" ≡ some client_ip
      → (hw' : EacHardware Double) × (prefix : String) × (ok : Bool) × (on_init none_yet stiffness
            damping info hw
          ≡ some (hw', prefix, ok))
        × IsSized (length info.joints) hw'
        × ((ok ≡ true) ↔ All (Declares command_names state_names) info.joints)
  unfolding on_init contains
  on_init_outcome none_yet stiffness damping info hw controller_ip client_ip c k =
      let n = length info.joints in
      let resized : EacHardware Double = record hw {
        position_states = resize n none_yet hw.position_states;
        commanded_position_states = resize n none_yet hw.commanded_position_states;
        torque_states = resize n none_yet hw.torque_states;
        position_commands = resize n none_yet hw.position_commands;
        torque_commands = resize n none_yet hw.torque_commands;
        stiffness_commands = resize n stiffness hw.stiffness_commands;
        damping_commands = resize n damping hw.damping_commands;
      } in
      let sized : IsSized n resized = record {
        position_states = length-resize n none_yet hw.position_states;
        position_commands = length-resize n none_yet hw.position_commands;
        commanded_position_states = length-resize n none_yet hw.commanded_position_states;
        torque_states = length-resize n none_yet hw.torque_states;
      } in
      let exact = check_joints_exact command_names state_names info.joints refl refl in
      elim (Bool-cases (check_joints command_names state_names info.joints)) [
        | inr e ↦ (resized, "", false, rw e refl, sized, rw e at exact)
        | inl e ↦ (
          record resized { counting = record hw.counting { is_async_hardware = info.is_async } },
          interface_prefix info,
          true,
          rw (e, c, k) refl,
          record {
            position_states = sized.position_states;
            position_commands = sized.position_commands;
            commanded_position_states = sized.commanded_position_states;
            torque_states = sized.torque_states;
          },
          rw e at exact,
        )
      ]

  module _ {W : Type 0} (robot : Robot W Double) (stoi : String → Option ℤ) where
    unfoldable pub setup_robot : HardwareInfo → W → Option (W × Bool)
    setup_robot info w = do
      client_ip ← info.hardware_parameters "client_ip"
      controller_ip ← info.hardware_parameters "controller_ip"
      some (let (w', status) = robot.setup w in (w', is_ok_code status))

    unfoldable pub setup_qos : HardwareInfo → W → Option (W × Bool)
    setup_qos info w = do
      lost ← info.hardware_parameters "lost_packets_in_timeframe"
      packet_loss_in_timeframe_limit ← stoi lost
      consequent ← info.hardware_parameters "consequent_lost_packets"
      consecutive_packet_loss_limit ← stoi consequent
      timeframe ← info.hardware_parameters "timeframe_ms"
      timeframe_ms ← stoi timeframe
      some (
          let (w', status) =
            robot.set_qos_profile packet_loss_in_timeframe_limit consecutive_packet_loss_limit
              timeframe_ms w in
          (w', is_ok_code status))

    abbrev configured : Option (W × Bool) → Option (W × CallbackReturn)
    configured none = none
    configured (some (w, ok)) = some (w, if ok then success else failure)

    unfoldable pub on_configure : HardwareInfo → W → Option (W × CallbackReturn)
    on_configure info w = do
      (w', ok) ← setup_robot info w
      if not ok then some (w', failure) else configured (setup_qos info w')

    -- The parameters of the quality of service, as the profile has them.
    pub record IsProfile (info : HardwareInfo) (lost consequent timeframe : ℤ) : Type 0 where
      pub lost_text : String
      pub lost_given : info.hardware_parameters "lost_packets_in_timeframe" ≡ some lost_text
      pub lost_number : stoi lost_text ≡ some lost
      pub consequent_text : String
      pub consequent_given :
          info.hardware_parameters "consequent_lost_packets" ≡ some consequent_text
      pub consequent_number : stoi consequent_text ≡ some consequent
      pub timeframe_text : String
      pub timeframe_given : info.hardware_parameters "timeframe_ms" ≡ some timeframe_text
      pub timeframe_number : stoi timeframe_text ≡ some timeframe

    -- If both addresses are given and the three parameters of the quality of service are numbers,
    -- then a configuration returns: SUCCESS exactly if the robot accepts the set-up and then the
    -- profile with those numbers, and it does not ask for the profile if the set-up fails.
    on_configure_outcome :
        (info : HardwareInfo) (client_ip controller_ip : String) (lost consequent timeframe : ℤ)
        (w : W)
        → info.hardware_parameters "client_ip" ≡ some client_ip
        → info.hardware_parameters "controller_ip" ≡ some controller_ip
        → IsProfile info lost consequent timeframe
        → let (w₁, set_up) = robot.setup w in
          let (w₂, profiled) = robot.set_qos_profile lost consequent timeframe w₁ in
          on_configure info w ≡ (
            if is_ok_code set_up
            then some (w₂, if is_ok_code profiled then success else failure)
            else some (w₁, failure))
    unfolding on_configure setup_robot setup_qos
    on_configure_outcome info client_ip controller_ip lost consequent timeframe w c k p =
        elim (Bool-cases (is_ok_code (robot.setup w).1)) [
          | inl e ↦
              rw
                (
                  c, k, e, p.lost_given, p.lost_number, p.consequent_given, p.consequent_number,
                  p.timeframe_given, p.timeframe_number,
                )
                refl
          | inr e ↦ rw (c, k, e) refl
        ]
