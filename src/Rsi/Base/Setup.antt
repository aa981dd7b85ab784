-- ===== src/Rsi/Base/Setup.antt =====
-- `on_init` of kuka_rsi_driver/src/hardware_interface_rsi_base.cpp, behind the base class's, and
-- `ParseGPIOConfig`. `stod` is the C++ library's, with `none` for what it throws.
use Prim.Native.String.{◌++◌ as append}
use kuka_drivers.Prelude.{
  Bool, List, Option, String, [], any, false, if◌then◌else◌, length, map, none, not, resize, some,
  str_eq, true, ℕ, ◌&&◌, ◌++◌, ◌==◌, ◌||◌, ◌∷◌,
}
use kuka_drivers.Core.Modes.{hardware_event_unspecified}
use kuka_drivers.Core.Validator.{JointInfo}
use kuka_drivers.Core.Validator.Joints.{check_joints}
use kuka_drivers.Rsi.Xml.{
  Configuration, ControlSignalXml, JointField, MotionStateSignalType, MotionStateXml, Yaml,
  position_signal, torque_signal, velocity_signal,
}
use kuka_drivers.Rsi.Xml.Load.{load}
use kuka_drivers.Rsi.Base.{Flags, RsiHardware}
use kuka_drivers.Rsi.Base.Gpio.{states_to_commands_map}

abbrev interface_names : List String
interface_names = "position" ∷ "velocity" ∷ "effort" ∷ []

-- hardware_interface::InterfaceInfo
pub record InterfaceInfo : Type 0 where
  pub name : String
  pub data_type : String
  pub initial_value : String
  pub enable_limits : Bool
  pub min : String
  pub max : String

pub record GpioInfo : Type 0 where
  pub name : String
  pub command_interfaces : List InterfaceInfo
  pub state_interfaces : List InterfaceInfo

-- info_, as far as it is read; the parameters are a map.
pub record HardwareInfo : Type 0 where
  pub name : String
  pub is_async : Bool
  pub joints : List JointInfo
  pub gpios : List GpioInfo
  pub hardware_parameters : String → Option String

abbrev pub velocity_type : MotionStateSignalType → Bool
velocity_type position_signal = false
velocity_type velocity_signal = true
velocity_type torque_signal = false

abbrev pub torque_type : MotionStateSignalType → Bool
torque_type position_signal = false
torque_type velocity_signal = false
torque_type torque_signal = true

abbrev pub any_of_type : (MotionStateSignalType → Bool) → List JointField → Bool
any_of_type p fields = any (λ (f : JointField). p f.signal_type) fields

-- The flags of the optional interfaces, by the configuration that was read.
abbrev pub motion_flags : Option MotionStateXml → Flags → Flags
motion_flags none flags = flags
motion_flags (some xml) flags = record flags {
  has_velocity_state_interface = any_of_type velocity_type xml.joint_fields;
  has_torque_state_interface = any_of_type torque_type xml.joint_fields;
}

abbrev control_flags : Option ControlSignalXml → Flags → Flags
control_flags none flags = flags
control_flags (some xml) flags = record flags {
  has_velocity_command_interface =
      xml.velocities.include_values || xml.ext_velocities.include_values;
  has_torque_command_interface = xml.torques.include_values || xml.ext_torques.include_values;
}

abbrev no_config : Configuration
no_config = record { motion_state_xml_config = none; control_signal_xml_config = none }

abbrev interface_prefix_of : HardwareInfo → String
interface_prefix_of info = elim (info.hardware_parameters "interface_prefix") [
  | none ↦ append info.name "/"
  | some prefix ↦ prefix
]

abbrev pub names_of : List InterfaceInfo → List String
names_of interfaces = map (λ (i : InterfaceInfo). i.name) interfaces

-- `load_file` is `YAML::LoadFile`.
module _ {Node Double : Type 0} (yaml : Yaml Node) (load_file : String → Option Node)
    (motion_new : MotionStateXml) (control_new : ControlSignalXml)
    (quiet_nan zero_double : Double) where
  -- `LoadXmlConfig`, for one GPIO
  unfoldable pub load_xml_config : HardwareInfo → GpioInfo → String → Configuration × Bool
  load_xml_config info gpio path =
      load yaml motion_new control_new (load_file path) (length info.joints)
        (length gpio.state_interfaces) no_config

  -- The configuration of the file that is named, if one is; `false` if it is not accepted.
  unfoldable pub read_config : HardwareInfo → GpioInfo → Configuration × Bool
  read_config info gpio = elim (info.hardware_parameters "rsi_xml_config_file") [
    | none ↦ (no_config, true)
    | some path ↦ if str_eq path "" then (no_config, true) else load_xml_config info gpio path
  ]

  abbrev sized : ℕ → RsiHardware Double → RsiHardware Double
  sized n hw = record hw {
    position_states = resize n quiet_nan hw.position_states;
    velocity_states = resize n quiet_nan hw.velocity_states;
    torque_states = resize n quiet_nan hw.torque_states;
    position_commands = resize n quiet_nan hw.position_commands;
    velocity_commands = resize n quiet_nan hw.velocity_commands;
    torque_commands = resize n quiet_nan hw.torque_commands;
  }

  abbrev with_gpio :
      HardwareInfo → GpioInfo → Configuration → RsiHardware Double → RsiHardware Double
  with_gpio info gpio config hw = record hw {
    flags =
        control_flags config.control_signal_xml_config
          (motion_flags config.motion_state_xml_config hw.flags);
    gpio_states_to_commands_map =
        hw.gpio_states_to_commands_map
        ++ states_to_commands_map (names_of gpio.command_interfaces)
            (names_of gpio.state_interfaces);
    gpio_states = resize (length gpio.state_interfaces) zero_double hw.gpio_states;
    gpio_commands = resize (length gpio.command_interfaces) zero_double hw.gpio_commands;
    server_state = hardware_event_unspecified;
    runtime = record hw.runtime { is_async_hardware = info.is_async };
  }

  -- The interface, the configuration that it keeps and its prefix, or that the result is ERROR.
  -- Without a GPIO the code reads the first one out of bounds if a file is named, before it checks
  -- their number; here the result is ERROR.
  unfoldable pub on_init :
      HardwareInfo → RsiHardware Double → Option (RsiHardware Double × Configuration × String)
  on_init info hw = elim info.gpios [
    | [] ↦ none
    | gpio ∷ gpios ↦
        let (config, ok) = read_config info gpio in
        let hw' = with_gpio info gpio config (sized (length info.joints) hw) in
        if not (check_joints interface_names interface_names info.joints)
        then none
        else if not ok
        then none
        else if not (length info.gpios == 1)
        then none
        else if not (str_eq gpio.name "gpio")
        then none
        else some (hw', config, interface_prefix_of info)
  ]

pub data GpioValueType : Type 0 where
  unspecified_value bool_value double_value long_value : GpioValueType

pub record GpioConfiguration (Double : Type 0) : Type 0 where
  pub name : String
  pub value_type : GpioValueType
  pub initial_value : Double
  pub enable_limits : Bool
  -- not set if there is no number
  pub min_value : Option Double
  pub max_value : Option Double

module _ {Double : Type 0} (stod : String → Option Double) (above : Double → Double → Bool)
    (zero_double : Double) where
  abbrev number_of : String → Option Double
  number_of text = if str_eq text "" then none else stod text

  abbrev value_type_of : String → GpioValueType
  value_type_of data_type =
      if str_eq data_type "BOOL" || str_eq data_type "bool"
      then bool_value
      else if str_eq data_type "DOUBLE" || str_eq data_type "double"
      then double_value
      else if str_eq data_type "LONG"
      then long_value
      else unspecified_value

  -- `above x y` is x > y; limits that are not both numbers, or the wrong way round, are not used.
  abbrev limits_hold : Option Double → Option Double → Bool
  limits_hold none max = false
  limits_hold (some min) none = false
  limits_hold (some min) (some max) = not (above min max)

  unfoldable pub parse_gpio_config : InterfaceInfo → GpioConfiguration Double
  parse_gpio_config info = record {
    name = info.name;
    value_type = value_type_of info.data_type;
    initial_value = elim (number_of info.initial_value) [ none ↦ zero_double | some value ↦ value ];
    enable_limits = info.enable_limits && limits_hold (number_of info.min) (number_of info.max);
    min_value = number_of info.min;
    max_value = number_of info.max;
  }
