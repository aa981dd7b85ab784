-- ===== src/Fri/Hardware/Setup.antt =====
-- `on_init` of kuka_sunrise_fri_driver/src/hardware_interface.cpp, behind the base class's. A result
-- `none` is an exception: `map::at` of a missing parameter, `std::stoi` or `std::stod` of no number,
-- or an unsupported type of GPIO. `stoi` and `stod` are the C++ library's.
use Prim.Native.String.{◌++◌ as append}
use kuka_drivers.Prelude.{
  All, Bool, Bool-cases, List, Option, Option-cases, String, [], ap, arith, false, if◌then◌else◌,
  inl, inr, length, ltb, none, refl, resize, some, str_eq, sym, true, ℕ, ℤ, ◌++◌, ◌>>=◌, ◌||◌, ◌∙◌,
  ◌∷◌, ◌≡◌, ◌≤◌,
}
use kuka_drivers.Core.Validator.{JointInfo, contains}
use kuka_drivers.Core.Validator.Joints.{Declares, check_joints, check_joints_exact}
use kuka_drivers.Fri.Client.{FriHardware, Gpio, IoTypes, analog, boolean, digital}

abbrev pub command_names : List String
command_names = "position" ∷ "stiffness" ∷ "damping" ∷ "effort" ∷ []

abbrev pub state_names : List String
state_names = "position" ∷ "effort" ∷ "external_torque" ∷ "commanded_position" ∷ []

-- hardware_interface::InterfaceInfo, as far as it is read.
pub record InterfaceInfo : Type 0 where
  pub name : String
  pub data_type : String
  pub initial_value : String

pub record GpioInfo : Type 0 where
  pub command_interfaces : List InterfaceInfo
  pub state_interfaces : List InterfaceInfo

-- info_, as far as it is read; the parameters are a map.
pub record HardwareInfo : Type 0 where
  pub name : String
  pub is_async : Bool
  pub joints : List JointInfo
  pub gpios : List GpioInfo
  pub hardware_parameters : String → Option String

-- The members that only `on_init` writes.
pub record Settings : Type 0 where
  pub controller_ip : String
  pub client_ip : String
  pub client_port : ℤ
  pub interface_prefix : String

unfoldable pub get_type : String → Option IoTypes
get_type type_string =
    if str_eq type_string "analog"
    then some analog
    else if str_eq type_string "digital"
    then some digital
    else if str_eq type_string "boolean"
    then some boolean
    else none

abbrev interface_prefix_of : HardwareInfo → String
interface_prefix_of info = elim (info.hardware_parameters "interface_prefix") [
  | none ↦ append info.name "/"
  | some prefix ↦ prefix
]

module _ {Double : Type 0} (stoi : String → Option ℤ) (stod : String → Option Double)
    (zero_double unset : Double) where
  -- The two loops over the interfaces of the GPIO. A reader's value is not initialized: `unset`.
  unfoldable pub make_outputs : List InterfaceInfo → Option (List (Gpio Double))
  unfolding get_type
  make_outputs [] = some []
  make_outputs (state_if ∷ state_ifs) = do
    type ← get_type state_if.data_type
    outputs ← make_outputs state_ifs
    some (record { name = state_if.name; type = type; data_ = unset } ∷ outputs)

  unfoldable pub make_inputs : List InterfaceInfo → Option (List (Gpio Double))
  unfolding get_type
  make_inputs [] = some []
  make_inputs (command_if ∷ command_ifs) = do
    type ← get_type command_if.data_type
    initial ← stod command_if.initial_value
    inputs ← make_inputs command_ifs
    some (record { name = command_if.name; type = type; data_ = initial } ∷ inputs)

  unfoldable pub read_settings : HardwareInfo → Option Settings
  read_settings info = do
    controller_ip ← info.hardware_parameters "controller_ip"
    client_ip ← info.hardware_parameters "client_ip"
    port ← info.hardware_parameters "client_port"
    client_port ← stoi port
    some (record {
      controller_ip = controller_ip;
      client_ip = client_ip;
      client_port = client_port;
      interface_prefix = interface_prefix_of info;
    })

  abbrev sized : ℕ → FriHardware Double → FriHardware Double
  sized n hw = record hw {
    position_states = resize n zero_double hw.position_states;
    commanded_position_states = resize n zero_double hw.commanded_position_states;
    position_commands = resize n zero_double hw.position_commands;
    stiffness_commands = resize n zero_double hw.stiffness_commands;
    damping_commands = resize n zero_double hw.damping_commands;
    torque_states = resize n zero_double hw.torque_states;
    ext_torque_states = resize n zero_double hw.ext_torque_states;
    torque_commands = resize n zero_double hw.torque_commands;
  }

  -- Whether there is exactly one GPIO, with at most ten interfaces of each kind: the GPIO.
  unfoldable pub single_gpio : List GpioInfo → Option GpioInfo
  single_gpio [] = none
  single_gpio (gpio ∷ []) =
      if ltb 10 (length gpio.command_interfaces) || ltb 10 (length gpio.state_interfaces)
      then none
      else some gpio
  single_gpio (gpio ∷ gpio' ∷ gpios) = none

  abbrev with_gpio :
      HardwareInfo → FriHardware Double → Option GpioInfo → Option (FriHardware Double × Bool)
  with_gpio info hw none = some (hw, false)
  with_gpio info hw (some gpio) = do
    outputs ← make_outputs gpio.state_interfaces
    inputs ← make_inputs gpio.command_interfaces
    some (
      record hw {
        gpio_outputs = hw.gpio_outputs ++ outputs;
        gpio_inputs = hw.gpio_inputs ++ inputs;
      },
      check_joints command_names state_names info.joints,
    )

  -- `false` is the result ERROR.
  unfoldable pub on_init :
      HardwareInfo → FriHardware Double → Option (Settings × FriHardware Double × Bool)
  on_init info hw = do
    settings ← read_settings info
    made ←
        with_gpio info
          (record (sized (length info.joints) hw) {
            counting = record hw.counting { is_async_hardware = info.is_async };
          })
          (single_gpio info.gpios)
    some (settings, made.0, made.1)

  with_gpio_accepted :
      (info : HardwareInfo) (hw hw' : FriHardware Double) (o : Option GpioInfo)
      → with_gpio info hw o ≡ some (hw', true)
      → (gpio : GpioInfo) × (o ≡ some gpio)
        × (check_joints command_names state_names info.joints ≡ true)
  with_gpio_accepted info hw hw' none e = cc
  with_gpio_accepted info hw hw' (some gpio) e =
      elim (Option-cases (make_outputs gpio.state_interfaces)) [
        | inl n ↦ cc (rw n at e)
        | inr (outputs, n) ↦ elim (Option-cases (make_inputs gpio.command_interfaces)) [
          | inl m ↦ cc (rw (n, m) at e)
          | inr (inputs, m) ↦ (gpio, refl, ground (arith, rw (n, m) at e))
        ]
      ]

  single_gpio_found :
      (gpios : List GpioInfo) (gpio : GpioInfo)
      → single_gpio gpios ≡ some gpio
      → (gpios ≡ gpio ∷ [])
        × (length gpio.command_interfaces ≤ 10)
        × (length gpio.state_interfaces ≤ 10)
  unfolding single_gpio
  single_gpio_found [] gpio e = cc
  single_gpio_found (g ∷ []) gpio e =
      elim (Bool-cases
        (ltb 10 (length g.command_interfaces) || ltb 10 (length g.state_interfaces))) [
          | inl t ↦ cc (rw t at e)
          | inr f ↦
              let same : g ≡ gpio = cc (rw f at e) in
              (ap (λ x. x ∷ []) same, rw (sym same) (ground arith), rw (sym same) (ground arith))
        ]
  single_gpio_found (g ∷ g' ∷ gpios) gpio e = cc

  -- An `on_init` that succeeds has found exactly one GPIO, with at most ten command interfaces and
  -- at most ten state interfaces, and every joint declares the expected names of its command
  -- interfaces and of its state interfaces in some order.
  on_init_accepts :
      (info : HardwareInfo) (hw hw' : FriHardware Double) (settings : Settings)
      → on_init info hw ≡ some (settings, hw', true)
      → (gpio : GpioInfo) × (info.gpios ≡ gpio ∷ [])
        × (length gpio.command_interfaces ≤ 10)
        × (length gpio.state_interfaces ≤ 10)
        × All (Declares command_names state_names) info.joints
  unfolding on_init contains
  on_init_accepts info hw hw' settings e =
      let hw₁ : FriHardware Double = record (sized (length info.joints) hw) {
        counting = record hw.counting { is_async_hardware = info.is_async };
      } in
      let exact = check_joints_exact command_names state_names info.joints refl refl in
      elim (Option-cases (read_settings info)) [
        | inl n ↦ cc (rw n at e)
        | inr (s, n) ↦ elim (Option-cases (with_gpio info hw₁ (single_gpio info.gpios))) [
          | inl m ↦ cc (rw (n, m) at e)
          | inr ((hw₂, ok), m) ↦
              let yes : ok ≡ true = cc (rw (n, m) at e) in
              let (gpio, found, checked) =
                with_gpio_accepted info hw₁ hw₂ (single_gpio info.gpios)
                  (m ∙ ap (λ b. some (hw₂, b)) yes) in
              let (one, c, st) = single_gpio_found info.gpios gpio found in
              (gpio, one, c, st, exact.0 checked)
        ]
      ]
