-- ===== src/Rsi/Xml/Load.antt =====
-- `Load` of kuka_rsi_driver/src/rsi_xml_configuration_parser.cpp.
use kuka_drivers.Prelude.{Bool, Option, String, false, if◌then◌else◌, none, not, some, true, ℕ}
use kuka_drivers.Rsi.Xml.{
  Configuration, ControlSignalXml, MotionStateXml, Parsed, Yaml, child_of, parsed, refused, thrown,
  ◌>>=◌,
}
use kuka_drivers.Rsi.Xml.Motion.{parse_motion_state}
use kuka_drivers.Rsi.Xml.Control.{parse_control_signal}

module _ {Node : Type 0} (yaml : Yaml Node) where
  open yaml use {is_defined}

  module _ (motion_new : MotionStateXml) (control_new : ControlSignalXml) where
    -- What a section makes of the configuration and whether `Load` goes on: it catches what is
    -- thrown.
    abbrev pub section_result : Parsed Configuration → Configuration → Configuration × Bool
    section_result (parsed config') config = (config', true)
    section_result refused config = (config, false)
    section_result thrown config = (config, false)

    abbrev pub parse_section :
        String
        → (Node → Configuration → Parsed Configuration)
        → Node
        → Configuration
        → Configuration × Bool
    parse_section key parse rsi_node config =
        section_result (child_of yaml key rsi_node >>= λ node. parse node config) config

    abbrev parse_sections : ℕ → ℕ → Node → Configuration → Configuration × Bool
    parse_sections joint_count gpio_state_interface_count rsi_node config =
        let (config₁, motion_ok) =
          parse_section "motion_state"
            (parse_motion_state yaml motion_new joint_count gpio_state_interface_count) rsi_node
            config in
        let second =
          parse_section "control_signal" (parse_control_signal yaml control_new) rsi_node config₁ in
        if not motion_ok then (config₁, false) else second

    abbrev pub load_node : Option Node → ℕ → ℕ → Configuration → Configuration × Bool
    load_node none joint_count gpio_state_interface_count config = (config, false)
    load_node (some rsi_node) joint_count gpio_state_interface_count config =
        let result = parse_sections joint_count gpio_state_interface_count rsi_node config in
        if not (is_defined rsi_node) then (config, false) else result

    -- The file is what `YAML::LoadFile` gives for the path.
    unfoldable pub load : Option Node → ℕ → ℕ → Configuration → Configuration × Bool
    load none joint_count gpio_state_interface_count config = (config, false)
    load (some root) joint_count gpio_state_interface_count config =
        load_node (yaml.subscript "rsi_xml_config" root) joint_count gpio_state_interface_count
          config
