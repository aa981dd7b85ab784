-- ===== src/Rsi/Xml/Control.antt =====
-- The section control_signal of the file: the methods of
-- kuka_rsi_driver/src/rsi_xml_configuration_parser.cpp from ParseControlSignal on that read it.
use kuka_drivers.Prelude.{if◌then◌else◌, not, some, true}
use kuka_drivers.Rsi.Xml.{
  Configuration, ControlSignalXml, OptionalXmlGroup, Parsed, XmlGroup, Yaml, bool_of, child_of,
  if_found, parse_xml_attributes, parse_xml_element, parsed, ◌>>=◌,
}

module _ {Node : Type 0} (yaml : Yaml Node) where
  open yaml use {is_defined}

  unfoldable pub parse_control_signal_joint_group : Node → XmlGroup → Parsed XmlGroup
  parse_control_signal_joint_group node xml =
      let parse = do
        xml_element ← parse_xml_element yaml node xml.xml_element
        xml_attributes ← parse_xml_attributes yaml node xml.xml_attributes
        parsed (record { xml_element = xml_element; xml_attributes = xml_attributes })
      in if not (is_defined node) then parsed xml else parse

  unfoldable pub parse_control_signal_optional_group :
      Node → OptionalXmlGroup → Parsed OptionalXmlGroup
  parse_control_signal_optional_group node xml =
      let parse = do
        include_values ← if_found yaml "enabled" node (bool_of yaml) true
        xml_element ← parse_xml_element yaml node xml.group.xml_element
        xml_attributes ← parse_xml_attributes yaml node xml.group.xml_attributes
        parsed (record {
          include_values = include_values;
          group = record { xml_element = xml_element; xml_attributes = xml_attributes };
        })
      in if not (is_defined node) then parsed xml else parse

  module _ (control_new : ControlSignalXml) where
    unfoldable pub control_signal_sections : Node → Parsed ControlSignalXml
    control_signal_sections node = do
      joints ← child_of yaml "joints" node
      joint_xml ← parse_control_signal_joint_group joints control_new.joints
      ext_joints ← child_of yaml "ext_joints" node
      ext_joint_xml ← parse_control_signal_joint_group ext_joints control_new.ext_joints
      velocities ← child_of yaml "velocities" node
      velocity_xml ← parse_control_signal_optional_group velocities control_new.velocities
      ext_velocities ← child_of yaml "ext_velocities" node
      ext_velocity_xml ←
          parse_control_signal_optional_group ext_velocities control_new.ext_velocities
      torques ← child_of yaml "torques" node
      torque_xml ← parse_control_signal_optional_group torques control_new.torques
      ext_torques ← child_of yaml "ext_torques" node
      ext_torque_xml ← parse_control_signal_optional_group ext_torques control_new.ext_torques
      gpio_xml_element ←
          if_found yaml "gpio" node
            (λ gpio. parse_xml_element yaml gpio control_new.gpio_xml_element)
            control_new.gpio_xml_element
      parsed (record {
        joints = joint_xml;
        ext_joints = ext_joint_xml;
        velocities = velocity_xml;
        ext_velocities = ext_velocity_xml;
        torques = torque_xml;
        ext_torques = ext_torque_xml;
        gpio_xml_element = gpio_xml_element;
      })

    unfoldable pub parse_control_signal : Node → Configuration → Parsed Configuration
    parse_control_signal node config =
        let parse = do
          xml ← control_signal_sections node
          parsed (record config { control_signal_xml_config = some xml })
        in if not (is_defined node) then parsed config else parse
