-- ===== src/Rsi/Xml/Motion.antt =====
-- The section motion_state of the file: the methods of
-- kuka_rsi_driver/src/rsi_xml_configuration_parser.cpp from ParseMotionState on that read it.
use kuka_drivers.Prelude.{List, String, [], if◌then◌else◌, length, not, some, ℕ, ◌++◌, ◌==◌, ◌∷◌}
use kuka_drivers.Rsi.Xml.{
  Configuration, JointField, MotionStateSignalType, MotionStateXml, Parsed, Yaml, append_strings,
  bool_of, child_of, if_found, indexed_strings, parse_xml_element, parsed, position_signal, refused,
  string_of, torque_signal, velocity_signal, ◌>>=◌,
}

module _ {Node : Type 0} (yaml : Yaml Node) where
  open yaml use {is_defined, size, items}

  abbrev cartesian_attributes : List String → Node → Parsed (List String)
  cartesian_attributes xml_attributes attrs =
      if not (size attrs == length xml_attributes)
      then refused
      else indexed_strings yaml (size attrs) 0 attrs

  unfoldable pub parse_cartesian_motion_state : Node → MotionStateXml → Parsed MotionStateXml
  parse_cartesian_motion_state node xml =
      let parse = do
        enabled ← if_found yaml "enabled" node (bool_of yaml) xml.cartesian_enabled
        xml_element ← parse_xml_element yaml node xml.cartesian_xml_element
        xml_attributes ←
            if_found yaml "xml_attributes" node (cartesian_attributes xml.cartesian_xml_attributes)
              xml.cartesian_xml_attributes
        parsed (record xml {
          cartesian_enabled = enabled;
          cartesian_xml_element = xml_element;
          cartesian_xml_attributes = xml_attributes;
        })
      in if not (is_defined node) then parsed xml else parse

  -- `node[key].as<std::string>()`
  unfoldable pub text_of : String → Node → Parsed String
  text_of key node = do child ← child_of yaml key node; string_of yaml child

  -- The three texts of an entry: the joint's identifier, its element and its attribute.
  unfoldable pub field_texts : Node → Parsed (String × String × String)
  unfolding text_of
  field_texts node = do
    joint_identifier ← text_of "joint_identifier" node
    xml_element ← text_of "xml_element" node
    xml_attribute ← text_of "xml_attribute" node
    parsed (joint_identifier, xml_element, xml_attribute)

  abbrev pub field_with : MotionStateSignalType → String × String × String → JointField
  field_with signal_type (joint_identifier, xml_element, xml_attribute) = record {
    joint_identifier = joint_identifier;
    signal_type = signal_type;
    xml_element = xml_element;
    xml_attribute = xml_attribute;
  }

  unfoldable pub append_joint_fields :
      MotionStateSignalType → List Node → List JointField → Parsed (List JointField)
  append_joint_fields signal_type [] joint_fields = parsed joint_fields
  append_joint_fields signal_type (node ∷ nodes) joint_fields = do
    texts ← field_texts node
    append_joint_fields signal_type nodes (joint_fields ++ field_with signal_type texts ∷ [])

  unfoldable pub append_optional_joint_fields :
      MotionStateSignalType → ℕ → Node → List JointField → Parsed (List JointField)
  append_optional_joint_fields signal_type joint_count node joint_fields =
      if not (is_defined node)
      then parsed joint_fields
      else if not (size node == joint_count)
      then refused
      else append_joint_fields signal_type (items node) joint_fields

  -- A list that must be there, with one entry for each joint.
  abbrev required_fields :
      MotionStateSignalType → ℕ → Node → List JointField → Parsed (List JointField)
  required_fields signal_type joint_count node joint_fields =
      if not (is_defined node)
      then refused
      else if not (size node == joint_count)
      then refused
      else append_joint_fields signal_type (items node) joint_fields

  unfoldable pub position_fields : ℕ → Node → List JointField → Parsed (List JointField)
  position_fields joint_count node joint_fields = do
    positions ← child_of yaml "positions" node
    required_fields position_signal joint_count positions joint_fields

  unfoldable pub optional_fields :
      String → MotionStateSignalType → ℕ → Node → List JointField → Parsed (List JointField)
  optional_fields key signal_type joint_count node joint_fields = do
    fields ← child_of yaml key node
    append_optional_joint_fields signal_type joint_count fields joint_fields

  unfoldable pub parse_joint_motion_state : ℕ → Node → MotionStateXml → Parsed MotionStateXml
  parse_joint_motion_state joint_count node xml =
      let parse = do
        with_positions ← position_fields joint_count node xml.joint_fields
        with_velocities ←
            optional_fields "velocities" velocity_signal joint_count node with_positions
        with_torques ← optional_fields "torques" torque_signal joint_count node with_velocities
        parsed (record xml { joint_fields = with_torques })
      in if not (is_defined node) then refused else parse

  abbrev gpio_attributes : ℕ → List String → Node → Parsed (List String)
  gpio_attributes gpio_state_interface_count xml_attributes attrs = do
    strings ← append_strings yaml (items attrs) xml_attributes
    if not (length strings == gpio_state_interface_count) then refused else parsed strings

  unfoldable pub parse_motion_state_gpio : ℕ → Node → MotionStateXml → Parsed MotionStateXml
  parse_motion_state_gpio gpio_state_interface_count node xml =
      let parse = do
        xml_element ← parse_xml_element yaml node xml.gpio_xml_element
        xml_attributes ←
            if_found yaml "xml_attributes" node
              (gpio_attributes gpio_state_interface_count xml.gpio_xml_attributes)
              xml.gpio_xml_attributes
        parsed (record xml { gpio_xml_element = xml_element; gpio_xml_attributes = xml_attributes })
      in if not (is_defined node) then parsed xml else parse

  module _ (motion_new : MotionStateXml) where
    -- The part of `ParseMotionState` that is given a node that is there.
    unfoldable pub motion_state_sections : ℕ → ℕ → Node → Parsed MotionStateXml
    motion_state_sections joint_count gpio_state_interface_count node = do
      cartesian ← child_of yaml "cartesian" node
      with_cartesian ← parse_cartesian_motion_state cartesian motion_new
      joints ← child_of yaml "joints" node
      with_joints ← parse_joint_motion_state joint_count joints with_cartesian
      gpio ← child_of yaml "gpio" node
      parse_motion_state_gpio gpio_state_interface_count gpio with_joints

    unfoldable pub parse_motion_state : ℕ → ℕ → Node → Configuration → Parsed Configuration
    parse_motion_state joint_count gpio_state_interface_count node config =
        let parse = do
          xml ← motion_state_sections joint_count gpio_state_interface_count node
          parsed (record config { motion_state_xml_config = some xml })
        in if not (is_defined node) then parsed config else parse
