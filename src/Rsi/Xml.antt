-- ===== src/Rsi/Xml.antt =====
-- kuka_rsi_driver/src/rsi_xml_configuration_parser.cpp: the reader of the file that says which XML
-- elements the RSI messages have.
--
-- yaml-cpp and the robot library are no code of the repository. `Yaml` is what the code calls of
-- yaml-cpp on its nodes, with `none` for a `YAML::Exception`; the values that the robot library
-- gives a new configuration are the records `motion_new` and `control_new`.
pub mod Motion
pub mod Control
pub mod Load
pub mod Layout
pub mod Fields
pub mod Failures
use kuka_drivers.Prelude.{
  Bool, List, Option, String, [], if◌then◌else◌, none, some, suc, zero, ℕ, ◌++◌, ◌∷◌,
}

pub record Yaml (Node : Type 0) : Type 0 where
  -- `node[key]` and `node[index]`; a node that is not there is not defined
  pub subscript : String → Node → Option Node
  pub at_index : ℕ → Node → Option Node
  pub is_defined : Node → Bool
  pub size : Node → ℕ
  -- the nodes of a loop over the node
  pub items : Node → List Node
  pub as_string : Node → Option String
  pub as_bool : Node → Option Bool

-- What a method returns with its output, that it returns false, or that it throws.
pub data Parsed (A : Type 0) : Type 0 where
  parsed : A → Parsed A
  refused : Parsed A
  thrown : Parsed A

infixl 5 ◌>>=◌
abbrev pub ◌>>=◌ : {A B : Type 0} → Parsed A → (A → Parsed B) → Parsed B
parsed a >>= f = f a
refused >>= f = refused
thrown >>= f = thrown

abbrev or_throw : {A : Type 0} → Option A → Parsed A
or_throw none = thrown
or_throw (some a) = parsed a

pub data MotionStateSignalType : Type 0 where
  position_signal velocity_signal torque_signal : MotionStateSignalType

pub record JointField : Type 0 where
  pub joint_identifier : String
  pub signal_type : MotionStateSignalType
  pub xml_element : String
  pub xml_attribute : String

pub record MotionStateXml : Type 0 where
  pub cartesian_enabled : Bool
  pub cartesian_xml_element : String
  -- an array
  pub cartesian_xml_attributes : List String
  pub joint_fields : List JointField
  pub gpio_xml_element : String
  pub gpio_xml_attributes : List String

pub record XmlGroup : Type 0 where
  pub xml_element : String
  pub xml_attributes : List String

pub record OptionalXmlGroup : Type 0 where
  pub include_values : Bool
  pub group : XmlGroup

pub record ControlSignalXml : Type 0 where
  pub joints : XmlGroup
  pub ext_joints : XmlGroup
  pub velocities : OptionalXmlGroup
  pub ext_velocities : OptionalXmlGroup
  pub torques : OptionalXmlGroup
  pub ext_torques : OptionalXmlGroup
  pub gpio_xml_element : String

pub record Configuration : Type 0 where
  pub motion_state_xml_config : Option MotionStateXml
  pub control_signal_xml_config : Option ControlSignalXml

module _ {Node : Type 0} (yaml : Yaml Node) where
  open yaml use {is_defined, size, items}

  abbrev pub child_of : String → Node → Parsed Node
  child_of key node = or_throw (yaml.subscript key node)

  abbrev item_at : ℕ → Node → Parsed Node
  item_at i node = or_throw (yaml.at_index i node)

  abbrev pub string_of : Node → Parsed String
  string_of node = or_throw (yaml.as_string node)

  abbrev pub bool_of : Node → Parsed Bool
  bool_of node = or_throw (yaml.as_bool node)

  -- `if (const YAML::Node found = node[key])`
  abbrev pub if_found : {A : Type 0} → String → Node → (Node → Parsed A) → A → Parsed A
  if_found key node use_it otherwise = do
    found ← child_of key node
    if is_defined found then use_it found else parsed otherwise

  unfoldable pub parse_xml_element : Node → String → Parsed String
  parse_xml_element node xml_element = if_found "xml_element" node string_of xml_element

  -- The loops that append every entry.
  unfoldable pub append_strings : List Node → List String → Parsed (List String)
  append_strings [] strings = parsed strings
  append_strings (attr ∷ attrs) strings = do
    string ← string_of attr
    append_strings attrs (strings ++ string ∷ [])

  unfoldable pub parse_xml_attributes : Node → List String → Parsed (List String)
  parse_xml_attributes node xml_attributes =
      if_found "xml_attributes" node (λ attrs. append_strings (items attrs) xml_attributes)
        xml_attributes

  -- `n` entries from index `i` on
  unfoldable pub indexed_strings : ℕ → ℕ → Node → Parsed (List String)
  indexed_strings zero i attrs = parsed []
  indexed_strings (suc n) i attrs = do
    entry ← item_at i attrs
    string ← string_of entry
    strings ← indexed_strings n (suc i) attrs
    parsed (string ∷ strings)
