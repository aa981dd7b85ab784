-- ===== src/Rsi/Xml/Failures.antt =====
-- What a file that kuka_rsi_driver/src/rsi_xml_configuration_parser.cpp does not accept leaves.
use kuka_drivers.Prelude.{
  Bool, Bool-cases, Option, Option-cases, ap, false, inl, inr, none, refl, some, sym, ℕ, ◌∙◌, ◌≡◌,
}
use kuka_drivers.Rsi.Xml.{
  Configuration, ControlSignalXml, MotionStateXml, Parsed, Yaml, child_of, parsed, refused, thrown,
  ◌>>=◌,
}
use kuka_drivers.Rsi.Xml.Motion.{motion_state_sections, parse_motion_state}
use kuka_drivers.Rsi.Xml.Control.{parse_control_signal}
use kuka_drivers.Rsi.Xml.Load.{load, load_node, parse_section, section_result}
use kuka_drivers.Rsi.Xml.Layout.{Parsed-cases}

module _ {Node : Type 0} (yaml : Yaml Node) (motion_new : MotionStateXml)
    (control_new : ControlSignalXml) where
  motion_keeps_control :
      (n k : ℕ) (node : Node) (config config' : Configuration)
      → parse_motion_state yaml motion_new n k node config ≡ parsed config'
      → config'.control_signal_xml_config ≡ config.control_signal_xml_config
  unfolding parse_motion_state
  motion_keeps_control n k node config config' e = elim (Bool-cases (yaml.is_defined node)) [
    | inr d ↦
        let same : config ≡ config' = cc (rw d at e) in
        ap (λ c. c.control_signal_xml_config) (sym same)
    | inl d ↦ elim (Parsed-cases (motion_state_sections yaml motion_new n k node)) [
      | inr (inl m) ↦ cc (rw (d, m) at e)
      | inr (inr m) ↦ cc (rw (d, m) at e)
      | inl (xml, m) ↦
          let same : record config { motion_state_xml_config = some xml } ≡ config' =
            cc (rw (d, m) at e) in
          ap (λ c. c.control_signal_xml_config) (sym same)
    ]
  ]

  section_refused :
      (result : Parsed Configuration) (config : Configuration)
      → (section_result yaml motion_new control_new result config).1 ≡ false
      → (section_result yaml motion_new control_new result config).0 ≡ config
  section_refused (parsed c) config e = cc
  section_refused refused config e = refl
  section_refused thrown config e = refl

  abbrev motion_result : ℕ → ℕ → Node → Configuration → Configuration × Bool
  motion_result n k rsi_node config =
      parse_section yaml motion_new control_new "motion_state"
        (parse_motion_state yaml motion_new n k) rsi_node config

  section_control :
      (n k : ℕ) (rsi_node : Node) (config : Configuration)
      → (motion_result n k rsi_node config).0.control_signal_xml_config
        ≡ config.control_signal_xml_config
  section_control n k rsi_node config =
      elim (Option-cases (yaml.subscript "motion_state" rsi_node)) [
        | inl m ↦ rw m refl
        | inr (node, m) ↦ elim (Parsed-cases (parse_motion_state yaml motion_new n k node config)) [
          | inl (config', p) ↦ rw (m, p) (motion_keeps_control n k node config config' p)
          | inr (inl p) ↦ rw (m, p) refl
          | inr (inr p) ↦ rw (m, p) refl
        ]
      ]

  -- A file that is not accepted leaves the configuration of the control signal as it was.
  failed_load_keeps_control :
      (file : Option Node) (joint_count gpio_count : ℕ) (config : Configuration)
      → let (config', ok) = load yaml motion_new control_new file joint_count gpio_count config in
        ok ≡ false → config'.control_signal_xml_config ≡ config.control_signal_xml_config
  unfolding load
  failed_load_keeps_control none n k config e = refl
  failed_load_keeps_control (some root) n k config e = go (yaml.subscript "rsi_xml_config" root) e
    where
      go :
          (o : Option Node)
          → (load_node yaml motion_new control_new o n k config).1 ≡ false
          → (load_node yaml motion_new control_new o n k config).0.control_signal_xml_config
            ≡ config.control_signal_xml_config
      go none e = refl
      go (some rsi_node) e =
          let (config₁, motion_ok) = motion_result n k rsi_node config in
          elim (Bool-cases (yaml.is_defined rsi_node)) [
            | inr d ↦ rw d refl
            | inl d ↦ elim (Bool-cases motion_ok) [
              | inr m ↦ rw (d, m) (section_control n k rsi_node config)
              | inl m ↦
                  rw (d, m)
                    (ap (λ c. c.control_signal_xml_config)
                        (section_refused
                          (child_of yaml "control_signal" rsi_node >>= λ node.
                            parse_control_signal yaml control_new node config₁)
                          config₁ (rw (d, m) at e))
                      ∙ section_control n k rsi_node config)
            ]
          ]
