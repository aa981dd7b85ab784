-- ===== src/Rsi/Xml/Fields.antt =====
-- What the joint fields that kuka_rsi_driver/src/rsi_xml_configuration_parser.cpp makes of a motion
-- state section say, entry by entry.
use mathlib.Core.List.{append-nil, append_assoc}
use kuka_drivers.Prelude.{
  ==_iff, Bool-cases, List, Option, Option-cases, String, [], ap, if◌then◌else◌, inl, inr, length,
  none, refl, some, suc, sym, ℕ, ◌++◌, ◌==◌, ◌∙◌, ◌∷◌, ◌≡◌,
}
use kuka_drivers.Rsi.Xml.{
  JointField, MotionStateSignalType, MotionStateXml, Yaml, parsed, position_signal, torque_signal,
  velocity_signal,
}
use kuka_drivers.Rsi.Xml.Motion.{
  append_joint_fields, append_optional_joint_fields, field_texts, field_with, optional_fields,
  parse_joint_motion_state, position_fields, text_of,
}
use kuka_drivers.Rsi.Xml.Layout.{CountsItems, Parsed-cases, is_there}

module _ {Node : Type 0} (yaml : Yaml Node) where
  open yaml use {is_defined, size, items}

  -- The field has the type and the texts of the entry.
  pub record Describes (s : MotionStateSignalType) (node : Node) (f : JointField) : Type 0 where
    pub signal_type : f.signal_type ≡ s
    pub identifier : text_of yaml "joint_identifier" node ≡ parsed f.joint_identifier
    pub element : text_of yaml "xml_element" node ≡ parsed f.xml_element
    pub attribute : text_of yaml "xml_attribute" node ≡ parsed f.xml_attribute

  -- Each field is that of the entry at its place, and there are no others.
  abbrev pub DescribeAll : MotionStateSignalType → List Node → List JointField → Type 0
  DescribeAll s [] [] = Unit
  DescribeAll s [] (f ∷ fs) = ⊥
  DescribeAll s (node ∷ nodes) [] = ⊥
  DescribeAll s (node ∷ nodes) (f ∷ fs) = Describes s node f × DescribeAll s nodes fs

  described_length :
      (s : MotionStateSignalType) (nodes : List Node) (fs : List JointField)
      → DescribeAll s nodes fs
      → length fs ≡ length nodes
  described_length s [] [] d = refl
  described_length s [] (f ∷ fs) d = absurd d
  described_length s (node ∷ nodes) [] d = absurd d
  described_length s (node ∷ nodes) (f ∷ fs) (d, ds) = ap suc (described_length s nodes fs ds)

  texts_read :
      (s : MotionStateSignalType) (node : Node) (texts : String × String × String)
      → field_texts yaml node ≡ parsed texts
      → Describes s node (field_with yaml s texts)
  unfolding field_texts
  texts_read s node texts e = elim (Parsed-cases (text_of yaml "joint_identifier" node)) [
    | inr (inl n) ↦ cc (rw n at e)
    | inr (inr n) ↦ cc (rw n at e)
    | inl (identifier, i) ↦ elim (Parsed-cases (text_of yaml "xml_element" node)) [
      | inr (inl n) ↦ cc (rw (i, n) at e)
      | inr (inr n) ↦ cc (rw (i, n) at e)
      | inl (element, l) ↦ elim (Parsed-cases (text_of yaml "xml_attribute" node)) [
        | inr (inl n) ↦ cc (rw (i, l, n) at e)
        | inr (inr n) ↦ cc (rw (i, l, n) at e)
        | inl (attribute, a) ↦
            let same : (identifier, element, attribute) ≡ texts = cc (rw (i, l, a) at e) in
            record {
              signal_type = refl;
              identifier = i ∙ ap (λ t. parsed (t.0)) same;
              element = l ∙ ap (λ t. parsed (t.1)) same;
              attribute = a ∙ ap (λ t. parsed (t.2)) same;
            }
      ]
    ]
  ]

  -- What is appended to the fields from before.
  abbrev Appends : MotionStateSignalType → List Node → List JointField → List JointField → Type 0
  Appends s nodes fs fs' = (gs : List JointField) × (fs' ≡ fs ++ gs) × DescribeAll s nodes gs

  entries_described :
      (s : MotionStateSignalType) (nodes : List Node) (fs fs' : List JointField)
      → append_joint_fields yaml s nodes fs ≡ parsed fs'
      → Appends s nodes fs fs'
  unfolding append_joint_fields
  entries_described s [] fs fs' e =
      let same : fs ≡ fs' = cc in ([], sym same ∙ sym (append-nil fs), tt)
  entries_described s (node ∷ nodes) fs fs' e = elim (Parsed-cases (field_texts yaml node)) [
    | inr (inl n) ↦ cc (rw n at e)
    | inr (inr n) ↦ cc (rw n at e)
    | inl (texts, h) ↦
        let f = field_with yaml s texts in
        let (gs, split, described) = entries_described s nodes (fs ++ f ∷ []) fs' (rw h at e) in
        (f ∷ gs, split ∙ append_assoc fs (f ∷ []) gs, (texts_read s node texts h, described))
  ]

  abbrev entries_if : Option Node → List Node
  entries_if none = []
  entries_if (some found) = if is_defined found then items found else []

  -- The entries under a key, none if it is not there.
  abbrev pub entries_at : String → Node → List Node
  entries_at key node = entries_if (yaml.subscript key node)

  -- The fields of a list of the section: those of its entries, of which there are as many as told.
  abbrev pub ExtendsBy :
      MotionStateSignalType → String → Node → ℕ → List JointField → List JointField → Type 0
  ExtendsBy s key node count fs fs' =
      (gs : List JointField) × (fs' ≡ fs ++ gs)
      × DescribeAll s (entries_at key node) gs
      × (length gs ≡ count)

  positions_described :
      (joint_count : ℕ) (node : Node) (fs fs' : List JointField)
      → CountsItems yaml
      → position_fields yaml joint_count node fs ≡ parsed fs'
      → ExtendsBy position_signal "positions" node joint_count fs fs'
  unfolding position_fields
  positions_described joint_count node fs fs' counts e =
      elim (Option-cases (yaml.subscript "positions" node)) [
        | inl n ↦ cc (rw n at e)
        | inr (positions, f) ↦ elim (Bool-cases (is_defined positions)) [
          | inr d ↦ cc (rw (f, d) at e)
          | inl d ↦ elim (Bool-cases (size positions == joint_count)) [
            | inr n ↦ cc (rw (f, d, n) at e)
            | inl n ↦
                let (gs, split, described) =
                  entries_described position_signal (items positions) fs fs' (rw (f, d, n) at e) in
                let counted =
                  described_length position_signal (items positions) gs described
                  ∙ (counts positions ∙ (==_iff (size positions) joint_count).0 n) in
                (gs, split, rw (f, d) described, counted)
          ]
        ]
      ]

  optional_described :
      (key : String) (s : MotionStateSignalType) (joint_count : ℕ) (node : Node)
      (fs fs' : List JointField)
      → CountsItems yaml
      → optional_fields yaml key s joint_count node fs ≡ parsed fs'
      → ExtendsBy s key node (if is_there yaml key node then joint_count else 0) fs fs'
  unfolding optional_fields append_optional_joint_fields
  optional_described key s joint_count node fs fs' counts e =
      elim (Option-cases (yaml.subscript key node)) [
        | inl n ↦ cc (rw n at e)
        | inr (found, f) ↦ elim (Bool-cases (is_defined found)) [
          | inr d ↦
              let same : fs ≡ fs' = cc (rw (f, d) at e) in
              rw (f, d) ([], sym same ∙ sym (append-nil fs), tt, refl)
          | inl d ↦ elim (Bool-cases (size found == joint_count)) [
            | inr n ↦ cc (rw (f, d, n) at e)
            | inl n ↦
                let (gs, split, described) =
                  entries_described s (items found) fs fs' (rw (f, d, n) at e) in
                let counted =
                  described_length s (items found) gs described
                  ∙ (counts found ∙ (==_iff (size found) joint_count).0 n) in
                rw (f, d) (gs, split, described, counted)
          ]
        ]
      ]

  -- If yaml-cpp's sizes count the entries and a section of the joints is accepted, then its fields
  -- are those from before, then the positions, then the velocities, then the torques. Each kind has
  -- a field for each entry of its list, in their order, with the identifier, the element and the
  -- attribute that the entry names: as many as there are joints, or none if the list is missing,
  -- which that of the positions is not.
  pub section_described :
      (joint_count : ℕ) (node : Node) (xml xml' : MotionStateXml)
      → CountsItems yaml
      → parse_joint_motion_state yaml joint_count node xml ≡ parsed xml'
      → (positions : List JointField) × (velocities : List JointField) × ExtendsBy position_signal
          "positions" node joint_count xml.joint_fields positions
        × ExtendsBy velocity_signal "velocities" node
            (if is_there yaml "velocities" node then joint_count else 0)
            positions
            velocities
        × ExtendsBy torque_signal "torques" node
            (if is_there yaml "torques" node then joint_count else 0)
            velocities
            xml'.joint_fields
  unfolding parse_joint_motion_state
  section_described joint_count node xml xml' counts e =
      let fs = xml.joint_fields in
      elim (Bool-cases (is_defined node)) [
        | inr d ↦ cc (rw d at e)
        | inl d ↦ elim (Parsed-cases (position_fields yaml joint_count node fs)) [
          | inr (inl n) ↦ cc (rw (d, n) at e)
          | inr (inr n) ↦ cc (rw (d, n) at e)
          | inl (ps, p) ↦
              let velocities =
                optional_fields yaml "velocities" velocity_signal joint_count node ps in
              elim (Parsed-cases velocities) [
                | inr (inl n) ↦ cc (rw (d, p, n) at e)
                | inr (inr n) ↦ cc (rw (d, p, n) at e)
                | inl (vs, v) ↦
                    let torques =
                      optional_fields yaml "torques" torque_signal joint_count node vs in
                    elim (Parsed-cases torques) [
                      | inr (inl n) ↦ cc (rw (d, p, v, n) at e)
                      | inr (inr n) ↦ cc (rw (d, p, v, n) at e)
                      | inl (ts, t) ↦
                          let same : record xml { joint_fields = ts } ≡ xml' =
                            cc (rw (d, p, v, t) at e) in
                          let same_fields = ap (λ x. x.joint_fields) same in
                          let (gs, split, described, counted) =
                            optional_described "torques" torque_signal joint_count node vs ts counts
                              t in
                          (
                            ps,
                            vs,
                            positions_described joint_count node fs ps counts p,
                            optional_described "velocities" velocity_signal joint_count node ps vs
                                counts v,
                            (gs, sym same_fields ∙ split, described, counted),
                          )
                    ]
              ]
        ]
      ]
