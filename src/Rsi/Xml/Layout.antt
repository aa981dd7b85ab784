-- ===== src/Rsi/Xml/Layout.antt =====
-- The joint fields that kuka_rsi_driver/src/rsi_xml_configuration_parser.cpp makes of a motion state
-- section.
use mathlib.Core.List.{append_assoc, append-nil}
use kuka_drivers.Prelude.{
  ==_iff, Bool, Bool-cases, List, Option, Option-cases, String, [], ap, false, if◌then◌else◌, inl,
  inr, length, map, none, refl, replicate, some, sym, ℕ, ◌++◌, ◌==◌, ◌∙◌, ◌∷◌, ◌≡◌, ◌⊎◌,
}
use kuka_drivers.Rsi.Xml.{
  JointField, MotionStateSignalType, MotionStateXml, Parsed, Yaml, parsed, position_signal, refused,
  thrown, torque_signal, velocity_signal,
}
use kuka_drivers.Rsi.Xml.Motion.{
  append_joint_fields, append_optional_joint_fields, field_texts, field_with, optional_fields,
  parse_joint_motion_state, position_fields,
}

-- A method that returns with an output did so in each of its steps.
pub Parsed-cases :
    {A : Type 0} (m : Parsed A) → ((a : A) × (m ≡ parsed a)) ⊎ (m ≡ refused) ⊎ (m ≡ thrown)
Parsed-cases (parsed a) = inl (a, refl)
Parsed-cases refused = inr (inl refl)
Parsed-cases thrown = inr (inr refl)

abbrev pub types_of : List JointField → List MotionStateSignalType
types_of fields = map (λ (f : JointField). f.signal_type) fields

types-append : (fs gs : List JointField) → types_of (fs ++ gs) ≡ types_of fs ++ types_of gs
types-append [] gs = refl
types-append (f ∷ fs) gs = ap (λ ts. f.signal_type ∷ ts) (types-append fs gs)

module _ {Node : Type 0} (yaml : Yaml Node) where
  open yaml use {is_defined, size, items}

  -- yaml-cpp's size of a node is the number of entries that a loop over it visits.
  abbrev pub CountsItems : Type 0
  CountsItems = (node : Node) → length (items node) ≡ size node

  append-types :
      (s : MotionStateSignalType) (nodes : List Node) (fs fs' : List JointField)
      → append_joint_fields yaml s nodes fs ≡ parsed fs'
      → types_of fs' ≡ types_of fs ++ replicate (length nodes) s
  unfolding append_joint_fields
  append-types s [] fs fs' e =
      let same : fs ≡ fs' = cc in ap types_of (sym same) ∙ sym (append-nil (types_of fs))
  append-types s (node ∷ nodes) fs fs' e = elim (Parsed-cases (field_texts yaml node)) [
    | inr (inl n) ↦ cc (rw n at e)
    | inr (inr n) ↦ cc (rw n at e)
    | inl (texts, h) ↦
        append-types s nodes (fs ++ field_with yaml s texts ∷ []) fs' (rw h at e)
        ∙ ap (λ ts. ts ++ replicate (length nodes) s)
            (types-append fs (field_with yaml s texts ∷ []))
        ∙ append_assoc (types_of fs) (s ∷ []) (replicate (length nodes) s)
  ]

  -- The types of an optional list of fields.
  abbrev optional_types : MotionStateSignalType → ℕ → Node → List MotionStateSignalType
  optional_types s joint_count node = if is_defined node then replicate joint_count s else []

  optional-types :
      (s : MotionStateSignalType) (joint_count : ℕ) (node : Node) (fs fs' : List JointField)
      → CountsItems
      → append_optional_joint_fields yaml s joint_count node fs ≡ parsed fs'
      → types_of fs' ≡ types_of fs ++ optional_types s joint_count node
  unfolding append_optional_joint_fields
  optional-types s joint_count node fs fs' counts e = elim (Bool-cases (is_defined node)) [
    | inr d ↦
        let same : fs ≡ fs' = cc (rw d at e) in
        rw d (ap types_of (sym same) ∙ sym (append-nil (types_of fs)))
    | inl d ↦ elim (Bool-cases (size node == joint_count)) [
      | inr n ↦ cc (rw (d, n) at e)
      | inl n ↦
          let counted : length (items node) ≡ joint_count =
            counts node ∙ (==_iff (size node) joint_count).0 n in
          rw d (
            append-types s (items node) fs fs' (rw (d, n) at e)
            ∙ ap (λ k. types_of fs ++ replicate k s) counted)
    ]
  ]

  position-types :
      (joint_count : ℕ) (node : Node) (fs fs' : List JointField)
      → CountsItems
      → position_fields yaml joint_count node fs ≡ parsed fs'
      → types_of fs' ≡ types_of fs ++ replicate joint_count position_signal
  unfolding position_fields
  position-types joint_count node fs fs' counts e =
      elim (Option-cases (yaml.subscript "positions" node)) [
        | inl n ↦ cc (rw n at e)
        | inr (positions, f) ↦ elim (Bool-cases (is_defined positions)) [
          | inr d ↦ cc (rw (f, d) at e)
          | inl d ↦ elim (Bool-cases (size positions == joint_count)) [
            | inr n ↦ cc (rw (f, d, n) at e)
            | inl n ↦
                let counted : length (items positions) ≡ joint_count =
                  counts positions ∙ (==_iff (size positions) joint_count).0 n in
                append-types position_signal (items positions) fs fs' (rw (f, d, n) at e)
                ∙ ap (λ k. types_of fs ++ replicate k position_signal) counted
          ]
        ]
      ]

  abbrev found_there : Option Node → Bool
  found_there none = false
  found_there (some found) = is_defined found

  -- Whether a key of a node is there.
  abbrev pub is_there : String → Node → Bool
  is_there key node = found_there (yaml.subscript key node)

  abbrev pub types_if : Bool → MotionStateSignalType → ℕ → List MotionStateSignalType
  types_if there s joint_count = if there then replicate joint_count s else []

  keyed-types :
      (key : String) (s : MotionStateSignalType) (joint_count : ℕ) (node : Node)
      (fs fs' : List JointField)
      → CountsItems
      → optional_fields yaml key s joint_count node fs ≡ parsed fs'
      → types_of fs' ≡ types_of fs ++ types_if (is_there key node) s joint_count
  unfolding optional_fields
  keyed-types key s joint_count node fs fs' counts e =
      elim (Option-cases (yaml.subscript key node)) [
        | inl n ↦ cc (rw n at e)
        | inr (found, f) ↦ rw f (optional-types s joint_count found fs fs' counts (rw f at e))
      ]

  -- If yaml-cpp's sizes count the entries and a section of the joints is accepted, then its fields
  -- are, behind those from before, the positions of all joints, then their velocities if the
  -- section has them, then their torques if it has them: one field for each joint and kind.
  pub joint_layout :
      (joint_count : ℕ) (node : Node) (xml xml' : MotionStateXml)
      → CountsItems
      → parse_joint_motion_state yaml joint_count node xml ≡ parsed xml'
      → types_of xml'.joint_fields
        ≡ ((types_of xml.joint_fields ++ replicate joint_count position_signal)
            ++ types_if (is_there "velocities" node) velocity_signal joint_count)
          ++ types_if (is_there "torques" node) torque_signal joint_count
  unfolding parse_joint_motion_state
  joint_layout joint_count node xml xml' counts e =
      let fs = xml.joint_fields in
      elim (Bool-cases (is_defined node)) [
        | inr d ↦ cc (rw d at e)
        | inl d ↦ elim (Parsed-cases (position_fields yaml joint_count node fs)) [
          | inr (inl n) ↦ cc (rw (d, n) at e)
          | inr (inr n) ↦ cc (rw (d, n) at e)
          | inl (ps, p) ↦
              elim (Parsed-cases
                (optional_fields yaml "velocities" velocity_signal joint_count node ps)) [
                  | inr (inl n) ↦ cc (rw (d, p, n) at e)
                  | inr (inr n) ↦ cc (rw (d, p, n) at e)
                  | inl (vs, v) ↦
                      elim (Parsed-cases
                        (optional_fields yaml "torques" torque_signal joint_count node vs)) [
                          | inr (inl n) ↦ cc (rw (d, p, v, n) at e)
                          | inr (inr n) ↦ cc (rw (d, p, v, n) at e)
                          | inl (ts, t) ↦
                              let same : record xml { joint_fields = ts } ≡ xml' =
                                cc (rw (d, p, v, t) at e) in
                              ap (λ x. types_of x.joint_fields) (sym same)
                              ∙ keyed-types "torques" torque_signal joint_count node vs ts counts t
                              ∙ ap
                                  (λ l.
                                    l
                                    ++ types_if (is_there "torques" node) torque_signal joint_count)
                                  (keyed-types "velocities" velocity_signal joint_count node ps vs
                                      counts v
                                    ∙ ap
                                        (λ l.
                                          l
                                          ++ types_if (is_there "velocities" node) velocity_signal
                                              joint_count)
                                        (position-types joint_count node fs ps counts p))
                        ]
                ]
        ]
      ]
