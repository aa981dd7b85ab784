-- ===== src/Rsi/Base/Optional.antt =====
-- The optional interfaces of kuka_rsi_driver/src/hardware_interface_rsi_base.cpp and the file that
-- src/rsi_xml_configuration_parser.cpp has read.
use kuka_drivers.Prelude.{
  Bool, List, [], any, ap, arith, false, refl, replicate, some, suc, true, zero, ℕ, ◌&&◌, ◌++◌, ◌<◌,
  ◌||◌, ◌∙◌, ◌∷◌, ◌≡◌,
}
use kuka_drivers.Rsi.Xml.{
  JointField, MotionStateSignalType, MotionStateXml, Yaml, parsed, position_signal, torque_signal,
  velocity_signal,
}
use kuka_drivers.Rsi.Xml.Motion.{parse_joint_motion_state}
use kuka_drivers.Rsi.Xml.Layout.{CountsItems, is_there, joint_layout, types_if, types_of}
use kuka_drivers.Rsi.Base.{Flags}
use kuka_drivers.Rsi.Base.Setup.{any_of_type, motion_flags, torque_type, velocity_type}

any-types :
    (p : MotionStateSignalType → Bool) (fs : List JointField)
    → any_of_type p fs ≡ any p (types_of fs)
any-types p [] = refl
any-types p (f ∷ fs) = ap (λ b. p f.signal_type || b) (any-types p fs)

any-append :
    (p : MotionStateSignalType → Bool) (xs ys : List MotionStateSignalType)
    → any p (xs ++ ys) ≡ any p xs || any p ys
any-append p [] ys = refl
any-append p (x ∷ xs) ys = ground (arith, any-append p xs ys)

any-replicate :
    (p : MotionStateSignalType → Bool) (n : ℕ) (s : MotionStateSignalType)
    → 0 < n
    → any p (replicate n s) ≡ p s
any-replicate p zero s h = absurd (omega arith)
any-replicate p (suc zero) s h = ground arith
any-replicate p (suc (suc n)) s h = ground (arith, any-replicate p (suc n) s)

module _ {Node : Type 0} (yaml : Yaml Node) where
  any-types_if :
      (p : MotionStateSignalType → Bool) (there : Bool) (s : MotionStateSignalType) (n : ℕ)
      → 0 < n
      → any p (types_if yaml there s n) ≡ there && p s
  any-types_if p true s n h = any-replicate p n s h
  any-types_if p false s n h = refl

  -- If yaml-cpp's sizes count the entries, there is a joint, and the section of the joints is
  -- accepted for a new configuration without fields, then the interface takes velocities from the
  -- motion state exactly if the section has them, and torques exactly if the section has them.
  optional_states_match :
      (joint_count : ℕ) (node : Node) (xml xml' : MotionStateXml) (flags : Flags)
      → CountsItems yaml
      → 0 < joint_count
      → xml.joint_fields ≡ []
      → parse_joint_motion_state yaml joint_count node xml ≡ parsed xml'
      → let flags' = motion_flags (some xml') flags in
        (flags'.has_velocity_state_interface ≡ is_there yaml "velocities" node)
        × (flags'.has_torque_state_interface ≡ is_there yaml "torques" node)
  optional_states_match n node xml xml' flags counts h new e =
      let v = is_there yaml "velocities" node in
      let t = is_there yaml "torques" node in
      let ps = replicate n position_signal in
      let vs = types_if yaml v velocity_signal n in
      let ts = types_if yaml t torque_signal n in
      let layout : types_of xml'.joint_fields ≡ (ps ++ vs) ++ ts =
        joint_layout yaml n node xml xml' counts e
        ∙ ap (λ fs. ((types_of fs ++ ps) ++ vs) ++ ts) new in
      let kinds : (p : MotionStateSignalType → Bool)
          → p position_signal ≡ false
          → any p ((ps ++ vs) ++ ts) ≡ (v && p velocity_signal) || (t && p torque_signal) =
        λ p none_yet. ground (
          arith,
          any-append p (ps ++ vs) ts,
          any-append p ps vs,
          any-replicate p n position_signal h,
          any-types_if p v velocity_signal n h,
          any-types_if p t torque_signal n h,
        ) in
      (
        any-types velocity_type xml'.joint_fields
            ∙ ap (any velocity_type) layout
            ∙ kinds velocity_type refl
            ∙ ground arith,
        any-types torque_type xml'.joint_fields
            ∙ ap (any torque_type) layout
            ∙ kinds torque_type refl
            ∙ ground arith,
      )
