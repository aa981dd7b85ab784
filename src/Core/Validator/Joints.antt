-- ===== src/Core/Validator/Joints.antt =====
-- The checks of a robot's joints that the hardware interfaces of all drivers make in `on_init`, each
-- with its own names.
use mathlib.Core.List.{Nodup, Nodup-cons, Nodup-nil, Perm}
use kuka_drivers.Prelude.{
  &&-eq-true, All, Bool, Bool-cases, List, String, [], arith, false, if◌then◌else◌, inl, inr, not,
  refl, true, ◌&&◌, ◌↔◌, ◌∷◌, ◌≡◌,
}
use kuka_drivers.Core.Validator.{
  JointInfo, contains, validate_joint_command_interfaces, validate_joint_state_interfaces,
}
use kuka_drivers.Core.Validator.Exact.{not-Mem, validate_interfaces_exact}

-- CheckJointInterfaces, CheckJointCommandInterfaces and CheckJointStateInterfaces
unfoldable pub check_joint_interfaces : List String → List String → JointInfo → Bool
check_joint_interfaces command_names state_names joint =
    validate_joint_command_interfaces joint command_names
    && validate_joint_state_interfaces joint state_names

-- The loop over the joints, which ends at the first that does not pass.
unfoldable pub check_joints : List String → List String → List JointInfo → Bool
check_joints command_names state_names [] = true
check_joints command_names state_names (joint ∷ joints) =
    let rest = check_joints command_names state_names joints in
    if not (check_joint_interfaces command_names state_names joint) then false else rest

abbrev distinct : List String → Bool
distinct [] = true
distinct (x ∷ xs) = not (contains x xs) && distinct xs

distinct-Nodup : (xs : List String) → distinct xs ≡ true → Nodup xs
distinct-Nodup [] h = Nodup-nil
distinct-Nodup (x ∷ xs) h =
    Nodup-cons.1 (not-Mem x xs (ground arith), distinct-Nodup xs (ground arith))

module _ (command_names state_names : List String) where
  -- The joint declares the names in some order.
  abbrev pub Declares : JointInfo → Type 0
  Declares joint =
      Perm joint.command_interfaces command_names × Perm joint.state_interfaces state_names

  joint_exact :
      (joint : JointInfo)
      → distinct command_names ≡ true
      → distinct state_names ≡ true
      → (check_joint_interfaces command_names state_names joint ≡ true) ↔ Declares joint
  unfolding check_joint_interfaces validate_joint_command_interfaces validate_joint_state_interfaces
  joint_exact joint dc ds =
      let (c₁, c₂) =
        validate_interfaces_exact joint.command_interfaces command_names
          (distinct-Nodup command_names dc) in
      let (s₁, s₂) =
        validate_interfaces_exact joint.state_interfaces state_names
          (distinct-Nodup state_names ds) in
      (λ h. let (p, q) = &&-eq-true _ _ h in (c₁ p, s₁ q), λ d. rw (c₂ d.0, s₂ d.1) refl)

  -- The check passes exactly if every joint declares the expected names in some order, those of
  -- its command interfaces and those of its state interfaces.
  pub check_joints_exact :
      (joints : List JointInfo)
      → distinct command_names ≡ true
      → distinct state_names ≡ true
      → (check_joints command_names state_names joints ≡ true) ↔ All Declares joints
  unfolding check_joints
  check_joints_exact [] dc ds = (λ h. tt, λ h. refl)
  check_joints_exact (joint ∷ joints) dc ds =
      let (one, back) = joint_exact joint dc ds in
      let (more, backs) = check_joints_exact joints dc ds in
      elim (Bool-cases (check_joint_interfaces command_names state_names joint)) [
        | inl e ↦ (λ h. (one e, more (rw e at h)), λ d. rw e (backs d.1))
        | inr e ↦ (λ h. absurd (ground (arith, e, h)), λ d. absurd (ground (arith, e, back d.0)))
      ]
