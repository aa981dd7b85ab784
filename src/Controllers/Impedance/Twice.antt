-- ===== src/Controllers/Impedance/Twice.antt =====
-- What configuring the controller twice does.
use mathlib.Core.List.{append_assoc}
use kuka_drivers.Prelude.{ap, arith, some, sym, ◌++◌, ◌∙◌, ◌≡◌}
use kuka_drivers.Core.Modes.{success}
use kuka_drivers.Controllers.Impedance.{
  Callback, ImpedanceController, Params, joint_interface_names, on_configure, read_listened,
  read_parameters,
}

module _ {Double : Type 0} where
  reads_again :
      (listened : Params) (c : ImpedanceController Double)
      → c.param_listener ≡ some listened
      → (read_parameters c).1 ≡ success
      → let c' = (read_parameters c).0 in
        (c'.param_listener ≡ some listened)
        × ((read_parameters c').1 ≡ success)
        × (c'.command_interface_types
            ≡ c.command_interface_types
              ++ joint_interface_names listened.joints listened.interface_names)
  unfolding read_parameters read_listened
  reads_again listened c e ok = ground (arith, e, ok)

  -- What the base class's `on_configure` does to the members that the controller reads: it calls
  -- `read_parameters` and passes its result on.
  abbrev pub ReadsOnce : (Callback Double → Callback Double) → Type 0
  ReadsOnce base_on_configure =
      (read : Callback Double) (c : ImpedanceController Double)
      → let (c', result) = base_on_configure read c in
        (c'.param_listener ≡ (read c).0.param_listener)
        × (c'.command_interface_types ≡ (read c).0.command_interface_types)
        × (result ≡ (read c).1)

  module _ (zero_value : Double) (base : Callback Double → Callback Double)
      (once : ReadsOnce base) where
    configures_again :
        (listened : Params) (c : ImpedanceController Double)
        → c.param_listener ≡ some listened
        → (on_configure zero_value base c).1 ≡ success
        → let c' = (on_configure zero_value base c).0 in
          (c'.param_listener ≡ some listened)
          × (c'.command_interface_types
              ≡ c.command_interface_types
                ++ joint_interface_names listened.joints listened.interface_names)
    unfolding on_configure
    configures_again listened c e ok =
        let (listener, types, result) = once read_parameters c in
        let (e', ok', names) = reads_again listened c e (sym result ∙ ok) in
        (listener ∙ e', types ∙ names)

    -- If the base class's configuration reads the parameters once, then two configurations that
    -- succeed ask for every command interface of the joints twice, as the names of the first are
    -- not removed.
    pub interfaces_asked_twice :
        (listened : Params) (c : ImpedanceController Double)
        → c.param_listener ≡ some listened
        → let (c₁, first) = on_configure zero_value base c in
          let (c₂, second) = on_configure zero_value base c₁ in
          let names = joint_interface_names listened.joints listened.interface_names in
          first ≡ success
          → second ≡ success
          → c₂.command_interface_types ≡ c.command_interface_types ++ (names ++ names)
    interfaces_asked_twice listened c e ok₁ ok₂ =
        let names = joint_interface_names listened.joints listened.interface_names in
        let (e', types₁) = configures_again listened c e ok₁ in
        let (e'', types₂) = configures_again listened (on_configure zero_value base c).0 e' ok₂ in
        types₂ ∙ (ap (λ l. l ++ names) types₁ ∙ append_assoc c.command_interface_types names names)
