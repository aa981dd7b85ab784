-- ===== src/Fri/Manager/Parameters/Locked.antt =====
-- What the parameters of the FRI driver allow.
use kuka_drivers.Prelude.{Bool, List, Option, String, [], false, inl, refl, some, ◌∷◌, ◌≡◌}
use kuka_drivers.Core.Modes.{active}
use kuka_drivers.Core.Validator.{contains}
use kuka_drivers.Core.Parameters.{on_param_change}
use kuka_drivers.Core.Parameters.Values.{Handler, Node, ParameterValue}
use kuka_drivers.Core.Parameters.Registered.{NamesNone, constructed_locked}
use kuka_drivers.Fri.Manager.{FriManager}
use kuka_drivers.Fri.Manager.Parameters.{construct_fri_node, fri_registrations}

module _ {Double : Type 0} where
  names_none : (requests : List (String × ParameterValue Double)) → NamesNone [] requests
  unfolding contains
  names_none [] = tt
  names_none (request ∷ requests) = (refl, names_none requests)

  -- Once the FRI driver's node is constructed, a request of any number of parameter changes that
  -- comes while the node is active is refused and leaves the node as it is.
  pub active_fri_node_unchanged :
      (ns : String) (below : Double → Double → Bool) (zero_double one_double : Double)
      (initial : FriManager Double) (overrides : String → Option (ParameterValue Double))
      (h : Handler (FriManager Double) Double) (constructed node : Node (FriManager Double))
      (requests : List (String × ParameterValue Double))
      → construct_fri_node ns below zero_double one_double initial overrides ≡ some (h, constructed)
      → node.manager.state ≡ active
      → on_param_change h requests node ≡ (node, false)
  unfolding construct_fri_node fri_registrations contains
  active_fri_node_unchanged ns below zero_double one_double initial overrides h constructed node
        requests built is_active =
      let f : false ≡ false = refl in
      constructed_locked [] (λ fm. fm.state)
        (fri_registrations ns below zero_double one_double initial) overrides initial h constructed
        node requests
        (inl f, (inl f, (inl f, (inl f, (inl f, (inl f, (inl f, (inl f, (inl f, tt))))))))) built
        is_active (names_none requests)
