-- ===== src/Core/Parameters.antt =====
-- kuka_drivers_core/src/parameter_handler.cpp and its header. `S` is the state of the node that the
-- callbacks change, `V` a parameter's value of any type.
pub mod Access
pub mod Requests
pub mod Values
pub mod Registered
use kuka_drivers.Prelude.{
  Bool, List, Option, String, [], false, if◌then◌else◌, none, some, str_eq, true, ◌++◌, ◌∷◌,
}
use kuka_drivers.Core.Modes.{Lifecycle, activating, active, inactive, other_state, unconfigured}

pub record ParameterSetAccessRights : Type 0 where
  pub inactive_allowed : Bool
  pub active_allowed : Bool

unfoldable pub is_set_allowed : ParameterSetAccessRights → Lifecycle → Bool
is_set_allowed rights unconfigured = true
is_set_allowed rights inactive = rights.inactive_allowed
is_set_allowed rights active = rights.active_allowed
is_set_allowed rights activating = false
is_set_allowed rights other_state = false

abbrev allowed_in : Option Lifecycle → ParameterSetAccessRights → Bool
allowed_in none rights = true
allowed_in (some state) rights = is_set_allowed rights state

module _ (S V : Type 0) where
  -- `has_type` tells whether `get_value<T>` returns or throws InvalidParameterTypeException.
  pub record Parameter : Type 0 where
    pub name : String
    pub rights : ParameterSetAccessRights
    pub has_type : V → Bool
    pub on_change_callback : V → S → S × Bool

  -- `current_state` is `none` for a node that is no lifecycle node (`node_ == nullptr`).
  pub record ParameterHandler : Type 0 where
    pub params : List Parameter
    pub current_state : S → Option Lifecycle

module _ {S V : Type 0} where
  unfoldable pub find_param : String → List (Parameter S V) → Option (Parameter S V)
  find_param key [] = none
  find_param key (p ∷ ps) = if str_eq p.name key then some p else find_param key ps

  unfoldable pub call_callback : Parameter S V → V → S → S × Bool
  call_callback p v s = if p.has_type v then p.on_change_callback v s else (s, false)

  unfoldable pub can_set_parameter : ParameterHandler S V → Parameter S V → S → Bool
  unfolding is_set_allowed
  can_set_parameter h p s = allowed_in (h.current_state s) p.rights

  abbrev set_found : ParameterHandler S V → Option (Parameter S V) → V → S → Bool → S × Bool
  set_found h none v s result = (s, result)
  set_found h (some p) v s result =
      if can_set_parameter h p s then call_callback p v s else (s, result)

  -- One turn of the loop: `result` is `result.successful`.
  unfoldable pub change_one : ParameterHandler S V → String → V → S → Bool → S × Bool
  change_one h key v s result = set_found h (find_param key h.params) v s result

  unfoldable pub change_all : ParameterHandler S V → List (String × V) → S → Bool → S × Bool
  change_all h [] s result = (s, result)
  change_all h ((key, v) ∷ rest) s result =
      let (s', result') = change_one h key v s result in change_all h rest s' result'

  unfoldable pub on_param_change : ParameterHandler S V → List (String × V) → S → S × Bool
  on_param_change h parameters s = change_all h parameters s false

  -- `blockParameter`: the callback refuses from now on.
  unfoldable pub block_parameter : Parameter S V → Parameter S V
  block_parameter p = record p { on_change_callback = λ v s. (s, false) }

  abbrev pub with_params : ParameterHandler S V → List (Parameter S V) → ParameterHandler S V
  with_params h ps = record h { params = ps }

  -- `registerParameter`. `declare_parameter` of rclcpp calls the handler with the value that the
  -- parameter starts with, `initial`, and throws (`none`) if the handler refuses it.
  unfoldable pub register_parameter :
      Parameter S V → V → Bool → ParameterHandler S V → S → Option (ParameterHandler S V × S)
  register_parameter p initial block h s =
      let declared = with_params h (h.params ++ p ∷ []) in
      let (s', accepted) = on_param_change declared ((p.name, initial) ∷ []) s in
      let p' = if block then block_parameter p else p in
      if accepted then some (with_params h (h.params ++ p' ∷ []), s') else none
