-- ===== src/Controllers/Impedance.antt =====
-- controllers/joint_group_impedance_controller/src/joint_group_impedance_controller.cpp: a forward
-- controller for the stiffness and the damping of the joints, which also publishes the commanded
-- positions.
--
-- ForwardControllersBase is no code of the repository: what its callbacks do is a parameter. Its
-- `on_configure` calls `read_parameters` of this controller.
pub mod Twice
use kuka_drivers.Prelude.{
  Bool, List, Option, String, [], false, if◌then◌else◌, length, map, none, resize, some, true, ◌++◌,
  ◌>>=◌, ◌∷◌,
}
use kuka_drivers.Core.Modes.{CallbackReturn, error, failure, success}
use kuka_drivers.Core.Interfaces.{hw_if_commanded_position, hw_if_damping, hw_if_stiffness}
use Prim.Native.String.{◌++◌ as append}

-- The parameters that the listener holds.
pub record Params : Type 0 where
  pub joints : List String
  pub interface_names : List String

pub record ImpedanceController (Double : Type 0) : Type 0 where
  -- `none` is a listener that was not made
  pub param_listener : Option Params
  pub params : Params
  pub command_interface_types : List String
  pub commanded_joint_pos : List Double
  -- the messages published, the latest first
  pub published : List (List Double)

-- The loops that make the names of the command interfaces.
abbrev pub joint_interface_names : List String → List String → List String
joint_interface_names [] interfaces = []
joint_interface_names (joint ∷ joints) interfaces =
    map (λ interface. append (append joint "/") interface) interfaces
    ++ joint_interface_names joints interfaces

abbrev pub is_empty : List String → Bool
is_empty [] = true
is_empty (x ∷ xs) = false

abbrev pub Callback : Type 0 → Type 0
Callback Double = ImpedanceController Double → ImpedanceController Double × CallbackReturn

module _ {Double : Type 0} where
  unfoldable pub read_listened : Params → Callback Double
  read_listened listened controller =
      let controller' = record controller { params = listened } in
      let names = joint_interface_names listened.joints listened.interface_names in
      if is_empty listened.joints
      then (controller', error)
      else if is_empty listened.interface_names
      then (controller', error)
      else (
        record controller' {
          command_interface_types = controller.command_interface_types ++ names;
        },
        success,
      )

  unfoldable pub read_parameters : Callback Double
  unfolding read_listened
  read_parameters controller = elim controller.param_listener [
    | none ↦ (controller, error)
    | some listened ↦ read_listened listened controller
  ]

  abbrev set_interface_names : List String → ImpedanceController Double → ImpedanceController Double
  set_interface_names names controller = record controller {
    param_listener = elim controller.param_listener [
      | none ↦ none
      | some listened ↦ some (record listened { interface_names = names })
    ];
  }

  -- `set_throws` says whether the parameter cannot be set.
  unfoldable pub on_init : Callback Double → Bool → Callback Double
  on_init base_on_init set_throws controller =
      let (controller', result) = base_on_init controller in
      elim result [
        | success ↦
            if set_throws
            then (controller', error)
            else (set_interface_names (hw_if_stiffness ∷ hw_if_damping ∷ []) controller', success)
        | failure ↦ (controller', failure)
        | error ↦ (controller', error)
      ]

  unfoldable pub on_configure : Double → (Callback Double → Callback Double) → Callback Double
  unfolding read_parameters
  on_configure zero_value base_on_configure controller =
      let (controller', result) = base_on_configure read_parameters controller in
      let joints = length controller'.params.joints in
      (
        record controller' {
          commanded_joint_pos = resize joints zero_value controller'.commanded_joint_pos;
        },
        result,
      )

  unfoldable pub state_interface_names : ImpedanceController Double → List String
  state_interface_names controller =
      map (λ joint. append (append joint "/") hw_if_commanded_position) controller.params.joints

  -- The loop over the state interfaces; `none` is a write past the end.
  unfoldable pub read_positions : List (Option Double) → List Double → Option (List Double)
  read_positions [] positions = some positions
  read_positions (reading ∷ readings) [] = none
  read_positions (reading ∷ readings) (position ∷ positions) = do
    rest ← read_positions readings positions
    some (elim reading [ none ↦ position | some v ↦ v ] ∷ rest)

  unfoldable pub update :
      (ImpedanceController Double → ImpedanceController Double × Bool)
      → List (Option Double)
      → Bool
      → ImpedanceController Double
      → Option (ImpedanceController Double × Bool)
  unfolding read_positions
  update base_update readings lock_free controller = do
    positions ← read_positions readings controller.commanded_joint_pos
    let controller' = record controller {
      commanded_joint_pos = positions;
      published = if lock_free then positions ∷ controller.published else controller.published;
    }
    some (base_update controller')
