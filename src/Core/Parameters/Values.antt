-- ===== src/Core/Parameters/Values.antt =====
-- The parameters that the nodes register: their values, the calls of registerParameter and
-- registerStaticParameter of kuka_drivers_core/include/kuka_drivers_core/ros2_base_lc_node.hpp, and
-- what a constructor made of such calls leaves.
--
-- `M` is the state of the node. The value that a parameter starts with is its default unless one is
-- given from outside, `overrides`.
use Prim.Native.Char.{code}
use kuka_drivers.Prelude.{
  Bool, List, Option, String, [], false, if◌then◌else◌, negsuc, none, pos, some, true, ℕ, ℤ, ◌-◌,
  ◌>>=◌, ◌∷◌,
}
use kuka_drivers.Core.Modes.{Lifecycle, u32, u32_max}
use kuka_drivers.Core.Parameters.{
  Parameter, ParameterHandler, ParameterSetAccessRights, register_parameter,
}

pub data ParameterValue (Double : Type 0) : Type 0 where
  string_value : String → ParameterValue Double
  strings_value : List String → ParameterValue Double
  int_value : ℤ → ParameterValue Double
  bool_value : Bool → ParameterValue Double
  doubles_value : List Double → ParameterValue Double

-- The node, and whether an exception has left a callback.
pub record Node (M : Type 0) : Type 0 where
  pub manager : M
  pub thrown : Bool

-- The bytes of a text.
abbrev pub bytes_of : String → List ℕ
bytes_of String.[] = []
bytes_of (String.◌∷◌ c s) = code c ∷ bytes_of s

-- The 32-bit pattern of an int.
abbrev pub pattern_of : ℤ → ℕ
pattern_of (pos n) = u32 n
pattern_of (negsuc n) = u32_max - u32 n

abbrev is_some : {T : Type 0} → Option T → Bool
is_some none = false
is_some (some x) = true

-- A callback that returns, or throws (`none`). After an exception nothing is called any more.
abbrev called : {M : Type 0} → (M → M × Option Bool) → Node M → Node M × Bool
called callback node =
    let (m, result) = callback node.manager in
    if node.thrown then (node, false) else elim result [
      | none ↦ (record { manager = m; thrown = true }, false)
      | some ok ↦ (record { manager = m; thrown = false }, ok)
    ]

abbrev pub returning : {M : Type 0} → M × Bool → M × Option Bool
returning (m, ok) = (m, some ok)

-- `get` is `get_value<T>`; a value of another type never reaches the callback.
abbrev pub typed_parameter :
    {M Double T : Type 0}
    → (ParameterValue Double → Option T)
    → String
    → ParameterSetAccessRights
    → (T → M → M × Option Bool)
    → Parameter (Node M) (ParameterValue Double)
typed_parameter get name rights callback = record {
  name = name;
  rights = rights;
  has_type = λ v. is_some (get v);
  on_change_callback = λ v s. elim (get v) [ none ↦ (s, false) | some x ↦ called (callback x) s ];
}

module _ {Double : Type 0} where
  abbrev pub get_string : ParameterValue Double → Option String
  get_string (string_value x) = some x
  get_string _ = none

  abbrev pub get_strings : ParameterValue Double → Option (List String)
  get_strings (strings_value x) = some x
  get_strings _ = none

  abbrev pub get_int : ParameterValue Double → Option ℤ
  get_int (int_value x) = some x
  get_int _ = none

  abbrev pub get_bool : ParameterValue Double → Option Bool
  get_bool (bool_value x) = some x
  get_bool _ = none

  abbrev pub get_doubles : ParameterValue Double → Option (List Double)
  get_doubles (doubles_value x) = some x
  get_doubles _ = none

-- ParameterSetAccessRights{false, false}, {true, false} and {true, true}
abbrev pub startup_only : ParameterSetAccessRights
startup_only = record { inactive_allowed = false; active_allowed = false }

abbrev pub while_inactive : ParameterSetAccessRights
while_inactive = record { inactive_allowed = true; active_allowed = false }

abbrev pub any_time : ParameterSetAccessRights
any_time = record { inactive_allowed = true; active_allowed = true }

-- A call of registerParameter or, if `static_`, of registerStaticParameter.
pub record Registration (M Double : Type 0) : Type 0 where
  pub parameter : Parameter (Node M) (ParameterValue Double)
  pub default_ : ParameterValue Double
  pub static_ : Bool

abbrev pub Handler : Type 0 → Type 0 → Type 0
Handler M Double = ParameterHandler (Node M) (ParameterValue Double)

module _ {M Double : Type 0} where
  abbrev pub starting_value :
      (String → Option (ParameterValue Double)) → Registration M Double → ParameterValue Double
  starting_value overrides r = elim (overrides r.parameter.name) [ none ↦ r.default_ | some v ↦ v ]

  -- The calls in their order; `none` is an exception that leaves the constructor.
  unfoldable pub register_all :
      (String → Option (ParameterValue Double))
      → List (Registration M Double)
      → Handler M Double
      → Node M
      → Option (Handler M Double × Node M)
  register_all overrides [] h s = some (h, s)
  register_all overrides (r ∷ rs) h s = do
    (h', s') ← register_parameter r.parameter (starting_value overrides r) r.static_ h s
    register_all overrides rs h' s'

  -- A constructor: the handler is empty at first, and reads the state of the node.
  unfoldable pub construct :
      (M → Lifecycle)
      → List (Registration M Double)
      → (String → Option (ParameterValue Double))
      → M
      → Option (Handler M Double × Node M)
  unfolding register_all
  construct state_of registrations overrides initial =
      register_all overrides registrations
        (record { params = []; current_state = λ s. some (state_of s.manager) })
        (record { manager = initial; thrown = false })
