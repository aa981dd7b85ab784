-- ===== src/Rsi/Base/Gpio.antt =====
-- The GPIO of kuka_rsi_driver/src/hardware_interface_rsi_base.cpp: which state belongs to which
-- command, and the copy from one to the other.
use kuka_drivers.Prelude.{
  Bool-cases, List, Option, String, [], arith, get_elem?, if◌then◌else◌, inl, inr, length, none,
  refl, some, str_eq, suc, ℕ, ◌>>=◌, ◌∷◌, ◌≡◌, ◌⊎◌,
}
use kuka_drivers.Rsi.Base.{RsiHardware}

-- The `find_if` over the state interfaces.
unfoldable pub index_of : String → List String → Option ℕ
index_of name [] = none
index_of name (state ∷ states) =
    let rest : Option ℕ = (do k ← index_of name states; some (suc k)) in
    if str_eq state name then some 0 else rest

-- The loop over the command interfaces of `on_init`.
unfoldable pub states_to_commands_map : List String → List String → List (Option ℕ)
states_to_commands_map [] states = []
states_to_commands_map (command ∷ commands) states =
    index_of command states ∷ states_to_commands_map commands states

module _ {Double : Type 0} where
  -- The loop of `CopyGPIOStatesToCommands`; `none` is a read or a write out of bounds.
  unfoldable pub copy_states_to_commands :
      List (Option ℕ) → List Double → List Double → Option (List Double)
  copy_states_to_commands [] states commands = some commands
  copy_states_to_commands (none ∷ indices) states [] = copy_states_to_commands indices states []
  copy_states_to_commands (none ∷ indices) states (command ∷ commands) = do
    rest ← copy_states_to_commands indices states commands
    some (command ∷ rest)
  copy_states_to_commands (some k ∷ indices) states [] = none
  copy_states_to_commands (some k ∷ indices) states (command ∷ commands) = do
    state ← get_elem? states k
    rest ← copy_states_to_commands indices states commands
    some (state ∷ rest)

  unfoldable pub copy_gpio_states_to_commands : RsiHardware Double → Option (RsiHardware Double)
  copy_gpio_states_to_commands hw = do
    commands ←
        copy_states_to_commands hw.gpio_states_to_commands_map hw.gpio_states hw.gpio_commands
    some (record hw { gpio_commands = commands })

  -- The value of the first state with a name.
  unfoldable pub lookup : String → List String → List Double → Option Double
  lookup name [] values = none
  lookup name (state ∷ states) [] = none
  lookup name (state ∷ states) (value ∷ values) =
      let rest = lookup name states values in if str_eq state name then some value else rest

  -- Each command with the value of the state of its name, if there is one.
  unfoldable pub named_values : List String → List String → List Double → List Double → List Double
  named_values [] states values commands = commands
  named_values (name ∷ names) states values [] = []
  named_values (name ∷ names) states values (command ∷ commands) =
      elim (lookup name states values) [ none ↦ command | some value ↦ value ]
      ∷ named_values names states values commands

  index_lookup :
      (name : String) (states : List String) (values : List Double)
      → length states ≡ length values
      → ((index_of name states ≡ none) × (lookup name states values ≡ none))
        ⊎ ((k : ℕ) × (v : Double) × (index_of name states ≡ some k)
            × (get_elem? values k ≡ some v)
            × (lookup name states values ≡ some v))
  unfolding index_of lookup
  index_lookup name [] values e = inl (refl, refl)
  index_lookup name (s ∷ states) [] e = absurd (omega (arith, e))
  index_lookup name (s ∷ states) (v ∷ values) e = elim (Bool-cases (str_eq s name)) [
    | inl t ↦ inr (0, v, rw t refl, refl, rw t refl)
    | inr t ↦ elim (index_lookup name states values (omega (arith, e))) [
      | inl (i, l) ↦ inl (rw (t, i) refl, rw (t, l) refl)
      | inr (k, u, i, g, l) ↦ inr (suc k, u, rw (t, i) refl, g, rw (t, l) refl)
    ]
  ]

  -- With one value for each state and one for each command, the map that `on_init` makes of the
  -- names lets the copy succeed, and it gives each command whose name a state has the value of the
  -- first such state, and leaves the others.
  pub copy_by_name :
      (names states : List String) (values commands : List Double)
      → length states ≡ length values
      → length names ≡ length commands
      → copy_states_to_commands (states_to_commands_map names states) values commands
        ≡ some (named_values names states values commands)
  unfolding copy_states_to_commands states_to_commands_map named_values
  copy_by_name [] states values commands e f = refl
  copy_by_name (n ∷ names) states values [] e f = absurd (omega (arith, f))
  copy_by_name (n ∷ names) states values (c ∷ commands) e f =
      let rest = copy_by_name names states values commands e (omega (arith, f)) in
      elim (index_lookup n states values e) [
        | inl (i, l) ↦ rw (i, l, rest) refl
        | inr (k, v, i, g, l) ↦ rw (i, g, l, rest) refl
      ]
