-- ===== src/Tests/Lookup.antt =====
-- A resource manager that looks interfaces up by their names, which lends what is exported under
-- names that are unique.
use kuka_drivers.Prelude.{
  All, List, Option, String, [], ap, get_elem?, if◌then◌else◌, inl, inr, none, some, str_eq, ℕ, ◌∙◌,
  ◌∷◌, ◌≡◌,
}
use kuka_drivers.Core.Interfaces.{Exported, Held}
use kuka_drivers.Controllers.Lending.{In, Lends}
use Prim.Native.String.{◌++◌ as append}

module _ {Double : Type 0} where
  abbrev full_name : Exported Double → String
  full_name (group, name, v) = append (append group "/") name

  abbrev lookup_full : String → List (Exported Double) → Option (Held Double)
  lookup_full n [] = none
  lookup_full n (e ∷ es) = if str_eq (full_name e) n then some (e.2) else lookup_full n es

  -- Each of `es` is found under its name.
  abbrev pub AreFound : List (Exported Double) → List (Exported Double) → Type 0
  AreFound exports = All (λ (e : Exported Double). lookup_full (full_name e) exports ≡ some (e.2))

  found-In :
      (exports es : List (Exported Double)) (e : Exported Double)
      → AreFound exports es
      → In e es
      → lookup_full (full_name e) exports ≡ some (e.2)
  found-In exports [] e h i = absurd i
  found-In exports (x ∷ es) e h (inl q) = rw q h.0
  found-In exports (x ∷ es) e h (inr i) = found-In exports es e h.1 i

  module _ {V : Type 0} (held : V → Held Double) (unheld : Held Double → Option V) where
    abbrev found_value : Option (Held Double) → Option V
    found_value none = none
    found_value (some x) = unheld x

    abbrev named_value : List (Exported Double) → Option String → Option V
    named_value exports none = none
    named_value exports (some n) = found_value (lookup_full n exports)

    abbrev pub lent_value : List (Exported Double) → List String → ℕ → Option V
    lent_value exports names i = named_value exports (get_elem? names i)

    pub lent_value-Lends :
        (exports : List (Exported Double)) (names : List String)
        → ((v : V) → unheld (held v) ≡ some v)
        → AreFound exports exports
        → Lends held (lent_value exports names) names exports
    lent_value-Lends exports names inverse found i group name v asked e =
        ap (named_value exports) asked
        ∙ (ap found_value (found-In exports exports (group, name, held v) found e) ∙ inverse v)
