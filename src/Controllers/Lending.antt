-- ===== src/Controllers/Lending.antt =====
-- What the resource manager of ros2_control promises: a controller is lent the interfaces that it
-- asks for by name, in that order, and an interface's name is that of its component and its own.
use kuka_drivers.Prelude.{
  Bool-cases, List, Option, String, [], ap, arith, get_elem?, if◌then◌else◌, inl, inr, length, map,
  none, some, str_eq, suc, sym, zero, ℕ, ◌++◌, ◌+◌, ◌∙◌, ◌∷◌, ◌≡◌, ◌⊎◌,
}
use kuka_drivers.Core.Interfaces.{Exported, Held}
use kuka_drivers.Controllers.Names.{compose_interface_name}
use Prim.Native.String.{◌++◌ as append}
use text.Mathlib.TextLemmas.{nil-append}

abbrev pub In : {A : Type 0} → A → List A → Type 0
In x [] = ⊥
In x (y ∷ ys) = (x ≡ y) ⊎ In x ys

pub In-append_left : {A : Type 0} (x : A) (xs ys : List A) → In x xs → In x (xs ++ ys)
In-append_left x [] ys h = absurd h
In-append_left x (y ∷ xs) ys (inl e) = inl e
In-append_left x (y ∷ xs) ys (inr h) = inr (In-append_left x xs ys h)

pub In-append_right : {A : Type 0} (x : A) (xs ys : List A) → In x ys → In x (xs ++ ys)
In-append_right x [] ys h = h
In-append_right x (y ∷ xs) ys h = inr (In-append_right x xs ys h)

get_elem?-append_left :
    {A : Type 0} (xs ys : List A) (i : ℕ) (a : A)
    → get_elem? xs i ≡ some a
    → get_elem? (xs ++ ys) i ≡ some a
get_elem?-append_left [] ys i a h = cc
get_elem?-append_left (x ∷ xs) ys zero a h = h
get_elem?-append_left (x ∷ xs) ys (suc i) a h = get_elem?-append_left xs ys i a h

get_elem?-append_right :
    {A : Type 0} (xs ys : List A) (i : ℕ) → get_elem? (xs ++ ys) (length xs + i) ≡ get_elem? ys i
get_elem?-append_right [] ys i = let z : 0 + i ≡ i = omega arith in ap (get_elem? ys) z
get_elem?-append_right (x ∷ xs) ys i =
    let z : suc (length xs) + i ≡ suc (length xs + i) = omega arith in
    ap (get_elem? ((x ∷ xs) ++ ys)) z ∙ get_elem?-append_right xs ys i

pub get_elem?-map :
    {A B : Type 0} (f : A → B) (xs : List A) (i : ℕ) (a : A)
    → get_elem? xs i ≡ some a
    → get_elem? (map f xs) i ≡ some (f a)
get_elem?-map f [] i a h = cc
get_elem?-map f (x ∷ xs) zero a h = ap (λ o. elim o [ none ↦ none | some b ↦ some (f b) ]) h
get_elem?-map f (x ∷ xs) (suc i) a h = get_elem?-map f xs i a h

module _ {Double V : Type 0} (held : V → Held Double) where
  -- The state interface at an index has the value of the exported interface whose name was asked
  -- for at that index.
  abbrev pub Lends : (ℕ → Option V) → List String → List (Exported Double) → Type 0
  Lends reading names exports =
      (i : ℕ) (group name : String) (v : V)
      → get_elem? names i ≡ some (append (append group "/") name)
      → In (group, name, held v) exports
      → reading i ≡ some v

  module _ (reading : ℕ → Option V) (names more_names : List String)
      (exports more_exports : List (Exported Double))
      (lends : Lends reading (names ++ more_names) (exports ++ more_exports)) where
    pub Lends-first : Lends reading names exports
    Lends-first i group name v asked h =
        lends i group name v (get_elem?-append_left names more_names i _ asked)
          (In-append_left _ exports more_exports h)

    pub Lends-rest : Lends (λ i. reading (length names + i)) more_names more_exports
    Lends-rest i group name v asked h =
        lends (length names + i) group name v (get_elem?-append_right names more_names i ∙ asked)
          (In-append_right _ exports more_exports h)

-- The `interface_prefix` that the hardware of a robot has to have.
abbrev pub interface_prefix_of : String → String
interface_prefix_of robot_prefix = if str_eq robot_prefix "" then "" else append robot_prefix "_"

pub compose_full_name :
    (robot_prefix group name : String)
    → compose_interface_name robot_prefix group name
      ≡ append (append (append (interface_prefix_of robot_prefix) group) "/") name
unfolding compose_interface_name
compose_full_name robot_prefix group name = elim (Bool-cases (str_eq robot_prefix "")) [
  | inl e ↦ rw e (ap (λ s. append (append s "/") name) (sym (nil-append group)))
  | inr e ↦ rw e
]
