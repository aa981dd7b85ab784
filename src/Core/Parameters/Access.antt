-- ===== src/Core/Parameters/Access.antt =====
-- Which parameter changes reach the node.
use kuka_drivers.Prelude.{
  All, Bool, Bool-cases, List, Option-cases, String, [], arith, false, inl, inr, refl, some, str_eq,
  ◌∷◌, ◌≡◌,
}
use kuka_drivers.Core.Modes.{active}
use kuka_drivers.Core.Parameters.{
  Parameter, ParameterHandler, can_set_parameter, change_all, change_one, find_param,
  is_set_allowed, on_param_change,
}

module _ {S V : Type 0} where
  -- No registered parameter may be set in the active state.
  abbrev pub LockedWhileActive : List (Parameter S V) → Type 0
  LockedWhileActive = All (λ (p : Parameter S V). p.rights.active_allowed ≡ false)

  find_param-locked :
      (key : String) (ps : List (Parameter S V)) {p : Parameter S V}
      → LockedWhileActive ps
      → find_param key ps ≡ some p
      → p.rights.active_allowed ≡ false
  unfolding find_param
  find_param-locked key [] a e = cc
  find_param-locked key (q ∷ ps) {p = p} (x, a) e = elim (Bool-cases (str_eq q.name key)) [
    | inl f ↦ let g : some q ≡ some p = rw f at e in ground arith
    | inr f ↦ find_param-locked key ps a (rw f at e)
  ]

  change_one-active :
      (h : ParameterHandler S V) (key : String) (v : V) (s : S) (result : Bool)
      → LockedWhileActive h.params
      → h.current_state s ≡ some active
      → change_one h key v s result ≡ (s, result)
  unfolding change_one can_set_parameter is_set_allowed
  change_one-active h key v s result a e = elim (Option-cases (find_param key h.params)) [
    | inl f ↦ rw f
    | inr (p, f) ↦ rw (f, e, find_param-locked key h.params a f)
  ]

  change_all-active :
      (h : ParameterHandler S V) (requests : List (String × V)) (s : S) (result : Bool)
      → LockedWhileActive h.params
      → h.current_state s ≡ some active
      → change_all h requests s result ≡ (s, result)
  unfolding change_all
  change_all-active h [] s result a e = refl
  change_all-active h ((key, v) ∷ rest) s result a e =
      rw (change_one-active h key v s result a e) (change_all-active h rest s result a e)

  -- While the node is active and no parameter's rights allow a change then, a request of any
  -- number of changes leaves the node as it is and is refused.
  on_param_change_active :
      (h : ParameterHandler S V) (requests : List (String × V)) (s : S)
      → LockedWhileActive h.params
      → h.current_state s ≡ some active
      → on_param_change h requests s ≡ (s, false)
  unfolding on_param_change
  on_param_change_active h requests s a e = change_all-active h requests s false a e
