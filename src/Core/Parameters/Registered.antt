-- ===== src/Core/Parameters/Registered.antt =====
-- What a node's parameters allow after its constructor has registered them.
use kuka_drivers.Prelude.{
  All, All-append, Bool, Bool-cases, List, Option, Option-cases, String, [], ap, arith, false,
  if◌then◌else◌, inl, inr, none, refl, some, str_eq, str_eq_iff, subst, true, ◌++◌, ◌>>=◌, ◌∙◌, ◌∷◌,
  ◌≡◌, ◌⊎◌,
}
use kuka_drivers.Core.Modes.{Lifecycle, active}
use kuka_drivers.Core.Validator.{contains}
use kuka_drivers.Core.Parameters.{
  Parameter, ParameterHandler, ParameterSetAccessRights, block_parameter, can_set_parameter,
  change_all, change_one, find_param, is_set_allowed, on_param_change, register_parameter,
  with_params,
}
use kuka_drivers.Core.Parameters.Values.{
  Handler, Node, ParameterValue, Registration, construct, register_all, starting_value,
}

-- The request names none of them.
abbrev pub NamesNone : {V : Type 0} → List String → List (String × V) → Type 0
NamesNone {V} names = All (λ (change : String × V). contains change.0 names ≡ false)

-- Only parameters of these names may be set in the active state.
module _ {S V : Type 0} (names : List String) where
  abbrev pub IsLocked : Parameter S V → Type 0
  IsLocked p = (p.rights.active_allowed ≡ false) ⊎ (contains p.name names ≡ true)

  abbrev LockedWith : (S → Option Lifecycle) → ParameterHandler S V → Type 0
  LockedWith current h = All IsLocked h.params × (h.current_state ≡ current)

  find_param-locked :
      (key : String) (ps : List (Parameter S V)) {p : Parameter S V}
      → All IsLocked ps
      → contains key names ≡ false
      → find_param key ps ≡ some p
      → p.rights.active_allowed ≡ false
  unfolding find_param
  find_param-locked key [] a c e = cc
  find_param-locked key (q ∷ ps) {p = p} (x, a) c e = elim (Bool-cases (str_eq q.name key)) [
    | inl f ↦
        let g : some q ≡ some p = rw f at e in
        let n = (str_eq_iff q.name key).0 f in
        elim x [ inl locked ↦ ground (arith, g, locked) | inr named ↦ cc (named, n, c) ]
    | inr f ↦ find_param-locked key ps a c (rw f at e)
  ]

  change_one-locked :
      (h : ParameterHandler S V) (key : String) (v : V) (s : S) (result : Bool)
      → All IsLocked h.params
      → contains key names ≡ false
      → h.current_state s ≡ some active
      → change_one h key v s result ≡ (s, result)
  unfolding change_one can_set_parameter is_set_allowed
  change_one-locked h key v s result a c e = elim (Option-cases (find_param key h.params)) [
    | inl f ↦ rw f
    | inr (p, f) ↦ rw (f, e, find_param-locked key h.params a c f)
  ]

  pub change_all-locked :
      (h : ParameterHandler S V) (requests : List (String × V)) (s : S) (result : Bool)
      → All IsLocked h.params
      → NamesNone names requests
      → h.current_state s ≡ some active
      → change_all h requests s result ≡ (s, result)
  unfolding change_all
  change_all-locked h [] s result a c e = refl
  change_all-locked h ((key, v) ∷ rest) s result a (c, cs) e =
      rw (change_one-locked h key v s result a c e) (change_all-locked h rest s result a cs e)

  register-locked :
      (current : S → Option Lifecycle) (p : Parameter S V) (initial : V) (block : Bool)
      (h : ParameterHandler S V) (s : S) (h' : ParameterHandler S V) (s' : S)
      → IsLocked p
      → LockedWith current h
      → register_parameter p initial block h s ≡ some (h', s')
      → LockedWith current h'
  unfolding register_parameter block_parameter
  register-locked current p initial block h s h' s' locked before e =
      let declared = with_params h (h.params ++ p ∷ []) in
      let (after, accepted) = on_param_change declared ((p.name, initial) ∷ []) s in
      let p' = if block then block_parameter p else p in
      let rights : p'.rights ≡ p.rights = ground arith in
      let named : p'.name ≡ p.name = ground arith in
      let still : IsLocked p' = elim locked [
        | inl l ↦ inl (ap (λ (r : ParameterSetAccessRights). r.active_allowed) rights ∙ l)
        | inr n ↦ inr (ap (λ name. contains name names) named ∙ n)
      ] in
      let all_ : All IsLocked (h.params ++ p' ∷ []) =
        All-append _ h.params (p' ∷ []) before.0 (still, tt) in
      elim (Bool-cases accepted) [
        | inl a ↦
            let q : with_params h (h.params ++ p' ∷ []) ≡ h' =
              ap (λ o. elim o [ none ↦ h' | some x ↦ x.0 ]) (rw a at e) in
            subst (LockedWith current) q (all_, before.1)
        | inr a ↦ cc (rw a at e)
      ]

module _ {M Double : Type 0} (names : List String) where
  abbrev pub AllLocked : List (Registration M Double) → Type 0
  AllLocked = All (λ (r : Registration M Double). IsLocked names r.parameter)

  register_all-locked :
      (current : Node M → Option Lifecycle) (overrides : String → Option (ParameterValue Double))
      (rs : List (Registration M Double)) (h : Handler M Double) (s : Node M)
      (h' : Handler M Double) (s' : Node M)
      → AllLocked rs
      → LockedWith names current h
      → register_all overrides rs h s ≡ some (h', s')
      → LockedWith names current h'
  unfolding register_all
  register_all-locked current overrides [] h s h' s' locked before e =
      let q : h ≡ h' = ap (λ o. elim o [ none ↦ h' | some x ↦ x.0 ]) e in
      subst (LockedWith names current) q before
  register_all-locked current overrides (r ∷ rs) h s h' s' (l, locked) before e =
      let first = register_parameter r.parameter (starting_value overrides r) r.static_ h s in
      elim (Option-cases first) [
        | inl f ↦ cc (rw (f, ◌>>=◌) at e)
        | inr ((h₁, s₁), f) ↦
            let kept =
              register-locked names current r.parameter (starting_value overrides r) r.static_ h s
                h₁ s₁ l before f in
            register_all-locked current overrides rs h₁ s₁ h' s' locked kept (rw (f, ◌>>=◌) at e)
      ]

  -- Once a node is constructed whose registrations are locked, a request that names none of the
  -- names is refused while the node is active, and leaves it as it is.
  pub constructed_locked :
      (state_of : M → Lifecycle) (registrations : List (Registration M Double))
      (overrides : String → Option (ParameterValue Double)) (initial : M) (h : Handler M Double)
      (constructed node : Node M) (requests : List (String × ParameterValue Double))
      → AllLocked registrations
      → construct state_of registrations overrides initial ≡ some (h, constructed)
      → state_of node.manager ≡ active
      → NamesNone names requests
      → on_param_change h requests node ≡ (node, false)
  unfolding construct on_param_change
  constructed_locked state_of registrations overrides initial h constructed node requests all_ built
        is_active others =
      let current = λ (s : Node M). some (state_of s.manager) in
      let h₀ : Handler M Double = record { params = []; current_state = current } in
      let locked =
        register_all-locked current overrides registrations h₀
          (record { manager = initial; thrown = false }) h constructed all_ (tt, refl) built in
      change_all-locked names h requests node false locked.0 others
        (ap (λ (c : Node M → Option Lifecycle). c node) locked.1 ∙ ap some is_active)
