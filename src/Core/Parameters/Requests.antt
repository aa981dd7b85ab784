-- ===== src/Core/Parameters/Requests.antt =====
-- The answer to a request of several changes, and parameters that are set at startup only.
use kuka_drivers.Prelude.{
  Bool, Bool-cases, List, Option, String, [], ap, arith, false, inl, inr, none, refl, some, str_eq,
  str_eq_iff, true, ◌++◌, ◌↔◌, ◌∷◌, ◌≡◌,
}
use kuka_drivers.Core.Parameters.{
  Parameter, ParameterHandler, block_parameter, call_callback, can_set_parameter, change_all,
  change_one, find_param, on_param_change, register_parameter, set_found, with_params,
}

module _ {S V : Type 0} where
  -- The change is of a registered parameter, in a state that allows it, and the callback takes it.
  abbrev Takes : ParameterHandler S V → String → V → S → S → Type 0
  Takes h key v s s' =
      (p : Parameter S V) × (find_param key h.params ≡ some p)
      × (can_set_parameter h p s ≡ true)
      × (call_callback p v s ≡ (s', true))

  change_all-append :
      (h : ParameterHandler S V) (xs ys : List (String × V)) (s : S) (result : Bool)
      → change_all h (xs ++ ys) s result
        ≡ (let (s', result') = change_all h xs s result in change_all h ys s' result')
  unfolding change_all
  change_all-append h [] ys s result = refl
  change_all-append h ((key, v) ∷ xs) ys s result =
      let (s', result') = change_one h key v s result in change_all-append h xs ys s' result'

  change_one-Takes :
      (h : ParameterHandler S V) (key : String) (v : V) (s s' : S) (result : Bool)
      → Takes h key v s s'
      → change_one h key v s result ≡ (s', true)
  unfolding change_one
  change_one-Takes h key v s s' result (p, e, c, k) = rw (e, c) k

  -- If the last change of a request is of a registered parameter, in a state that allows it, and the
  -- callback takes it, then the whole request is reported as successful, whatever became of the
  -- changes before it.
  pub last_change_decides :
      (h : ParameterHandler S V) (earlier : List (String × V)) (key : String) (v : V) (s s' : S)
      → Takes h key v (on_param_change h earlier s).0 s'
      → on_param_change h (earlier ++ (key, v) ∷ []) s ≡ (s', true)
  unfolding on_param_change change_all
  last_change_decides h earlier key v s s' t =
      rw (change_all-append h earlier ((key, v) ∷ []) s false) (change_one-Takes h key v _ s' _ t)

  found_taken :
      (h : ParameterHandler S V) (key : String) (v : V) (s s' : S) (o : Option (Parameter S V))
      → find_param key h.params ≡ o
      → set_found h o v s false ≡ (s', true)
      → Takes h key v s s'
  found_taken h key v s s' none f e = cc (ap (λ (r : S × Bool). r.1) e)
  found_taken h key v s s' (some p) f e = elim (Bool-cases (can_set_parameter h p s)) [
    | inl c ↦ (p, f, c, rw c at e)
    | inr c ↦ let e' : (s, false) ≡ (s', true) = rw c at e in cc (ap (λ (r : S × Bool). r.1) e')
  ]

  -- A request of a single change succeeds exactly when the change is taken.
  single_change :
      (h : ParameterHandler S V) (key : String) (v : V) (s s' : S)
      → (on_param_change h ((key, v) ∷ []) s ≡ (s', true)) ↔ Takes h key v s s'
  unfolding on_param_change change_all change_one
  single_change h key v s s' = (
    found_taken h key v s s' (find_param key h.params) refl,
    λ t. change_one-Takes h key v s s' false t,
  )

  find_param-append :
      (key : String) (ps : List (Parameter S V)) (p : Parameter S V)
      → find_param key ps ≡ none
      → p.name ≡ key
      → find_param key (ps ++ p ∷ []) ≡ some p
  unfolding find_param
  find_param-append key [] p e n = ground (arith, str_eq_iff p.name key)
  find_param-append key (q ∷ ps) p e n = elim (Bool-cases (str_eq q.name key)) [
    | inl f ↦ let g : some q ≡ none = rw f at e in cc
    | inr f ↦ rw f (find_param-append key ps p (rw f at e) n)
  ]

  blocked_refuses :
      (h : ParameterHandler S V) (p : Parameter S V) (v : V) (s : S)
      → find_param p.name h.params ≡ none
      → on_param_change (with_params h (h.params ++ block_parameter p ∷ [])) ((p.name, v) ∷ []) s
        ≡ (s, false)
  unfolding on_param_change change_all change_one call_callback block_parameter
  blocked_refuses h p v s e =
      rw (find_param-append p.name h.params (block_parameter p) e refl) (ground arith)

  -- A parameter that was registered as static under a new name is never changed again: whatever
  -- its rights and the state of the node, a change is refused and leaves the node as it is.
  static_parameter_fixed :
      (h h' : ParameterHandler S V) (p : Parameter S V) (initial v : V) (s s' t : S)
      → find_param p.name h.params ≡ none
      → register_parameter p initial true h s ≡ some (h', s')
      → on_param_change h' ((p.name, v) ∷ []) t ≡ (t, false)
  unfolding register_parameter
  static_parameter_fixed h h' p initial v s s' t e r =
      let e' : with_params h (h.params ++ block_parameter p ∷ []) ≡ h' = ground arith in
      rw (← e') (blocked_refuses h p v t e)
