-- ===== src/Core/Services/Loops.antt =====
-- What the loops over the robots have achieved when they end.
use kuka_drivers.Prelude.{
  Bool, Bool-cases, List, Option, String, [], ap, arith, false, if◌then◌else◌, inl, inr, length,
  length-append, refl, reverse, some, str_eq, suc, sym, take, take-length-append, true, zero, ℕ,
  ◌++◌, ◌||◌, ◌∙◌, ◌∷◌, ◌≡◌, ◌≢◌,
}
use mathlib.Core.List.{append_assoc, reverse-cons}
use kuka_drivers.Core.Modes.{Lifecycle}
use kuka_drivers.Core.Services.{
  Log, Services, bring_down, bring_up, change_hardware_state, is_ok, rollback_hardware_states,
  set_hardware_component_state,
}
use kuka_drivers.Core.Services.Effects.{elem, last_accepted, last_accepted-change}

-- The controller manager accepts every change to `state` with this time-out.
abbrev pub AcceptsAll : Services → Lifecycle → ℕ → Type 0
AcceptsAll services state timeout =
    (log : Log) (name : String)
    → services log (set_hardware_component_state name state timeout) ≡ some true

module _ (services : Services) (robot : String) where
  change_refused :
      (name : String) (state : Lifecycle) (timeout : ℕ) (log : Log)
      → (change_hardware_state services name state timeout log).1 ≡ false
      → last_accepted robot (change_hardware_state services name state timeout log).0
        ≡ last_accepted robot log
  change_refused name state timeout log e =
      ground (arith, last_accepted-change services name state timeout log robot)

  change_accepted :
      (name : String) (state : Lifecycle) (timeout : ℕ) (log : Log)
      → (change_hardware_state services name state timeout log).1 ≡ true
      → last_accepted robot (change_hardware_state services name state timeout log).0
        ≡ (if str_eq name robot then some state else last_accepted robot log)
  change_accepted name state timeout log e =
      ground (arith, last_accepted-change services name state timeout log robot)

  -- A loop of configuration or activation that ends well has brought exactly its robots to the
  -- target.
  pub bring_up_all :
      (target : Lifecycle) (t : ℕ) (back : Lifecycle) (bt : ℕ) (robot_models : List String)
      (idx : ℕ) (todo : List String) (log : Log)
      → let (log', ok) = bring_up services target t back bt robot_models idx todo log in
        ok ≡ true
        → last_accepted robot log'
          ≡ (if elem robot todo then some target else last_accepted robot log)
  unfolding bring_up
  bring_up_all target t back bt robot_models idx [] log e = refl
  bring_up_all target t back bt robot_models idx (m ∷ todo) log e =
      elim (Bool-cases (change_hardware_state services m target t log).1) [
        | inl f ↦ ground (
          arith,
          change_accepted m target t log f,
          bring_up_all target t back bt robot_models (suc idx) todo
              (change_hardware_state services m target t log).0,
        )
        | inr f ↦ ground (arith, f)
      ]

  -- Likewise a loop of cleanup or deactivation.
  pub bring_down_all :
      (target : Lifecycle) (t : ℕ) (todo : List String) (all_done : Bool) (log : Log)
      → let (log', ok) = bring_down services target t todo all_done log in
        ok ≡ true
        → (all_done ≡ true)
          × (last_accepted robot log'
              ≡ (if elem robot todo then some target else last_accepted robot log))
  unfolding bring_down
  bring_down_all target t [] all_done log e = (e, refl)
  bring_down_all target t (m ∷ todo) all_done log e =
      let (log', ok) = change_hardware_state services m target t log in
      ground (
        arith,
        last_accepted-change services m target t log robot,
        bring_down_all target t todo (if ok then all_done else false) log' e,
      )

  rollback_step :
      (back : Lifecycle) (bt : ℕ) (m : String) (log : Log)
      → AcceptsAll services back bt
      → (change_hardware_state services m back bt log).1 ≡ true
  unfolding change_hardware_state
  rollback_step back bt m log a = ap is_ok (a log m)

  rollback_all :
      (back : Lifecycle) (bt : ℕ)
      → AcceptsAll services back bt
      → (robot_models : List String) (k : ℕ) (log : Log)
      → last_accepted robot (rollback_hardware_states services robot_models k back bt log)
        ≡ (if elem robot (take k robot_models) then some back else last_accepted robot log)
  unfolding rollback_hardware_states
  rollback_all back bt a robot_models zero log = refl
  rollback_all back bt a [] (suc k) log = refl
  rollback_all back bt a (m ∷ robot_models) (suc k) log = ground (
    arith,
    rollback_all back bt a robot_models k (change_hardware_state services m back bt log).0,
    last_accepted-change services m back bt log robot,
    rollback_step back bt m log a,
  )

  elem-append :
      (xs : List String) (y : String) → elem robot (xs ++ y ∷ []) ≡ elem robot xs || str_eq y robot
  elem-append [] y = ground arith
  elem-append (x ∷ xs) y = ground (arith, elem-append xs y)

  -- The robots before `idx` are `done`; those that `done` does not name were at `before`.
  bring_up_none :
      (target : Lifecycle) (t : ℕ) (back : Lifecycle) (bt : ℕ) (robot_models : List String)
      → back ≢ target
      → AcceptsAll services back bt
      → (before : Option Lifecycle) (done : List String) (idx : ℕ) (todo : List String) (log : Log)
      → robot_models ≡ done ++ todo
      → idx ≡ length done
      → (elem robot done ≡ false → last_accepted robot log ≡ before)
      → let (log', ok) = bring_up services target t back bt robot_models idx todo log in
        ok ≡ false → last_accepted robot log' ≡ some target → before ≡ some target
  unfolding bring_up
  bring_up_none target t back bt robot_models n a before done idx [] log p q h e l = cc
  bring_up_none target t back bt robot_models n a before done idx (m ∷ todo) log p q h e l =
      let log' = (change_hardware_state services m target t log).0 in
      elim (Bool-cases (change_hardware_state services m target t log).1) [
        | inl f ↦
            bring_up_none target t back bt robot_models n a before (done ++ m ∷ []) (suc idx) todo
              log' (p ∙ sym (append_assoc done (m ∷ []) todo))
              (omega (arith, q, length-append done (m ∷ [])))
              (λ k. ground (arith, elem-append done m, change_accepted m target t log f, h))
              (rw f at e) (rw f at l)
        | inr f ↦ ground (
          arith,
          h,
          n,
          f,
          change_refused m target t log f,
          rollback_all back bt a robot_models idx log',
          rolled done (m ∷ todo) idx p q,
        )
      ]
    where
      rolled :
          (done todo : List String) (idx : ℕ)
          → robot_models ≡ done ++ todo
          → idx ≡ length done
          → take idx robot_models ≡ done
      rolled done todo idx p q = rw (p, q) (take-length-append done todo)

  -- A loop of configuration or activation that fails, with every rollback accepted, leaves no
  -- robot in the target state that was not there before.
  pub bring_up_failed :
      (target : Lifecycle) (t : ℕ) (back : Lifecycle) (bt : ℕ) (robot_models : List String)
      (log : Log)
      → back ≢ target
      → AcceptsAll services back bt
      → let (log', ok) = bring_up services target t back bt robot_models 0 robot_models log in
        ok ≡ false → last_accepted robot log' ≡ some target → last_accepted robot log ≡ some target
  bring_up_failed target t back bt robot_models log n a =
      bring_up_none target t back bt robot_models n a (last_accepted robot log) [] 0 robot_models
        log refl refl (λ _. refl)

  -- With every change accepted the loop reports what it was started with.
  pub bring_down_accepted :
      (target : Lifecycle) (t : ℕ)
      → AcceptsAll services target t
      → (todo : List String) (all_done : Bool) (log : Log)
      → (bring_down services target t todo all_done log).1 ≡ all_done
  unfolding bring_down
  bring_down_accepted target t a [] all_done log = refl
  bring_down_accepted target t a (m ∷ todo) all_done log = ground (
    arith,
    rollback_step target t m log a,
    bring_down_accepted target t a todo all_done (change_hardware_state services m target t log).0,
  )

  pub elem-reverse : (xs : List String) → elem robot (reverse xs) ≡ elem robot xs
  elem-reverse [] = refl
  elem-reverse (x ∷ xs) =
      ap (elem robot) (reverse-cons x xs)
      ∙ ground (arith, elem-append (reverse xs) x, elem-reverse xs)
