-- ===== src/Core/LifecycleManager/Ends.antt =====
-- How the lifecycle manager's waits end, and in which order it sends its requests.
use kuka_drivers.Prelude.{
  Bool, Bool-cases, Option, [], arith, inl, inr, ltb, ltb_ℤ, negsuc, pos, refl, some, sub_ℕ, subst,
  suc, sym, true, zero, ℕ, ℤ, ◌&&◌, ◌*◌, ◌+◌, ◌-ℤ◌, ◌-◌, ◌/◌, ◌>>=◌, ◌∷◌, ◌≡◌, ◌≤ℤ◌, ◌≤◌, ◌⊎◌,
}
use kuka_drivers.Core.Clock.{Clock}
use kuka_drivers.Core.LifecycleManager.{
  Sent, change_state, run, run_activate, sleep_interruptible, sleep_loop,
}

module _ {W : Type 0} (clock : Clock W) (rclcpp_ok : W → Bool) where
  open clock use {now, sleep, sleep_blocks}

  -- At the end of a wait rclcpp has been shut down, or the delay is over.
  abbrev Over : ℕ → ℕ → W → Type 0
  Over start delay w = rclcpp_ok w ≡ true → start + delay ≤ now w

  sleep_loop_ends :
      (k start delay : ℕ) (w : W)
      → start ≤ now w
      → start + delay ≤ now w + k * 50000
      → (w' : W) × (sleep_loop clock rclcpp_ok (suc k) start delay w ≡ some w')
        × Over start delay w'
  unfolding sleep_loop
  sleep_loop_ends zero start delay w s h = (w, ground (arith, h), λ e. omega (arith, h))
  sleep_loop_ends (suc k) start delay w s h =
      elim (Bool-cases (rclcpp_ok w && ltb (now w - start) delay)) [
        | inl again ↦
            let slept = sleep_blocks 50000 w in
            let (w', e, over) =
              sleep_loop_ends k start delay (sleep 50000 w) (omega (arith, s, slept))
                (omega (arith, h, slept)) in
            (w', rw (again, e) refl, over)
        | inr ends ↦ (w, rw ends refl, λ e. ground (arith, ends, s))
      ]

  -- The wait of a delay returns; it reports success exactly if rclcpp is still running, and then
  -- the delay is over.
  sleep_ends :
      (delay : ℤ) (w : W)
      → (w' : W) × (sleep_interruptible clock rclcpp_ok delay w ≡ some (w', rclcpp_ok w'))
        × (rclcpp_ok w' ≡ true → delay ≤ℤ sub_ℕ (now w') (now w))
  unfolding sleep_interruptible
  sleep_ends (pos zero) w = (w, refl, λ e. ground arith)
  sleep_ends (negsuc n) w = (w, refl, λ e. ground arith)
  sleep_ends (pos (suc n)) w =
      let (w', e, over) =
        sleep_loop_ends (suc n / 50000 + 1) (now w) (suc n) w (omega arith) (omega arith) in
      (w', rw (e, sleep_interruptible) refl, λ r. ground (arith, over r))

  module _ (request : ℕ → W → W × Option Bool) where
    -- What may have been sent: nothing; a request to configure, no sooner than its delay; or that,
    -- which was accepted, and behind it a request to activate, no sooner than the rest of its delay
    -- after the answer to the first.
    pub data IsOrderly (configure_delay activate_delay : ℤ) (start : W) : Sent → Type 0 where
      nothing_sent : IsOrderly configure_delay activate_delay start []
      configure_sent :
          (v : W)
          → configure_delay ≤ℤ sub_ℕ (now v) (now start)
          → IsOrderly configure_delay activate_delay start ((1, now v) ∷ [])
      activate_sent :
          (v u : W)
          → configure_delay ≤ℤ sub_ℕ (now v) (now start)
          → (request 1 v).1 ≡ some true
          → activate_delay -ℤ configure_delay ≤ℤ sub_ℕ (now u) (now (request 1 v).0)
          → IsOrderly configure_delay activate_delay start ((3, now u) ∷ (1, now v) ∷ [])

    accepted :
        (v : W) → (change_state clock rclcpp_ok request 1 v).1 ≡ true → (request 1 v).1 ≡ some true
    unfolding change_state
    accepted v e = ground arith

    answered : (v : W) → (change_state clock rclcpp_ok request 1 v).0 ≡ (request 1 v).0
    unfolding change_state
    answered v = refl

    activate_ends :
        (remaining : ℤ) (sent : Sent) (w : W)
        → (w' : W) × (sent' : Sent) × (run_activate clock rclcpp_ok request remaining sent w
            ≡ some (w', sent'))
          × ((sent' ≡ sent)
              ⊎ ((u : W) × (sent' ≡ (3, now u) ∷ sent) × (remaining ≤ℤ sub_ℕ (now u) (now w))))
    unfolding run_activate
    activate_ends remaining sent w =
        let (w₁, e₁, over₁) = sleep_ends remaining w in
        elim (Bool-cases (ltb_ℤ (pos 0) remaining)) [
          | inr at_once ↦ (
            (change_state clock rclcpp_ok request 3 w).0,
            (3, now w) ∷ sent,
            rw at_once refl,
            inr (w, refl, ground (arith, at_once)),
          )
          | inl later ↦ elim (Bool-cases (rclcpp_ok w₁)) [
            | inr down ↦ (w₁, sent, rw (later, e₁, ◌>>=◌) (rw down refl), inl refl)
            | inl up ↦ (
              (change_state clock rclcpp_ok request 3 w₁).0,
              (3, now w₁) ∷ sent,
              rw (later, e₁, ◌>>=◌) (rw up refl),
              inr (w₁, refl, over₁ up),
            )
          ]
        ]

    orderly :
        (configure_delay activate_delay : ℤ) (start v : W) (sent : Sent)
        → configure_delay ≤ℤ sub_ℕ (now v) (now start)
        → (request 1 v).1 ≡ some true
        → (sent ≡ (1, now v) ∷ [])
          ⊎ ((u : W) × (sent ≡ (3, now u) ∷ (1, now v) ∷ [])
              × (activate_delay -ℤ configure_delay ≤ℤ sub_ℕ (now u) (now (request 1 v).0)))
        → IsOrderly configure_delay activate_delay start sent
    orderly c a start v sent waited yes_ (inl e) =
        subst (IsOrderly c a start) (sym e) (configure_sent v waited)
    orderly c a start v sent waited yes_ (inr (u, e, later)) =
        subst (IsOrderly c a start) (sym e) (activate_sent v u waited yes_ later)

    -- `run` returns, whatever the service answers and whenever rclcpp is shut down. It has sent
    -- nothing; or a request to configure, no sooner than its delay; or, after that was accepted, a
    -- request to activate too, no sooner than the rest of the delay of the activation after the
    -- answer to the first.
    pub run_ends :
        (configure_delay activate_delay : ℤ) (w : W)
        → (w' : W) × (sent : Sent) × (run clock rclcpp_ok request configure_delay activate_delay w
            ≡ some (w', sent))
          × IsOrderly configure_delay activate_delay w sent
    unfolding run
    run_ends configure_delay activate_delay w =
        let (w₁, e₁, over₁) = sleep_ends configure_delay w in
        let w₂ = (change_state clock rclcpp_ok request 1 w₁).0 in
        let rest = activate_delay -ℤ configure_delay in
        let (w₃, sent, e₃, what) = activate_ends rest ((1, now w₁) ∷ []) w₂ in
        elim (Bool-cases (rclcpp_ok w₁)) [
          | inr down ↦ (w₁, [], rw (e₁, ◌>>=◌) (rw down refl), nothing_sent)
          | inl up ↦ elim (Bool-cases (change_state clock rclcpp_ok request 1 w₁).1) [
            | inr refused ↦ (
              w₂,
              (1, now w₁) ∷ [],
              rw (e₁, ◌>>=◌) (rw (up, refused) refl),
              configure_sent w₁ (over₁ up),
            )
            | inl done ↦ (
              w₃,
              sent,
              rw (e₁, ◌>>=◌) (rw (up, done) e₃),
              orderly configure_delay activate_delay w w₁ sent (over₁ up) (accepted w₁ done)
                  (rw (answered w₁) at what),
            )
          ]
        ]
