-- ===== src/Core/Waiting/Ends.antt =====
-- The wait for the interpolation count ends, and what it has waited for then.
use kuka_drivers.Prelude.{
  Bool, Bool-cases, Option, arith, false, inl, inr, leb, refl, some, suc, true, zero, ℕ, ◌*◌, ◌+◌,
  ◌==◌, ◌≡◌, ◌≢◌, ◌≤◌, ◌⊎◌,
}
use kuka_drivers.Core.Clock.{Clock}
use kuka_drivers.Core.Waiting.{
  one_behind, retry_budget, sleep_time, wait_for_interpolation_count, wait_loop,
}

module _ {W : Type 0} (clock : Clock W) (get_current_count : W → ℕ) where
  open clock use {now, sleep, sleep_blocks}

  -- A result is there; the loop stopped because the count moved or because the deadline passed;
  -- and the count is a reading of the last moment, or the first value if the loop never slept.
  abbrev pub Waited : ℕ → ℕ → ℕ → W → Option (ℕ × W) → Type 0
  Waited deadline expected current start r =
      (c : ℕ) × (w : W) × (r ≡ some (c, w))
      × ((c ≢ one_behind expected) ⊎ (deadline ≤ now w))
      × (((c ≡ current) × (w ≡ start)) ⊎ (c ≡ get_current_count w))

  later :
      (deadline expected current : ℕ) (w w' : W) (r : Option (ℕ × W))
      → Waited deadline expected (get_current_count w') w' r
      → Waited deadline expected current w r
  later deadline expected current w w' r (c, v, p, q, inr s) = (c, v, p, q, inr s)
  later deadline expected current w w' r (c, v, p, q, inl (s, t)) = (c, v, p, q, inr (rw t s))

  sleep_advances :
      (deadline k : ℕ) (w : W)
      → leb deadline (now w) ≡ false
      → deadline ≤ now w + 200 * suc k
      → deadline ≤ now (sleep (sleep_time deadline (now w)) w) + 200 * k
  unfolding sleep_time
  sleep_advances deadline k w f h = ground (arith, sleep_blocks (sleep_time deadline (now w)) w)

  abbrev Ends : ℕ → ℕ → ℕ → ℕ → W → Type 0
  Ends fuel deadline expected current w =
      Waited deadline expected current w
        (wait_loop clock get_current_count fuel deadline expected current w)

  -- One round, given what the rounds after the sleep do when there is time left.
  round :
      (fuel deadline expected current : ℕ) (w : W)
      → (leb deadline (now w) ≡ false
          → let w' = sleep (sleep_time deadline (now w)) w in
            Ends fuel deadline expected (get_current_count w') w')
      → Ends (suc fuel) deadline expected current w
  unfolding wait_loop
  round fuel deadline expected current w more = elim (Bool-cases (current == one_behind expected)) [
    | inr e ↦ (current, w, rw e, inl (ground arith), inl (refl, refl))
    | inl e ↦ elim (Bool-cases (leb deadline (now w))) [
      | inl f ↦ (current, w, rw (e, f), inr (ground arith), inl (refl, refl))
      | inr f ↦
          let w' = sleep (sleep_time deadline (now w)) w in
          rw (e, f) (later deadline expected current w w' _ (more f))
    ]
  ]

  wait_loop_ends :
      (k deadline expected current : ℕ) (w : W)
      → deadline ≤ now w + 200 * k
      → Ends (suc k) deadline expected current w
  wait_loop_ends zero deadline expected current w h =
      round 0 deadline expected current w (λ f. absurd (ground arith))
  wait_loop_ends (suc k) deadline expected current w h =
      round (suc k) deadline expected current w λ f.
        let w' = sleep (sleep_time deadline (now w)) w in
        wait_loop_ends k deadline expected (get_current_count w') w'
          (sleep_advances deadline k w f h)

  -- The wait always returns. Without asynchronous hardware, or when the count is not exactly one
  -- behind, it returns the count given at once. Otherwise it returns the count given or the latest
  -- reading, and either that is no longer one behind or the budget of 1 ms has passed.
  pub wait_for_interpolation_count_ends :
      (expected current : ℕ) (is_async_hardware : Bool) (w : W)
      → let r =
          wait_for_interpolation_count clock get_current_count expected current is_async_hardware
            w in
        ((is_async_hardware ≡ true)
          × (current ≡ one_behind expected)
          × Waited (now w + retry_budget) expected current w r)
        ⊎ (((is_async_hardware ≡ false) ⊎ (current ≢ one_behind expected))
            × (r ≡ some (current, w)))
  unfolding wait_for_interpolation_count
  wait_for_interpolation_count_ends expected current is_async_hardware w =
      elim (Bool-cases is_async_hardware) [
        | inr e ↦ inr (inl e, rw e)
        | inl e ↦ elim (Bool-cases (current == one_behind expected)) [
          | inr f ↦ inr (inr (ground arith), rw (e, f))
          | inl f ↦ inl (
            e,
            ground (arith, f),
            rw (e, f) (wait_loop_ends 5 (now w + retry_budget) expected current w (omega arith)),
          )
        ]
      ]

  -- Whatever it waits for, it returns.
  pub wait_returns :
      (expected count : ℕ) (is_async : Bool) (w : W)
      → (c : ℕ) × (v : W) × (wait_for_interpolation_count clock get_current_count expected count
            is_async w
          ≡ some (c, v))
  wait_returns expected count is_async w =
      elim (wait_for_interpolation_count_ends expected count is_async w) [
        | inl (async, behind, (c, v, e, moved, read)) ↦ (c, v, e)
        | inr (why, e) ↦ (count, w, e)
      ]
