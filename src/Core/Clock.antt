-- ===== src/Core/Clock.antt =====
-- The steady clock and `std::this_thread::sleep_for`, which the waiting loops use. They are the
-- C++ library's: a parameter, with the behaviour that it documents. `W` is everything outside the
-- loop, so what other threads do while the loop sleeps is part of `sleep`.
use kuka_drivers.Prelude.{arith, ℕ, ◌+◌, ◌≤◌}

pub record Clock (W : Type 0) : Type 0 where
  -- the time in microseconds
  pub now : W → ℕ
  pub sleep : ℕ → W → W
  -- a sleep blocks for at least the time asked for, and the clock never goes back
  pub sleep_blocks : (d : ℕ) (w : W) → now w + d ≤ now (sleep d w)

-- A world that is its clock: each sleep takes exactly as long as asked.
abbrev pub exact_clock : Clock ℕ
exact_clock = record { now = λ w. w; sleep = λ d w. w + d; sleep_blocks = λ d w. omega arith }
