-- ===== src/Dashboard/Backoff.antt =====
-- The delay before a reconnect, `backoff_for` of crates/dashboard/src/stream.rs.
use prospero.Prelude.{ℕ, zero, suc, ◌+◌, ◌≤◌, ◌≡◌, refl, min, arith}
use prospero.Dashboard.Session.{backoff_for, max_backoff}

five : (n : ℕ) → suc (suc (suc (suc (suc n)))) ≡ n + 5
five n = omega arith

backoff_capped : (n : ℕ) → backoff_for (n + 5) ≡ max_backoff
unfolding backoff_for
backoff_capped zero = refl
backoff_capped (suc n) = let e : min (suc n + 5) 6 ≡ 6 = omega arith in rw e (ground arith)

-- The delay is at least half a second and at most the cap, which every attempt from the fifth on
-- reaches, and it never falls from one attempt to the next.
backoff_bounds :
    (attempt : ℕ)
    → (500 ≤ backoff_for attempt)
      × (backoff_for attempt ≤ max_backoff)
      × (backoff_for attempt ≤ backoff_for (suc attempt))
      × (max_backoff ≤ backoff_for (attempt + 5))
unfolding backoff_for
backoff_bounds zero = omega (arith, backoff_capped 0)
backoff_bounds (suc zero) = omega (arith, backoff_capped 1)
backoff_bounds (suc (suc zero)) = omega (arith, backoff_capped 2)
backoff_bounds (suc (suc (suc zero))) = omega (arith, backoff_capped 3)
backoff_bounds (suc (suc (suc (suc zero)))) = omega (arith, backoff_capped 4)
backoff_bounds (suc (suc (suc (suc (suc n))))) =
    let here : backoff_for (suc (suc (suc (suc (suc n))))) ≡ max_backoff =
      rw (five n) (backoff_capped n) in
    let after : backoff_for (suc (suc (suc (suc (suc (suc n)))))) ≡ max_backoff =
      rw (five (suc n)) (backoff_capped (suc n)) in
    omega (arith, here, after, backoff_capped (suc (suc (suc (suc (suc n))))))
