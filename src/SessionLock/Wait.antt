-- ===== src/SessionLock/Wait.antt =====
-- The loop of `acquire` of the session locks of app/session_cache.py.
use customer_service.Prelude.{
  ℕ, zero, suc, ◌+◌, ◌-◌, ◌≤◌, ◌<◌, ◌≡◌, inl, inr, refl, Bool, true, false, some, arith, leb,
  Bool-cases, ℕ_discrete,
}
use customer_service.SessionLock.{Waited, got, session_busy, wait}

module _ (tries : ℕ → Bool) (clock : ℕ → ℕ) (deadline : ℕ) where
  -- no try from one on, up to another, succeeded or came behind the deadline
  abbrev pub IsFruitless : ℕ → ℕ → Type 0
  IsFruitless n m = (i : ℕ) → n ≤ i → i < m → (tries i ≡ false) × (clock i < deadline)

  -- the lock was got at the first try that succeeded, or given up at the first behind the deadline
  abbrev pub IsFair : ℕ → Waited → Type 0
  IsFair n (got m) = (n ≤ m) × (tries m ≡ true) × IsFruitless n m
  IsFair n session_busy =
      (m : ℕ) × (n ≤ m) × (tries m ≡ false) × (deadline ≤ clock m) × IsFruitless n m

  no_round : (n : ℕ) → IsFruitless n n
  no_round n i a b = absurd (omega arith)

  one_more :
      (n m : ℕ) → tries n ≡ false → clock n < deadline → IsFruitless (suc n) m → IsFruitless n m
  one_more n m f c rest i a b = elim (ℕ_discrete n i) [
    | yes p ↦ rw (← p) (f, c)
    | no p ↦ rest i (omega (arith, p)) b
  ]

  longer :
      (n : ℕ) (w : Waited) → tries n ≡ false → clock n < deadline → IsFair (suc n) w → IsFair n w
  longer n (got m) f c (a, b, r) = (omega arith, b, one_more n m f c r)
  longer n session_busy f c (m, a, b, d, r) = (m, omega arith, b, d, one_more n m f c r)

  wait-ends :
      (ticks : (n : ℕ) → clock n < clock (suc n)) (fuel n : ℕ)
      → deadline < clock n + fuel
      → 0 < fuel
      → (w : Waited) × (wait tries clock deadline fuel n ≡ some w) × IsFair n w
  unfolding wait
  wait-ends ticks zero n h pos = absurd (omega arith)
  wait-ends ticks (suc fuel) n h pos = elim (Bool-cases (tries n)) [
    | inl e ↦ rw e (got n, refl, (omega arith, e, no_round n))
    | inr e ↦ elim (Bool-cases (leb deadline (clock n))) [
      | inl f ↦ rw (e, f) (session_busy, refl, (n, omega arith, e, (ground arith), no_round n))
      | inr f ↦
          let before : clock n < deadline = ground arith in
          let (w, p, q) =
            wait-ends ticks fuel (suc n) (omega (arith, ticks n)) (omega (arith, ticks n)) in
          rw (e, f) (w, p, longer n w e before q)
    ]
  ]

  -- On a clock that moves on between two tries the loop ends, after at most one round more than there
  -- are ticks until the deadline: it gets the lock at the very first try that succeeds, and gives up
  -- only behind the deadline, with every try before failed.
  pub wait-IsFair :
      ((n : ℕ) → clock n < clock (suc n))
      → (w : Waited) × (wait tries clock deadline (suc (deadline - clock 0)) 0 ≡ some w)
        × IsFair 0 w
  wait-IsFair ticks = wait-ends ticks (suc (deadline - clock 0)) 0 (omega arith) (omega arith)
