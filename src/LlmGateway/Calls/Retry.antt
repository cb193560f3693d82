-- ===== src/LlmGateway/Calls/Retry.antt =====
-- What the retry loop of app/llm_gateway/gateway.py returns, and how often it calls upstream.
use customer_service.Prelude.{
  ℕ, zero, suc, ◌+◌, ◌≤◌, ◌<◌, ◌≡◌, refl, ap, Bool, true, false, Option, none, arith, max, ◌⊎◌, inl,
  inr, sym, ◌∙◌, Bool-cases,
}
use customer_service.LlmGateway.Calls.{
  Failure, Error, failed, Outcome, returns, raises, is_transient, Attempted, round, retry_loop,
  retry_call, last_error,
}
use mathlib.Core.Bool.{false≢true}
use mathlib.Core.Path.{subst}
use native.Mathlib.Decide.{dec_le}
use native.Mathlib.Nat.{zero-add}

module _ {A : Type 0} where
  -- an answer that is worth another attempt
  abbrev pub IsTransient : Outcome A → Type 0
  IsTransient (raises (failed e)) = is_transient e ≡ true
  IsTransient _ = ⊥

  -- The first answer that is no transient failure, or else the last one allowed.
  pub record Settles (fn : ℕ → Outcome A) (first last : ℕ) (r : Attempted A) : Type 0 where
    pub at : ℕ
    pub bounds : (first ≤ at) × (at ≤ last)
    pub answer : r.outcome ≡ fn at
    pub counted : r.calls ≡ at + 1
    pub before : (j : ℕ) → first ≤ j → j < at → IsTransient (fn j)
    pub stopped : at < last → ¬ IsTransient (fn at)

  failed-cases :
      (e : Failure) (more : Bool) (attempt : ℕ) (again : Attempted A)
      → ((round (raises (failed e)) more attempt again ≡ again)
          × (is_transient e ≡ true)
          × (more ≡ true))
        ⊎ (((round (raises (failed e)) more attempt again).outcome ≡ raises (failed e))
            × ((round (raises (failed e)) more attempt again).calls ≡ attempt + 1)
            × (more ≡ true → ¬ (is_transient e ≡ true)))
  unfolding round
  failed-cases e false attempt again = inr (refl, refl, λ p. absurd (false≢true p))
  failed-cases e true attempt again = elim (Bool-cases (is_transient e)) [
    | inl t ↦ inl (rw t, t, refl)
    | inr f ↦ inr (rw f, rw f, λ _ t. false≢true (sym f ∙ t))
  ]

  -- A round goes on after a transient failure with attempts left, and stops with its answer else.
  round-cases :
      (o : Outcome A) (more : Bool) (attempt : ℕ) (again : Attempted A)
      → ((round o more attempt again ≡ again) × IsTransient o × (more ≡ true))
        ⊎ (((round o more attempt again).outcome ≡ o)
            × ((round o more attempt again).calls ≡ attempt + 1)
            × (more ≡ true → ¬ IsTransient o))
  unfolding round
  round-cases (returns a) more attempt again = inr (refl, refl, λ _ t. t)
  round-cases (raises (failed e)) more attempt again = failed-cases e more attempt again
  round-cases (raises _) more attempt again = inr (refl, refl, λ _ t. t)

  stopped-Settles :
      (fn : ℕ → Outcome A) (attempt last : ℕ) (r : Attempted A)
      → attempt ≤ last
      → r.outcome ≡ fn attempt
      → r.calls ≡ attempt + 1
      → (attempt < last → ¬ IsTransient (fn attempt))
      → Settles fn attempt last r
  stopped-Settles fn attempt last r le o c s = record {
    at = attempt;
    bounds = (omega arith, le);
    answer = o;
    counted = c;
    before = λ j h k. absurd (omega arith);
    stopped = s;
  }

  next-Settles :
      (fn : ℕ → Outcome A) (attempt last : ℕ) (r : Attempted A)
      → IsTransient (fn attempt)
      → Settles fn (attempt + 1) last r
      → Settles fn attempt last r
  next-Settles fn attempt last r t s = record {
    at = s.at;
    bounds = (omega arith, omega arith);
    answer = s.answer;
    counted = s.counted;
    before = λ j h k. elim (dec_le (attempt + 1) j) [
      | yes p ↦ s.before j p k
      | no p ↦ let e : attempt ≡ j = omega arith in rw e at t
    ];
    stopped = s.stopped;
  }

  -- one round, with more attempts behind it
  retry_loop_step :
      (fn : ℕ → Outcome A) (left attempt : ℕ) (last : Option Error)
      → retry_loop fn (suc (suc left)) attempt last
        ≡ round
            (fn attempt)
            true
            attempt
            (retry_loop fn (suc left) (attempt + 1) (last_error (fn attempt)))
  unfolding retry_loop
  retry_loop_step fn left attempt last =
      ap
        (λ b.
          round (fn attempt) b attempt
            (retry_loop fn (suc left) (attempt + 1) (last_error (fn attempt))))
        (ground arith)

  round-Settles :
      (fn : ℕ → Outcome A) (attempt last : ℕ) (again : Attempted A)
      → attempt ≤ last
      → Settles fn (attempt + 1) last again
      → Settles fn attempt last (round (fn attempt) true attempt again)
  round-Settles fn attempt last again le s = elim (round-cases (fn attempt) true attempt again) [
    | inl (e, t, m) ↦ rw e (next-Settles fn attempt last again t s)
    | inr (o, c, k) ↦ stopped-Settles fn attempt last _ le o c (λ _. k refl)
  ]

  retry_loop-Settles :
      (fn : ℕ → Outcome A) (left attempt : ℕ) (last : Option Error)
      → Settles fn attempt (attempt + left) (retry_loop fn (suc left) attempt last)
  unfolding retry_loop
  retry_loop-Settles fn zero attempt last =
      elim (round-cases (fn attempt) false attempt
        (retry_loop fn zero (attempt + 1) (last_error (fn attempt)))) [
          | inl (e, t, m) ↦ absurd (false≢true m)
          | inr (o, c, s) ↦
              stopped-Settles fn attempt (attempt + 0) _ (omega arith) o c
                (λ h. absurd (omega arith))
        ]
  retry_loop-Settles fn (suc left) attempt last =
      subst (Settles fn attempt (attempt + suc left)) (sym (retry_loop_step fn left attempt last)) (
        round-Settles fn attempt (attempt + suc left)
          (retry_loop fn (suc left) (attempt + 1) (last_error (fn attempt))) (omega arith)
          (subst
            (λ k.
              Settles fn (attempt + 1) k
                (retry_loop fn (suc left) (attempt + 1) (last_error (fn attempt))))
            (omega arith) (retry_loop-Settles fn left (attempt + 1) (last_error (fn attempt)))))

  -- The retry loop always settles: it calls upstream at attempts 0, 1, … up to the first whose
  -- answer is no transient failure, or up to the last of `max_retries + 1`, returns or raises just
  -- that attempt's answer, and makes no further call.
  pub retry_call-Settles :
      (fn : ℕ → Outcome A) (max_retries : ℕ) → Settles fn 0 max_retries (retry_call fn max_retries)
  unfolding retry_call
  retry_call-Settles fn n =
      let e : max 1 (n + 1) ≡ suc n = omega arith in
      rw e (
        subst (λ k. Settles fn 0 k (retry_loop fn (suc n) 0 none)) (zero-add n)
          (retry_loop-Settles fn n 0 none))
