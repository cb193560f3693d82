-- ===== src/Context/Window/Pick.antt =====
-- The loop of `select_messages_by_tokens` without its accumulator, and what it takes.
use customer_service.Prelude.{
  ℕ, suc, ◌+◌, ◌≤◌, ◌<◌, ◌≡◌, refl, sym, ◌∙◌, ◌⊎◌, inl, inr, max, Bool, true, false, ◌&&◌, arith,
  ltb, leb, if◌then◌else◌, List, [], ◌∷◌, ◌++◌, length, length-append, Bool-cases,
}
use mathlib.Core.List.{append-nil, append_assoc}
use customer_service.Prelude.Text.{Text}
use customer_service.Context.Messages.{Message, message_token_count, token_sum}
use customer_service.Context.Window.{select_loop}

module _ (count_tokens : Text → ℕ) (budget keep : ℕ) where
  abbrev full : ℕ → ℕ → Message → Bool
  full n total m =
      ltb 0 n && (ltb budget (total + message_token_count count_tokens m) && leb keep n)

  -- what the loop takes after `n` messages of `total` tokens
  unfoldable pub pick : List Message → ℕ → ℕ → List Message
  pick [] n total = []
  pick (m ∷ ms) n total =
      let rest = pick ms (suc n) (total + message_token_count count_tokens m) in
      if full n total m then [] else m ∷ rest

  -- and what it leaves
  unfoldable pub leave : List Message → ℕ → ℕ → List Message
  leave [] n total = []
  leave (m ∷ ms) n total =
      let rest = leave ms (suc n) (total + message_token_count count_tokens m) in
      if full n total m then m ∷ ms else rest

  pub pick-leave : (ms : List Message) (n total : ℕ) → pick ms n total ++ leave ms n total ≡ ms
  unfolding pick leave
  pick-leave [] n total = refl
  pick-leave (m ∷ ms) n total =
      ground (arith, pick-leave ms (suc n) (total + message_token_count count_tokens m))

  full-stop :
      (m : Message) (ms selected : List Message) (total : ℕ)
      → full (length selected) total m ≡ true
      → select_loop count_tokens budget keep (m ∷ ms) selected total ≡ selected
  unfolding select_loop
  full-stop m ms [] total h = absurd (ground arith)
  full-stop m ms (s ∷ selected) total h = ground arith

  full-go :
      (m : Message) (ms selected : List Message) (total : ℕ)
      → full (length selected) total m ≡ false
      → select_loop count_tokens budget keep (m ∷ ms) selected total
        ≡ select_loop count_tokens budget keep ms
            (selected ++ m ∷ [])
            (total + message_token_count count_tokens m)
  unfolding select_loop
  full-go m ms [] total h = ground arith
  full-go m ms (s ∷ selected) total h = ground arith

  select_loop_done :
      (selected : List Message) (total : ℕ)
      → select_loop count_tokens budget keep [] selected total ≡ selected
  unfolding select_loop
  select_loop_done selected total = refl

  pub select_loop-pick :
      (ms selected : List Message) (total : ℕ)
      → select_loop count_tokens budget keep ms selected total
        ≡ selected ++ pick ms (length selected) total
  unfolding pick
  select_loop-pick [] selected total = select_loop_done selected total ∙ sym (append-nil selected)
  select_loop-pick (m ∷ ms) selected total = elim (Bool-cases (full (length selected) total m)) [
    | inl e ↦ full-stop m ms selected total e ∙ rw e (sym (append-nil selected))
    | inr e ↦
        let longer : length (selected ++ m ∷ []) ≡ suc (length selected) =
          omega (arith, length-append selected (m ∷ [])) in
        full-go m ms selected total e
        ∙ select_loop-pick ms (selected ++ m ∷ []) (total + message_token_count count_tokens m)
        ∙ rw (e, longer, append_assoc) refl
  ]

  -- the loop never stops before it has `keep` messages
  pub pick-keep :
      (ms : List Message) (n total : ℕ)
      → (keep ≤ n + length (pick ms n total)) ⊎ (pick ms n total ≡ ms)
  unfolding pick
  pick-keep [] n total = inr refl
  pick-keep (m ∷ ms) n total =
      ground (arith, pick-keep ms (suc n) (total + message_token_count count_tokens m))

  -- beyond `keep` messages, what it has fits the budget
  pub pick-budget :
      (ms : List Message) (n total : ℕ)
      → (total ≤ budget) ⊎ (n ≤ max 1 keep)
      → (total + token_sum count_tokens (pick ms n total) ≤ budget)
        ⊎ (n + length (pick ms n total) ≤ max 1 keep)
  unfolding pick token_sum
  pick-budget [] n total h = ground arith
  pick-budget (m ∷ ms) n total h = elim (Bool-cases (full n total m)) [
    | inl e ↦ rw e (ground arith)
    | inr e ↦
        rw e (ground (arith, pick-budget ms (suc n) (total + message_token_count count_tokens m)))
  ]

  -- what it leaves begins with a message that would not have fitted
  pub leave-full :
      (ms rest : List Message) (n total : ℕ) (m : Message)
      → leave ms n total ≡ m ∷ rest
      → (budget
          < total + token_sum count_tokens (pick ms n total) + message_token_count count_tokens m)
        × (keep ≤ n + length (pick ms n total))
        × (0 < n + length (pick ms n total))
  unfolding pick leave token_sum
  leave-full [] rest n total m h = cc
  leave-full (x ∷ ms) rest n total m h = elim (Bool-cases (full n total x)) [
    | inl e ↦ rw e (ground (arith, rw (e, leave) at h))
    | inr e ↦ rw e (
        let (a, b, c) =
          leave-full ms rest (suc n) (total + message_token_count count_tokens x) m
            (rw (e, leave) at h) in
        (omega arith, omega arith, omega arith))
  ]
