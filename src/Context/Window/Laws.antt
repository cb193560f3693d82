-- ===== src/Context/Window/Laws.antt =====
-- What `select_messages_by_tokens` of app/context/window.py keeps, and what its clients drop.
use customer_service.Prelude.{
  ℕ, suc, ◌+◌, ◌-◌, ◌≤◌, ◌<◌, ◌≡◌, ◌≢◌, refl, ap, sym, ◌∙◌, ◌⊎◌, inl, inr, min, false, Option, some,
  arith, leb, ◌==◌, if◌then◌else◌, List, [], ◌∷◌, ◌++◌, reverse, length, length-append,
  length-reverse, take, take-length-append, length-drop, take-append-drop,
}
use mathlib.Core.Path.{subst}
use mathlib.Core.List.{reverse-append, reverse-reverse}
use customer_service.Prelude.Text.{Text}
use customer_service.Context.Messages.{Message, message_token_count, token_sum, token_sum-reverse}
use customer_service.Context.Window.{
  Settings, history_limits, select_messages_by_tokens, overflow_messages, recent_messages, last_n,
}
use customer_service.Context.Window.Pick.{
  pick, leave, pick-leave, select_loop-pick, pick-keep, pick-budget, leave-full,
}

empty_of_length : {A : Type 0} (xs : List A) → length xs ≤ 0 → xs ≡ []
empty_of_length [] h = refl
empty_of_length (x ∷ xs) h = absurd (omega arith)

-- what is cut off in front of a known end
before_end :
    {A : Type 0} (older newer : List A)
    → (if leb (length (older ++ newer)) (length newer)
        then []
        else take (length (older ++ newer) - length newer) (older ++ newer))
      ≡ older
before_end [] newer = ground arith
before_end (x ∷ older) newer =
    let size : length (x ∷ older ++ newer) ≡ suc (length older) + length newer =
      omega (arith, length-append older newer) in
    let cut : length (x ∷ older ++ newer) - length newer ≡ suc (length older) =
      omega (arith, size) in
    let more : leb (length (x ∷ older ++ newer)) (length newer) ≡ false = ground (arith, size) in
    rw (more, cut, take-length-append)

module _ (count_tokens : Text → ℕ) (cfg : Settings) (messages : List Message)
    (token_budget min_keep : Option ℕ) where
  abbrev budget : ℕ
  budget = (history_limits cfg token_budget min_keep).0

  abbrev keep : ℕ
  keep = (history_limits cfg token_budget min_keep).1

  abbrev selected : List Message
  selected = select_messages_by_tokens count_tokens cfg messages token_budget min_keep

  abbrev overflow : List Message
  overflow = overflow_messages count_tokens cfg messages token_budget min_keep

  abbrev picked : List Message
  picked = pick count_tokens budget keep (reverse messages) 0 0

  abbrev left : List Message
  left = leave count_tokens budget keep (reverse messages) 0 0

  keep_pos : 0 < keep
  unfolding history_limits
  keep_pos = omega arith

  selected-picked : selected ≡ reverse picked
  unfolding select_messages_by_tokens
  selected-picked = nonempty messages
    where
      nonempty :
          (ms : List Message)
          → select_messages_by_tokens count_tokens cfg ms token_budget min_keep
            ≡ reverse (pick count_tokens budget keep (reverse ms) 0 0)
      nonempty [] = unfold pick in refl
      nonempty (m ∷ ms) =
          ap reverse (select_loop-pick count_tokens budget keep (reverse (m ∷ ms)) [] 0)

  left-picked : reverse left ++ reverse picked ≡ messages
  left-picked =
      sym (reverse-append picked left)
      ∙ ap reverse (pick-leave count_tokens budget keep (reverse messages) 0 0)
      ∙ reverse-reverse messages

  overflow-left : overflow ≡ reverse left
  unfolding overflow_messages
  overflow-left = rw (selected-picked) (
      subst
        (λ ms.
          (if leb (length ms) (length (reverse picked))
            then []
            else take (length ms - length (reverse picked)) ms)
          ≡ reverse left)
        left-picked (before_end (reverse left) (reverse picked)))

  -- The window and its overflow are the conversation, cut in two: nothing is lost, doubled or moved.
  pub overflow-select : overflow ++ selected ≡ messages
  overflow-select = rw (overflow-left, selected-picked) left-picked

  -- The window holds the wanted minimum of messages, or the whole conversation if it is shorter; and
  -- it stays within the token budget unless it holds no more than that minimum.
  pub select_bounds :
      (min keep (length messages) ≤ length selected)
      × ((token_sum count_tokens selected ≤ budget) ⊎ (length selected ≤ keep))
  select_bounds =
      let e : length selected ≡ length picked = ap length selected-picked ∙ length-reverse picked in
      let t : token_sum count_tokens selected ≡ token_sum count_tokens picked =
        ap (token_sum count_tokens) selected-picked ∙ token_sum-reverse count_tokens picked in
      let k : 0 < keep = keep_pos in
      (
        elim (pick-keep count_tokens budget keep (reverse messages) 0 0) [
          | inl h ↦ omega (arith, e)
          | inr h ↦ omega (arith, e, ap length h, length-reverse messages)
        ],
        elim (pick-budget count_tokens budget keep (reverse messages) 0 0 (inl (omega arith))) [
          | inl h ↦ inl (omega (arith, t))
          | inr h ↦ inr (omega (arith, e, k))
        ],
      )

  -- The window is as long as it may be: if messages overflow, then with the newest of them it would
  -- pass the budget, and it has the wanted minimum without it.
  pub select_maximal :
      (older : List Message) (m : Message)
      → overflow ≡ older ++ m ∷ []
      → (budget < token_sum count_tokens selected + message_token_count count_tokens m)
        × (keep ≤ length selected)
  select_maximal older m h =
      let l : left ≡ m ∷ reverse older =
        sym (reverse-reverse left)
        ∙ ap reverse (sym overflow-left ∙ h)
        ∙ reverse-append older (m ∷ []) in
      let e : length selected ≡ length picked = ap length selected-picked ∙ length-reverse picked in
      let t : token_sum count_tokens selected ≡ token_sum count_tokens picked =
        ap (token_sum count_tokens) selected-picked ∙ token_sum-reverse count_tokens picked in
      let f = leave-full count_tokens budget keep (reverse messages) (reverse older) 0 0 m l in
      (omega (arith, t, f), omega (arith, e, f))

  -- A positive limit bounds the recent messages, and they are the newest of the window.
  pub recent_limit :
      (n : ℕ)
      → 0 < n
      → (length (recent_messages count_tokens cfg messages (some n) token_budget min_keep) ≤ n)
        × (take (length selected - n) selected
              ++ recent_messages count_tokens cfg messages (some n) token_budget min_keep
            ≡ selected)
  unfolding recent_messages last_n
  recent_limit n pos =
      let e : (n == 0) ≡ false = ground arith in
      rw e (
        omega (arith, length-drop (length selected - n) selected),
        take-append-drop (length selected - n) selected,
      )

  -- The limit 0 does not bound them: whenever there is a message at all, more than 0 are returned.
  pub recent_limit_zero :
      messages ≢ []
      → ¬ (length (recent_messages count_tokens cfg messages (some 0) token_budget min_keep) ≤ 0)
  unfolding recent_messages last_n
  recent_limit_zero some_messages bound =
      let k : 0 < keep = keep_pos in
      let b : min keep (length messages) ≤ length selected = select_bounds.0 in
      some_messages (empty_of_length messages (omega (arith, b, k)))
