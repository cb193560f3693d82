-- ===== src/Context/Tests.antt =====
-- The window of app/context/window.py on a small conversation.
use customer_service.Prelude.{
  ◌≤◌, ◌<◌, ◌≡◌, ◌≢◌, ◌⊎◌, refl, min, arith, Option, none, some, List, [], ◌∷◌, ◌++◌, length,
}
use customer_service.Prelude.Text.{Text, codes}
use customer_service.Context.Messages.{human, ai, Message, token_sum}
use customer_service.Context.Window.{
  Settings, history_limits, select_messages_by_tokens, prompt_summary_tokens, overflow_messages,
}
use customer_service.Context.Window.Laws

abbrev cfg : Settings
cfg = record { history_token_budget = 20; history_min_messages = 1 }

abbrev asked : Message
asked = record { kind = human; content = codes "where is it"; id = some (codes "1") }

abbrev answered : Message
answered = record { kind = ai; content = codes "in transit"; id = some (codes "2") }

abbrev thanked : Message
thanked = record { kind = human; content = codes "ok"; id = some (codes "3") }

abbrev talk : List Message
talk = asked ∷ answered ∷ thanked ∷ []

abbrev window : List Message
window = select_messages_by_tokens length cfg talk none none

abbrev older : List Message
older = overflow_messages length cfg talk none none

two_kept : window ≡ answered ∷ thanked ∷ []
unfolding select_messages_by_tokens
two_kept = refl

one_left : older ≡ [] ++ asked ∷ []
unfolding overflow_messages
one_left = refl

select_bounds_example :
    (min (history_limits cfg none none).1 3 ≤ length window)
    × ((token_sum length window ≤ (history_limits cfg none none).0)
        ⊎ (length window ≤ (history_limits cfg none none).1))
select_bounds_example = Laws.select_bounds length cfg talk none none

some_talk : talk ≢ []
some_talk e = cc

abbrev summary : Option Text
summary = some (codes "s")

room : prompt_summary_tokens length summary < (history_limits cfg (some 30) none).0
unfolding prompt_summary_tokens history_limits
room = omega arith
