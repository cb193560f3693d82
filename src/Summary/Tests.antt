-- ===== src/Summary/Tests.antt =====
-- The rolling summary of app/context/summary/facts.py on small summaries.
use customer_service.Prelude.{◌≡◌, refl, arith, none, some, [], ◌∷◌}
use customer_service.Prelude.Text.{codes, Text-discrete, strip}
use customer_service.Summary.{
  StructuredSummary, merge, resolve, finalize_structured, pending_order_no, pending_course,
}
use customer_service.Summary.Exclusive.{excludes}
use customer_service.Summary.Latest.{left_over}
use customer_service.Context.Window.{last_n}
use customer_service.Summary.Merge
use customer_service.Summary.Merge.{IsTidy}
use customer_service.Summary.Render
use customer_service.Summary.Render.{IsWithin}

abbrev nothing : StructuredSummary
nothing = record { orders = []; courses = []; intent = []; confirmed = []; pending = [] }

abbrev unsuited : StructuredSummary
unsuited = record {
  orders = codes "20260001" ∷ [];
  courses = [];
  intent = codes "查订单";
  confirmed = codes "适合零基础" ∷ codes "已确认不适合零基础" ∷ [];
  pending = pending_order_no ∷ pending_course ∷ [];
}

later_wins : (merge nothing unsuited).confirmed ≡ codes "已确认不适合零基础" ∷ []
unfolding merge customer_service.Summary.apply_exclusive_sequence Text-discrete strip
later_wins = refl

nothing-IsTidy : IsTidy nothing
nothing-IsTidy = record {
  orders = (omega arith, tt);
  courses = (omega arith, tt);
  confirmed = (omega arith, tt);
  pending = (omega arith, tt);
}

merge-IsTidy_example :
    IsTidy (merge nothing unsuited)
    × ((merge nothing unsuited).orders ≡ codes "20260001" ∷ [])
    × ((merge nothing unsuited).courses ≡ [])
    × ((merge nothing unsuited).confirmed ≡ codes "已确认不适合零基础" ∷ [])
    × ((merge nothing unsuited).pending ≡ pending_order_no ∷ pending_course ∷ [])
unfolding left_over excludes Text-discrete strip last_n
merge-IsTidy_example = Merge.merge-IsTidy nothing unsuited nothing-IsTidy

finalize_structured-IsWithin_example : IsWithin 80 (finalize_structured 800 unsuited none (some 10))
finalize_structured-IsWithin_example = Render.finalize_structured-IsWithin 800 10 unsuited none
