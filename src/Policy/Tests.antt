-- ===== src/Policy/Tests.antt =====
-- The policy of app/agents/policy.py and the slots of app/context/slots.py on small inputs.
use customer_service.Prelude.{
  ℕ, ◌≤◌, ◌≡◌, ◌⊎◌, refl, Bool, true, false, ◌&&◌, not, none, some, leb, [], ◌∷◌, length,
}
use customer_service.Prelude.Text.{Text, codes, text_of}
use customer_service.Policy.Types
use customer_service.Policy.Types.{
  Intent, course_consult, order, mixed, ambiguous, chitchat, RouteDecision, rag, tool, supervisor,
  to_chitchat, intent_to_target, is_given, extract_query_order_no,
}
use customer_service.Policy.Route
use customer_service.Policy.Route.{default_policy, finalize, IsRoutable}
use customer_service.Policy.Plan
use customer_service.Policy.Plan.{
  SupervisorPlan, plan_supervisor, parallel, stripped, bound_course_name,
}
use customer_service.Policy.Graph
use customer_service.Policy.Graph.{GraphNode, Route, Edge, Walk, next_after_router, routed, node_of}
use customer_service.Policy.Slots.{SessionSlots}

abbrev is_digit : ℕ → Bool
is_digit c = leb 48 c && leb c 57

abbrev refund : Text
refund = codes "退款 20260001"

abbrev asked_course : RouteDecision
asked_course = record {
  intent = course_consult;
  target = rag;
  confidence = 80;
  order_no = none;
  course_query = none;
  needs_clarification = false;
  clarification_question = none;
  reason = codes "llm";
}

found : extract_query_order_no is_digit refund ≡ some (codes "20260001")
unfolding extract_query_order_no Types.first_run
found = refl

finalize-IsRoutable_example :
    IsRoutable is_digit default_policy refund (finalize is_digit default_policy refund asked_course)
finalize-IsRoutable_example =
    Route.finalize-IsRoutable is_digit default_policy refund asked_course at_rag
  where
    at_rag : asked_course.target ≡ intent_to_target asked_course.intent
    at_rag = unfold intent_to_target in refl

plan_supervisor-IsSensible_example :
    Plan.IsSensible is_digit (stripped (some (codes "20260001"))) (
      plan_supervisor is_digit
        (some mixed)
        false
        none
        (some refund)
        (some (codes "20260001"))
        none
        none)
    × (parallel (
          plan_supervisor is_digit
            (some mixed)
            false
            none
            (some refund)
            (some (codes "20260001"))
            none
            none)
        ≡ (not (false && is_given none)
            && (is_given (stripped (some (codes "20260001")))
                && is_given (
                    bound_course_name is_digit
                      (text_of (some refund))
                      none
                      none
                      (stripped (some (codes "20260001")))))))
plan_supervisor-IsSensible_example =
    Plan.plan_supervisor-IsSensible is_digit (some mixed) false none (some refund)
      (some (codes "20260001")) none none

abbrev blank : Route
blank = record {
  blocked = true;
  target = none;
  intent = none;
  confidence = 0;
  rag_upgraded_to_supervisor = false;
}

turn :
    Walk is_digit default_policy GraphNode.at_start
      (next_after_router is_digit default_policy blank)
      (blank ∷ blank ∷ blank ∷ [])
turn =
    Walk.follows blank Edge.start_security
      (Walk.follows blank Edge.security_router (Walk.follows blank Edge.router_next Walk.stays))

Walk-ends_example :
    (length (blank ∷ blank ∷ blank ∷ []) ≤ 6)
    × ((r : Route)
        → (next_after_router is_digit default_policy blank ≡ GraphNode.at_end)
          ⊎ ((c : GraphNode) × Edge is_digit default_policy r
                (next_after_router is_digit default_policy blank)
                c))
Walk-ends_example = Graph.Walk-ends is_digit default_policy turn

abbrev slots : SessionSlots
slots = record {
  last_intent = some order;
  last_order_no = some (codes "20260001");
  last_course_query = none;
  last_course_name = none;
  handoff_pending = true;
}
