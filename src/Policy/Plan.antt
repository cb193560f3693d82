-- ===== src/Policy/Plan.antt =====
-- The plan of the supervisor, `plan_supervisor` of app/agents/policy.py: what is called, in which
-- order, and with what.
use customer_service.Prelude.{
  ℕ, ◌≡◌, refl, Bool, true, false, ◌&&◌, ◌||◌, not, Option, none, some, arith, leb, ltb, ◌==◌,
  if◌then◌else◌, List, [], ◌∷◌, length, any, All, keep_if, Bool-cases, inl, inr,
}
use customer_service.Prelude.Text.{Text, codes, contains, strip, same, text_of, has_text}
use customer_service.Policy.Types.{
  Intent, course_consult, order, mixed, ambiguous, chitchat, handoff, is_given,
  extract_query_order_no,
}

pub data Capability : Type 0 where
  order_query course_retrieve : Capability

pub data CourseSource : Type 0 where
  bound from_order_product : CourseSource

-- `PlanStep`
pub record PlanStep : Type 0 where
  pub capability : Capability
  pub parallel_group : ℕ
  pub course_source : Option CourseSource

pub data SupervisorAction : Type 0 where
  ask_user execute react : SupervisorAction

-- `SupervisorPlan`
pub record SupervisorPlan : Type 0 where
  pub action : SupervisorAction
  pub final_intent : Intent
  pub clarification_question : Option Text
  pub steps : List PlanStep
  pub reason : Text
  pub resolved_from_ambiguous : Bool
  pub bound_course_name : Option Text

-- `SupervisorPlan.parallel`: some group has two steps or more
unfoldable pub parallel : SupervisorPlan → Bool
parallel plan =
    not (ltb (length plan.steps) 2)
    && any
        (λ (s : PlanStep).
          ltb 1
            (length (keep_if (λ (t : PlanStep). t.parallel_group == s.parallel_group) plan.steps)))
        plan.steps

abbrev explicit_course_hints : List Text
explicit_course_hints =
    codes "课程"
    ∷ codes "大纲"
    ∷ codes "模块"
    ∷ codes "学习路径"
    ∷ codes "入门课"
    ∷ codes "讲什么"
    ∷ codes "学什么"
    ∷ codes "包含哪些"
    ∷ codes "适合"
    ∷ codes "零基础"
    ∷ codes "难吗"
    ∷ []

-- `x.strip() or None`
abbrev pub stripped : Option Text → Option Text
stripped t = if has_text (strip (text_of t)) then some (strip (text_of t)) else none

-- `intent if intent in _SUPERVISOR_INTENTS else "mixed"`
abbrev supervised : Option Intent → Intent
supervised (some order) = order
supervised (some course_consult) = course_consult
supervised _ = mixed

abbrev is_ambiguous : Option Intent → Bool
is_ambiguous (some ambiguous) = true
is_ambiguous _ = false

abbrev is_mixed : Intent → Bool
is_mixed mixed = true
is_mixed _ = false

abbrev is_order : Intent → Bool
is_order order = true
is_order _ = false

abbrev is_course_consult : Intent → Bool
is_course_consult course_consult = true
is_course_consult _ = false

abbrev query_step : PlanStep
query_step = record { capability = order_query; parallel_group = 0; course_source = none }

abbrev retrieve_step : ℕ → CourseSource → PlanStep
retrieve_step group source = record {
  capability = course_retrieve;
  parallel_group = group;
  course_source = some source;
}

module _ (is_digit : ℕ → Bool) where
  -- the course that a text of its own names; `cq` and `q` are stripped
  unfoldable pub course_of_query : Text → Text → Bool → Option Text
  course_of_query cq q has_order_ctx =
      if not (has_text cq)
      then none
      else if same cq q
      then (if has_order_ctx
          then none
          else if any (λ token. contains token cq) explicit_course_hints && leb (length cq) 40
          then some cq
          else none)
      else if ltb 80 (length cq)
      then none
      else if is_given (extract_query_order_no is_digit cq) && ltb 24 (length cq)
      then none
      else some cq

  -- `_bound_course_name`
  unfoldable pub bound_course_name : Text → Option Text → Option Text → Option Text → Option Text
  unfolding course_of_query
  bound_course_name query course_query last_course_name order_no =
      let name = strip (text_of last_course_name) in
      if has_text name && not (same name (codes "未找到课程"))
      then some name
      else course_of_query (strip (text_of course_query)) (strip query) (
          has_text (strip (text_of order_no))
          || is_given (extract_query_order_no is_digit (strip query)))

  -- behind the clarification: what is resolved decides
  unfoldable pub plan_resolved : Intent → Bool → Option Text → Option Text → SupervisorPlan
  plan_resolved final_intent from_ambiguous resolved course =
      if is_given resolved && is_given course
      then record {
        action = execute;
        final_intent = final_intent;
        clarification_question = none;
        steps = query_step ∷ retrieve_step 0 bound ∷ [];
        reason = codes "parallel-bound";
        resolved_from_ambiguous = from_ambiguous;
        bound_course_name = course;
      }
      else if is_given resolved && is_mixed final_intent
      then record {
        action = execute;
        final_intent = mixed;
        clarification_question = none;
        steps = query_step ∷ retrieve_step 1 from_order_product ∷ [];
        reason = codes "serial-order-then-course";
        resolved_from_ambiguous = from_ambiguous;
        bound_course_name = none;
      }
      else if is_given resolved && is_order final_intent
      then record {
        action = execute;
        final_intent = order;
        clarification_question = none;
        steps = query_step ∷ [];
        reason = codes "order-only";
        resolved_from_ambiguous = from_ambiguous;
        bound_course_name = none;
      }
      else if is_given course
          && (not (is_given resolved) && (is_course_consult final_intent || is_mixed final_intent))
      then record {
        action = execute;
        final_intent = course_consult;
        clarification_question = none;
        steps = retrieve_step 0 bound ∷ [];
        reason = codes "course-only";
        resolved_from_ambiguous = from_ambiguous;
        bound_course_name = course;
      }
      else record {
        action = react;
        final_intent = final_intent;
        clarification_question = none;
        steps = [];
        reason = codes "unbound-fallback";
        resolved_from_ambiguous = from_ambiguous;
        bound_course_name = course;
      }

  -- `plan_supervisor`
  unfoldable pub plan_supervisor :
      Option Intent
      → Bool
      → Option Text
      → Option Text
      → Option Text
      → Option Text
      → Option Text
      → SupervisorPlan
  unfolding bound_course_name plan_resolved
  plan_supervisor intent needs_clarification question query order_no course_query last_course_name =
      if needs_clarification && is_given question
      then record {
        action = ask_user;
        final_intent = ambiguous;
        clarification_question = question;
        steps = [];
        reason = codes "needs-clarification";
        resolved_from_ambiguous = false;
        bound_course_name = none;
      }
      else plan_resolved (supervised intent) (is_ambiguous intent) (stripped order_no)
          (bound_course_name (text_of query) course_query last_course_name (stripped order_no))

  -- whether a step of a plan has what it needs: an order to look up, a course to look for, or a step
  -- of an earlier group that finds the course
  abbrev pub is_backed : Option Text → SupervisorPlan → PlanStep → Bool
  is_backed resolved plan s = elim s.capability [
    | order_query ↦ is_given resolved
    | course_retrieve ↦ elim s.course_source [
      | none ↦ false
      | some source ↦ elim source [
        | bound ↦ is_given plan.bound_course_name
        | from_order_product ↦
            any
              (λ (t : PlanStep). elim t.capability [
                | order_query ↦ ltb t.parallel_group s.parallel_group
                | course_retrieve ↦ false
              ])
              plan.steps
      ]
    ]
  ]

  -- a plan whose action and steps fit
  abbrev pub is_coherent : SupervisorPlan → Bool
  is_coherent plan = elim plan.action [
    | ask_user ↦ is_given plan.clarification_question && leb (length plan.steps) 0
    | execute ↦ ltb 0 (length plan.steps)
    | react ↦ leb (length plan.steps) 0
  ]

  module _ (from_ambiguous : Bool) (resolved course : Option Text) where
    abbrev planned : Intent → SupervisorPlan
    planned final_intent = plan_resolved final_intent from_ambiguous resolved course

    abbrev IsBacked : Intent → Type 0
    IsBacked i =
        All (λ s. is_backed resolved (planned i) s ≡ true) (planned i).steps
        × (is_coherent (planned i) ≡ true)
        × (parallel (planned i) ≡ (is_given resolved && is_given course))

    only_order : (i : Intent) → is_given resolved ≡ true → is_given course ≡ false → IsBacked i
    unfolding plan_resolved parallel
    only_order mixed r c = rw (r, c) ((r, (refl, tt)), refl, refl)
    only_order order r c = rw (r, c) ((r, tt), refl, refl)
    only_order course_consult r c = rw (r, c) (tt, refl, refl)
    only_order ambiguous r c = rw (r, c) (tt, refl, refl)
    only_order chitchat r c = rw (r, c) (tt, refl, refl)
    only_order handoff r c = rw (r, c) (tt, refl, refl)

    only_course : (i : Intent) → is_given resolved ≡ false → is_given course ≡ true → IsBacked i
    unfolding plan_resolved parallel
    only_course mixed r c = rw (r, c) ((c, tt), refl, refl)
    only_course course_consult r c = rw (r, c) ((c, tt), refl, refl)
    only_course order r c = rw (r, c) (tt, refl, refl)
    only_course ambiguous r c = rw (r, c) (tt, refl, refl)
    only_course chitchat r c = rw (r, c) (tt, refl, refl)
    only_course handoff r c = rw (r, c) (tt, refl, refl)

    plan_resolved-IsBacked : (i : Intent) → IsBacked i
    unfolding plan_resolved parallel
    plan_resolved-IsBacked i = elim (Bool-cases (is_given resolved)) [
      | inl r ↦ elim (Bool-cases (is_given course)) [
        | inl c ↦ rw (r, c) ((r, (c, tt)), refl, refl)
        | inr c ↦ only_order i r c
      ]
      | inr r ↦ elim (Bool-cases (is_given course)) [
        | inl c ↦ only_course i r c
        | inr c ↦ rw (r, c) (tt, refl, refl)
      ]
    ]

  -- what a plan promises, given the order that is resolved
  abbrev pub IsSensible : Option Text → SupervisorPlan → Type 0
  IsSensible resolved plan =
      All (λ s. is_backed resolved plan s ≡ true) plan.steps × (is_coherent plan ≡ true)

  -- Every plan is sensible: an order is looked up only if one is resolved, a course is retrieved by
  -- name only if the plan has the name, or else only behind the look-up of the order that names it;
  -- a plan that is executed has steps, one that asks the user has a question and no steps, and one
  -- for the reasoning agent has no steps. Steps run side by side only if order and course are both
  -- known and nothing has to be asked.
  pub plan_supervisor-IsSensible :
      (intent : Option Intent) (needs_clarification : Bool)
      (question query order_no course_query last_course_name : Option Text)
      → IsSensible (stripped order_no) (
          plan_supervisor intent needs_clarification question query order_no course_query
            last_course_name)
        × (parallel (
              plan_supervisor intent needs_clarification question query order_no course_query
                last_course_name)
            ≡ (not (needs_clarification && is_given question)
                && (is_given (stripped order_no)
                    && is_given (
                        bound_course_name
                          (text_of query)
                          course_query
                          last_course_name
                          (stripped order_no)))))
  unfolding plan_supervisor parallel
  plan_supervisor-IsSensible intent needs_clarification question query order_no course_query
        last_course_name =
      elim (Bool-cases (needs_clarification && is_given question)) [
        | inl q ↦ rw q ((tt, (let k : is_given question ≡ true = ground arith in rw k refl)), refl)
        | inr q ↦ rw q (
            let (a, b, c) =
              plan_resolved-IsBacked (is_ambiguous intent) (stripped order_no)
                (bound_course_name (text_of query) course_query last_course_name
                  (stripped order_no))
                (supervised intent) in
            ((a, b), c))
      ]
