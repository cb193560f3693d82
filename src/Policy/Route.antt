-- ===== src/Policy/Route.antt =====
-- The guards of `RoutingPolicy` in app/agents/policy.py, from a recognised intent to a decision.
use customer_service.Prelude.{
  ℕ, ◌≤◌, ◌<◌, ◌≡◌, sym, ap, ◌∙◌, Bool, true, false, ◌||◌, not, Option, none, some, arith, leb,
  if◌then◌else◌, List, [], ◌∷◌, any, Bool-cases, inl, inr,
}
use customer_service.Prelude.Text.{Text, codes, contains}
use customer_service.Policy.Types.{
  Intent, course_consult, order, mixed, ambiguous, chitchat, intent_to_target, RouteDecision,
  is_given, or_text, extract_query_order_no, query_has_order_signal,
}

-- `RoutingPolicy`
pub record RoutingPolicy : Type 0 where
  pub confidence_rag_min : ℕ
  pub confidence_direct : ℕ
  pub confidence_mixed : ℕ
  pub confidence_ambiguous : ℕ
  pub missing_order_clarify : Text

abbrev pub default_policy : RoutingPolicy
default_policy = record {
  confidence_rag_min = 70;
  confidence_direct = 90;
  confidence_mixed = 65;
  confidence_ambiguous = 35;
  missing_order_clarify = codes "请提供完整订单编号，我再帮您查询退款或进度。";
}

-- `COURSE_HINTS` of app/agents/intent.py
abbrev pub course_hints : List Text
course_hints =
    codes "课程"
    ∷ codes "大纲"
    ∷ codes "包含"
    ∷ codes "学什么"
    ∷ codes "模块"
    ∷ codes "学习路径"
    ∷ codes "入门课"
    ∷ codes "讲什么"
    ∷ codes "新手"
    ∷ codes "能学"
    ∷ codes "适合"
    ∷ codes "零基础"
    ∷ codes "难吗"
    ∷ codes "售前"
    ∷ codes "售后"
    ∷ []

-- `finalize_route`: a target is never empty, so `or` keeps it
unfoldable pub finalize_route : RouteDecision → RouteDecision
finalize_route d = record d { confidence = if leb d.confidence 0 then 100 else d.confidence }

-- `_decision`
unfoldable pub decide :
    Intent → Text → ℕ → Option Text → Option Text → Bool → Option Text → RouteDecision
unfolding finalize_route intent_to_target
decide intent reason confidence order_no course_query needs_clarification question =
    finalize_route (record {
      intent = intent;
      target = intent_to_target intent;
      confidence = confidence;
      order_no = order_no;
      course_query = course_query;
      needs_clarification = needs_clarification;
      clarification_question = question;
      reason = reason;
    })

abbrev pub is_course : Intent → Bool
is_course course_consult = true
is_course _ = false

abbrev is_order : Intent → Bool
is_order order = true
is_order _ = false

-- `_looks_like_course`
unfoldable pub looks_like_course : Text → RouteDecision → Bool
looks_like_course text d = is_course d.intent || any (λ token. contains token text) course_hints

-- `_ORDER_SIGNAL_PASSTHROUGH`
abbrev pub passes_through : Intent → Bool
passes_through course_consult = false
passes_through chitchat = false
passes_through _ = true

module _ (is_digit : ℕ → Bool) (policy : RoutingPolicy) where
  -- `decision.model_copy(update={"order_no": found})`
  abbrev with_found : Option Text → RouteDecision → RouteDecision
  with_found found d =
      if is_given d.order_no then d else if is_given found then record d { order_no = found } else d

  -- a course question or chat with an order signal
  unfoldable pub forced : Text → RouteDecision → RouteDecision
  unfolding decide
  forced text d =
      if looks_like_course text d
      then decide mixed (codes "order-signal-force") policy.confidence_mixed
          (or_text d.order_no (extract_query_order_no is_digit text))
          (or_text d.course_query (some text)) false none
      else decide order (codes "order-signal-force") policy.confidence_direct
          (or_text d.order_no (extract_query_order_no is_digit text)) d.course_query false none

  -- `apply_order_signal`
  unfoldable pub apply_order_signal : Text → RouteDecision → RouteDecision
  unfolding forced
  apply_order_signal text d =
      if passes_through d.intent
      then with_found (extract_query_order_no is_digit text) d
      else if not (query_has_order_signal is_digit text)
      then d
      else forced text d

  -- `apply_low_confidence`
  unfoldable pub apply_low_confidence : RouteDecision → RouteDecision
  unfolding decide
  apply_low_confidence d =
      if not (is_course d.intent)
      then d
      else if leb policy.confidence_rag_min d.confidence
      then d
      else decide mixed (codes "low-confidence-upgrade") d.confidence d.order_no d.course_query
          false none

  -- `downgrade_missing_order`
  unfoldable pub downgrade_missing_order : RouteDecision → RouteDecision
  unfolding decide
  downgrade_missing_order d =
      if not (is_order d.intent) || is_given d.order_no
      then d
      else decide ambiguous (codes "missing-order-no") policy.confidence_ambiguous none
          d.course_query true (some policy.missing_order_clarify)

  -- `finalize`
  unfoldable pub finalize : Text → RouteDecision → RouteDecision
  unfolding apply_order_signal apply_low_confidence downgrade_missing_order finalize_route
  finalize text d =
      finalize_route (downgrade_missing_order (apply_low_confidence (apply_order_signal text d)))

  -- What the graph may rely on: the target is the intent's, the confidence is positive, an order
  -- intent has its number, a course question is confident, and neither a course question nor chat
  -- comes from a text with an order signal.
  pub record IsRoutable (text : Text) (d : RouteDecision) : Type 0 where
    pub aimed : d.target ≡ intent_to_target d.intent
    pub positive : 0 < d.confidence
    pub numbered : d.intent ≡ order → is_given d.order_no ≡ true
    pub confident : d.intent ≡ course_consult → policy.confidence_rag_min ≤ d.confidence
    pub no_signal : passes_through d.intent ≡ false → query_has_order_signal is_digit text ≡ false

  apply_order_signal-aimed :
      (text : Text) (d : RouteDecision)
      → d.target ≡ intent_to_target d.intent
      → (apply_order_signal text d).target ≡ intent_to_target (apply_order_signal text d).intent
  unfolding apply_order_signal forced decide finalize_route
  apply_order_signal-aimed text d h = ground (arith, h)

  apply_order_signal-no_signal :
      (text : Text) (d : RouteDecision)
      → passes_through (apply_order_signal text d).intent ≡ false
      → query_has_order_signal is_digit text ≡ false
  unfolding apply_order_signal forced decide finalize_route
  apply_order_signal-no_signal text d h = ground (arith, h)

  apply_low_confidence-aimed :
      (d : RouteDecision)
      → d.target ≡ intent_to_target d.intent
      → (apply_low_confidence d).target ≡ intent_to_target (apply_low_confidence d).intent
  unfolding apply_low_confidence decide finalize_route
  apply_low_confidence-aimed d h = ground (arith, h)

  apply_low_confidence-confident :
      (d : RouteDecision)
      → ((apply_low_confidence d).intent ≡ course_consult
          → policy.confidence_rag_min ≤ (apply_low_confidence d).confidence)
        × (passes_through (apply_low_confidence d).intent ≡ false → passes_through d.intent ≡ false)
  unfolding apply_low_confidence decide finalize_route
  apply_low_confidence-confident d = (λ e. ground (arith, e), λ e. ground (arith, e))

  downgrade_missing_order-numbered :
      (d : RouteDecision)
      → ((downgrade_missing_order d).intent ≡ order
          → is_given (downgrade_missing_order d).order_no ≡ true)
        × (d.target ≡ intent_to_target d.intent
            → (downgrade_missing_order d).target
              ≡ intent_to_target (downgrade_missing_order d).intent)
        × ((downgrade_missing_order d).intent ≡ course_consult → downgrade_missing_order d ≡ d)
        × (passes_through (downgrade_missing_order d).intent ≡ false
            → passes_through d.intent ≡ false)
  unfolding downgrade_missing_order decide finalize_route
  downgrade_missing_order-numbered d = (
    λ e. elim (Bool-cases (not (is_order d.intent) || is_given d.order_no)) [
      | inl q ↦
          rw q
            (let f : is_order d.intent ≡ true = ap is_order (rw q at e) in let k = rw f at q in k)
      | inr q ↦ cc (q, e)
    ],
    λ h. ground (arith, h),
    λ e. ground (arith, e),
    λ e. ground (arith, e),
  )

  -- Whatever was recognised, the decision that leaves `finalize` has the target of its intent, a
  -- positive confidence, an order number if it is about an order, and a confident course question
  -- if it is about a course; a course question or chat comes only from a text with no order signal.
  -- The decision that comes in has the target of its intent, as the recognisers give it.
  pub finalize-IsRoutable :
      (text : Text) (d : RouteDecision)
      → d.target ≡ intent_to_target d.intent
      → IsRoutable text (finalize text d)
  unfolding finalize finalize_route
  finalize-IsRoutable text d aimed =
      let signalled = apply_order_signal text d in
      let guarded = apply_low_confidence signalled in
      let down = downgrade_missing_order guarded in
      let (numbered, keeps, stays, passes) = downgrade_missing_order-numbered guarded in
      let (confident, passed) = apply_low_confidence-confident signalled in
      record {
        aimed =
            keeps (apply_low_confidence-aimed signalled (apply_order_signal-aimed text d aimed));
        positive = ground arith;
        numbered = numbered;
        confident = λ e.
            let same : down ≡ guarded = stays e in
            let n = confident (sym (ap (λ (x : RouteDecision). x.intent) same) ∙ e) in
            let m = ap (λ (x : RouteDecision). x.confidence) same in ground arith;
        no_signal = λ e. apply_order_signal-no_signal text d (passed (passes e));
      }
