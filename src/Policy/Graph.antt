-- ===== src/Policy/Graph.antt =====
-- The edges of the conversation graph: `next_after_router` and `next_after_rag` of
-- app/agents/policy.py, and `build_graph` of app/graph/builder.py. The state's target and intent are
-- one of the known words or absent, which the code reads alike.
use customer_service.Prelude.{
  ℕ, ◌+◌, ◌≤◌, ◌<◌, ◌≡◌, refl, Bool, true, false, ◌||◌, ◌&&◌, Option, none, some, arith, ltb,
  if◌then◌else◌, List, [], ◌∷◌, Bool-cases, inl, inr, ◌⊎◌, length,
}
use customer_service.Prelude.Text.{Text}
use customer_service.Policy.Types.{
  Intent, course_consult, order, mixed, ambiguous, chitchat, handoff, RouteTarget, rag, tool,
  supervisor, to_handoff, to_chitchat, intent_to_target, RouteDecision,
}
use customer_service.Policy.Route.{RoutingPolicy, finalize, IsRoutable, finalize-IsRoutable}

pub data GraphNode : Type 0 where
  at_start at_security at_router at_rag at_tool at_supervisor at_chitchat at_handoff at_respond
        at_end :
      GraphNode

-- `_TARGET_BY_KEY`, for a target and for an intent
abbrev pub node_of : RouteTarget → GraphNode
node_of rag = at_rag
node_of tool = at_tool
node_of supervisor = at_supervisor
node_of to_handoff = at_handoff
node_of to_chitchat = at_chitchat

abbrev node_of_intent : Intent → GraphNode
node_of_intent course_consult = at_rag
node_of_intent order = at_tool
node_of_intent mixed = at_supervisor
node_of_intent ambiguous = at_supervisor
node_of_intent handoff = at_handoff
node_of_intent chitchat = at_chitchat

-- `target or intent or "chitchat"`, looked up
abbrev pub dest : Option RouteTarget → Option Intent → GraphNode
dest (some t) i = node_of t
dest none (some i) = node_of_intent i
dest none none = at_chitchat

abbrev is_rag : GraphNode → Bool
is_rag at_rag = true
is_rag _ = false

-- what the edges read of the state
pub record Route : Type 0 where
  pub blocked : Bool
  pub target : Option RouteTarget
  pub intent : Option Intent
  pub confidence : ℕ
  pub rag_upgraded_to_supervisor : Bool

abbrev is_to_supervisor : Option RouteTarget → Bool
is_to_supervisor (some supervisor) = true
is_to_supervisor _ = false

-- `next_after_rag`
unfoldable pub next_after_rag : Route → GraphNode
next_after_rag r =
    if r.rag_upgraded_to_supervisor || is_to_supervisor r.target then at_supervisor else at_respond

module _ (is_digit : ℕ → Bool) (policy : RoutingPolicy) where
  -- `next_after_router`
  unfoldable pub next_after_router : Route → GraphNode
  next_after_router r =
      if r.blocked
      then at_respond
      else if is_rag (dest r.target r.intent) && ltb r.confidence policy.confidence_rag_min
      then at_supervisor
      else dest r.target r.intent

  -- one edge of `build_graph`, taken with the state as the node before it left it
  pub data Edge (r : Route) : GraphNode → GraphNode → Type 0 where
    start_security : Edge r at_start at_security
    security_router : Edge r at_security at_router
    router_next : Edge r at_router (next_after_router r)
    rag_next : Edge r at_rag (next_after_rag r)
    tool_respond : Edge r at_tool at_respond
    supervisor_respond : Edge r at_supervisor at_respond
    chitchat_respond : Edge r at_chitchat at_respond
    handoff_respond : Edge r at_handoff at_respond
    respond_end : Edge r at_respond at_end

  -- how many edges are left at most
  abbrev rank : GraphNode → ℕ
  rank at_start = 6
  rank at_security = 5
  rank at_router = 4
  rank at_rag = 3
  rank at_respond = 1
  rank at_end = 0
  rank _ = 2

  -- a run of the graph, with the states at its edges
  pub data Walk : GraphNode → GraphNode → List Route → Type 0 where
    stays : {a : GraphNode} → Walk a a []
    follows :
        {a b c : GraphNode} {rs : List Route} (r : Route)
        → Edge r a b
        → Walk b c rs
        → Walk a c (r ∷ rs)

  next_after_rag-rank : (r : Route) → rank (next_after_rag r) ≤ 2
  unfolding next_after_rag
  next_after_rag-rank r =
      elim (Bool-cases (r.rag_upgraded_to_supervisor || is_to_supervisor r.target)) [
        | inl e ↦ rw e (omega arith)
        | inr e ↦ rw e (omega arith)
      ]

  dest-rank : (t : Option RouteTarget) (i : Option Intent) → rank (dest t i) ≤ 3
  dest-rank (some rag) i = omega arith
  dest-rank (some tool) i = omega arith
  dest-rank (some supervisor) i = omega arith
  dest-rank (some to_handoff) i = omega arith
  dest-rank (some to_chitchat) i = omega arith
  dest-rank none (some course_consult) = omega arith
  dest-rank none (some order) = omega arith
  dest-rank none (some mixed) = omega arith
  dest-rank none (some ambiguous) = omega arith
  dest-rank none (some handoff) = omega arith
  dest-rank none (some chitchat) = omega arith
  dest-rank none none = omega arith

  next_after_router-rank : (r : Route) → rank (next_after_router r) ≤ 3
  unfolding next_after_router
  next_after_router-rank r = elim (Bool-cases r.blocked) [
    | inl e ↦ rw e (omega arith)
    | inr e ↦
        elim (Bool-cases
          (is_rag (dest r.target r.intent) && ltb r.confidence policy.confidence_rag_min)) [
            | inl f ↦ rw (e, f) (omega arith)
            | inr f ↦ rw (e, f) (dest-rank r.target r.intent)
          ]
  ]

  Edge-rank : {r : Route} {a b : GraphNode} → Edge r a b → rank b < rank a
  Edge-rank start_security = omega arith
  Edge-rank security_router = omega arith
  Edge-rank {r} router_next = omega (arith, next_after_router-rank r)
  Edge-rank {r} rag_next = omega (arith, next_after_rag-rank r)
  Edge-rank tool_respond = omega arith
  Edge-rank supervisor_respond = omega arith
  Edge-rank chitchat_respond = omega arith
  Edge-rank handoff_respond = omega arith
  Edge-rank respond_end = omega arith

  Walk-rank : {a b : GraphNode} {rs : List Route} → Walk a b rs → length rs + rank b ≤ rank a
  Walk-rank stays = omega arith
  Walk-rank (follows r e w) = omega (arith, Edge-rank e, Walk-rank w)

  -- Whatever the nodes write into the state, a turn ends: a run of the graph has at most six edges,
  -- and at every node but the end there is an edge to take.
  pub Walk-ends :
      {b : GraphNode} {rs : List Route}
      → Walk at_start b rs
      → (length rs ≤ 6) × ((r : Route) → (b ≡ at_end) ⊎ ((c : GraphNode) × Edge r b c))
  Walk-ends w = (omega (arith, Walk-rank w), onward _)
    where
      onward : (b : GraphNode) (r : Route) → (b ≡ at_end) ⊎ ((c : GraphNode) × Edge r b c)
      onward at_start r = inr (at_security, start_security)
      onward at_security r = inr (at_router, security_router)
      onward at_router r = inr (next_after_router r, router_next)
      onward at_rag r = inr (next_after_rag r, rag_next)
      onward at_tool r = inr (at_respond, tool_respond)
      onward at_supervisor r = inr (at_respond, supervisor_respond)
      onward at_chitchat r = inr (at_respond, chitchat_respond)
      onward at_handoff r = inr (at_respond, handoff_respond)
      onward at_respond r = inr (at_end, respond_end)
      onward at_end r = inl refl

  -- the state that the router leaves
  abbrev pub routed : RouteDecision → Route
  routed d = record {
    blocked = false;
    target = some d.target;
    intent = some d.intent;
    confidence = d.confidence;
    rag_upgraded_to_supervisor = false;
  }

  routed-next :
      (text : Text) (d : RouteDecision)
      → IsRoutable is_digit policy text d
      → next_after_router (routed d) ≡ node_of (intent_to_target d.intent)
  unfolding next_after_router intent_to_target
  routed-next text d ok = by_intent d.intent refl
    where
      by_intent :
          (i : Intent)
          → d.intent ≡ i
          → next_after_router (routed d) ≡ node_of (intent_to_target d.intent)
      by_intent course_consult e = (let t = ok.aimed in let c = ok.confident e in ground arith)
      by_intent order e = (let t = ok.aimed in ground arith)
      by_intent mixed e = (let t = ok.aimed in ground arith)
      by_intent ambiguous e = (let t = ok.aimed in ground arith)
      by_intent handoff e = (let t = ok.aimed in ground arith)
      by_intent chitchat e = (let t = ok.aimed in ground arith)

  -- The two guards against unsure course questions agree: once a decision has passed `finalize`, the
  -- edge behind the router leads to the node of its intent and never reroutes it.
  pub next_after_router-finalize :
      (text : Text) (d : RouteDecision)
      → d.target ≡ intent_to_target d.intent
      → next_after_router (routed (finalize is_digit policy text d))
        ≡ node_of (intent_to_target (finalize is_digit policy text d).intent)
  next_after_router-finalize text d aimed =
      routed-next text (finalize is_digit policy text d)
        (finalize-IsRoutable is_digit policy text d aimed)
