-- ===== src/Policy/Slots.antt =====
-- The session's slots, app/context/slots.py: what a follow-up inherits, and what a turn leaves.
use customer_service.Prelude.{
  ℕ, ◌≡◌, refl, ap, ◌∙◌, max, Bool, true, false, ◌&&◌, ◌||◌, not, Option, none, some, arith, leb,
  ltb, if◌then◌else◌, List, [], ◌∷◌, length, any, Bool-cases, inl, inr,
}
use customer_service.Prelude.Text.{Text, codes, Text-discrete, contains, strip, text_of, has_text}
use customer_service.Prelude.Dict.{among}
use customer_service.Policy.Types.{
  Intent, course_consult, order, mixed, ambiguous, chitchat, handoff, intent_to_target,
  RouteDecision, is_given, or_text,
}

-- `SessionSlots`
pub record SessionSlots : Type 0 where
  pub last_intent : Option Intent
  pub last_order_no : Option Text
  pub last_course_query : Option Text
  pub last_course_name : Option Text
  pub handoff_pending : Bool

abbrev continue_hints : List Text
continue_hints = codes "继续" ∷ codes "还有" ∷ codes "然后呢" ∷ codes "接着" ∷ codes "再问" ∷ codes "补充一下" ∷ []

abbrev deictic_hints : List Text
deictic_hints = codes "这" ∷ codes "那" ∷ codes "它" ∷ codes "该" ∷ codes "此" ∷ []

abbrev order_followup_hints : List Text
order_followup_hints =
    codes "进度" ∷ codes "退款" ∷ codes "到哪" ∷ codes "怎么样" ∷ codes "何时" ∷ codes "什么时候" ∷ codes "开课" ∷ []

abbrev course_followup_hints : List Text
course_followup_hints =
    codes "难" ∷ codes "适合" ∷ codes "多少钱" ∷ codes "内容" ∷ codes "大纲" ∷ codes "模块" ∷ codes "能学" ∷ []

-- `SHORT_QUERY_CHARS` of app/context/window.py
abbrev short_query_chars : ℕ
short_query_chars = 12

abbrev mentions : List Text → Text → Bool
mentions hints query = any (λ token. contains token query) hints

-- `is_followup`
unfoldable pub is_followup : Text → Bool
is_followup text =
    let query = strip text in
    has_text query
    && (mentions continue_hints query
        || ((leb (length query) 20 && mentions deictic_hints query)
            || ((leb (length query) 10 && mentions order_followup_hints query)
                || (leb (length query) 10 && mentions course_followup_hints query))))

-- `slots.last_intent in BUSINESS_INTENTS`
abbrev pub business : Option Intent → Option Intent
business (some course_consult) = some course_consult
business (some order) = some order
business (some mixed) = some mixed
business (some handoff) = some handoff
business _ = none

abbrev pub is_open : Intent → Bool
is_open chitchat = true
is_open ambiguous = true
is_open _ = false

abbrev wants_course : Intent → Bool
wants_course course_consult = true
wants_course mixed = true
wants_course _ = false

abbrev wants_order : Intent → Bool
wants_order order = true
wants_order mixed = true
wants_order _ = false

-- the follow-up takes up the last business intent
unfoldable pub resume : Intent → SessionSlots → RouteDecision → RouteDecision
resume intent slots d = record d {
  intent = intent;
  reason = codes "slot-followup";
  confidence = max d.confidence 85;
  needs_clarification = false;
  clarification_question = none;
  course_query =
      if wants_course intent && not (is_given d.course_query)
      then or_text slots.last_course_name slots.last_course_query
      else d.course_query;
}

unfoldable pub resumed : Text → SessionSlots → RouteDecision → RouteDecision
unfolding resume is_followup
resumed text slots d =
    if is_open d.intent && is_followup text
    then elim (business slots.last_intent) [ none ↦ d | some intent ↦ resume intent slots d ]
    else d

-- the order number and the course that the intent wants
unfoldable pub fill : Text → SessionSlots → RouteDecision → RouteDecision
fill text slots d = record d {
  target = intent_to_target d.intent;
  order_no =
      if wants_order d.intent && not (is_given d.order_no) then slots.last_order_no else d.order_no;
  course_query =
      if wants_course d.intent
        && (ltb (length (strip text)) short_query_chars || not (is_given d.course_query))
      then or_text (or_text (or_text d.course_query slots.last_course_name) slots.last_course_query)
          (some text)
      else d.course_query;
}

-- `apply_session_slots`
unfoldable pub apply_session_slots : Text → RouteDecision → SessionSlots → RouteDecision
unfolding resumed fill
apply_session_slots text d slots = fill text slots (resumed text slots d)

resumed-order_no :
    (text : Text) (slots : SessionSlots) (d : RouteDecision)
    → (resumed text slots d).order_no ≡ d.order_no
unfolding resumed resume
resumed-order_no text slots d = elim (Bool-cases (is_open d.intent && is_followup text)) [
  | inl e ↦ rw e (taken (business slots.last_intent))
  | inr e ↦ rw e refl
]
  where
    taken :
        (i : Option Intent)
        → (elim i as (λ _. RouteDecision) [
          | none ↦ d
          | some intent ↦ resume intent slots d
        ]).order_no
          ≡ d.order_no
    taken none = refl
    taken (some i) = refl

fill-order_no :
    (text : Text) (slots : SessionSlots) (d : RouteDecision)
    → is_given d.order_no ≡ true
    → (fill text slots d).order_no ≡ d.order_no
unfolding fill
fill-order_no text slots d h = elim (Bool-cases (wants_order d.intent)) [
  | inl e ↦ rw (e, h) refl
  | inr e ↦ rw e refl
]

-- A new topic is not overridden by the slots: unless the recogniser was unsure and the text reads
-- like a follow-up, the intent, the confidence and the reason stay; in every case the target is the
-- intent's, and an order number that was recognised is kept.
pub apply_session_slots-keeps :
    (text : Text) (d : RouteDecision) (slots : SessionSlots)
    → ((is_open d.intent && is_followup text) ≡ false
        → ((apply_session_slots text d slots).intent ≡ d.intent)
          × ((apply_session_slots text d slots).confidence ≡ d.confidence)
          × ((apply_session_slots text d slots).reason ≡ d.reason))
      × ((apply_session_slots text d slots).target
          ≡ intent_to_target (apply_session_slots text d slots).intent)
      × (is_given d.order_no ≡ true → (apply_session_slots text d slots).order_no ≡ d.order_no)
unfolding apply_session_slots fill
apply_session_slots-keeps text d slots = (
  λ e.
      let p : resumed text slots d ≡ d = (unfold resumed in rw e refl) in
      (
        ap (λ (x : RouteDecision). x.intent) p,
        ap (λ (x : RouteDecision). x.confidence) p,
        ap (λ (x : RouteDecision). x.reason) p,
      ),
  refl,
  λ h.
      let p = resumed-order_no text slots d in
      fill-order_no text slots (resumed text slots d) (ap is_given p ∙ h) ∙ p,
)

-- what `slot_updates_after_turn` writes: a field that is not there keeps its value
pub record SlotUpdates : Type 0 where
  pub handoff_pending : Bool
  pub last_intent : Option Intent
  pub last_order_no : Option Text
  pub last_course_query : Option Text
  pub last_course_name : Option Text

abbrev pub missing_course_names : List Text
missing_course_names = [] ∷ codes "未找到课程" ∷ []

abbrev is_handoff : Intent → Bool
is_handoff handoff = true
is_handoff _ = false

abbrev if_given : Option Text → Option Text
if_given t = if is_given t then t else none

-- `slot_updates_after_turn`
unfoldable pub slot_updates_after_turn :
    Intent → Option Text → Option Text → Option Text → SlotUpdates
slot_updates_after_turn intent order_no course_query course_name = record {
  handoff_pending = is_handoff intent;
  last_intent = business (some intent);
  last_order_no = if_given order_no;
  last_course_query = if_given course_query;
  last_course_name =
      let name = strip (text_of course_name) in
      if has_text name && not (among Text-discrete name missing_course_names)
      then some name
      else none;
}

abbrev or_kept : Option Text → Option Text → Option Text
or_kept none old = old
or_kept (some new) old = some new

abbrev or_kept_intent : Option Intent → Option Intent → Option Intent
or_kept_intent none old = old
or_kept_intent (some new) old = some new

-- the slots behind a turn: the graph's state takes the fields that are written
unfoldable pub update : SlotUpdates → SessionSlots → SessionSlots
update u s = record {
  last_intent = or_kept_intent u.last_intent s.last_intent;
  last_order_no = or_kept u.last_order_no s.last_order_no;
  last_course_query = or_kept u.last_course_query s.last_course_query;
  last_course_name = or_kept u.last_course_name s.last_course_name;
  handoff_pending = u.handoff_pending;
}

-- Chat and requests for clarification between two turns change no slot but the pending handoff, and
-- the placeholder for a course that was not found is never stored as a course's name.
pub slot_updates_after_turn-keeps :
    (intent : Intent) (s : SessionSlots) (course_name : Option Text)
    → (is_open intent ≡ true
        → update (slot_updates_after_turn intent none none none) s
          ≡ record s { handoff_pending = false })
      × ((name : Text)
          → (slot_updates_after_turn intent none none course_name).last_course_name ≡ some name
          → among Text-discrete name missing_course_names ≡ false)
unfolding slot_updates_after_turn update strip
slot_updates_after_turn-keeps intent s course_name = (quiet intent, λ name e. ground (arith, e))
  where
    quiet :
        (i : Intent)
        → is_open i ≡ true
        → update (slot_updates_after_turn i none none none) s ≡ record s { handoff_pending = false }
    quiet chitchat e = refl
    quiet ambiguous e = refl
    quiet course_consult e = cc
    quiet order e = cc
    quiet mixed e = cc
    quiet handoff e = cc
