-- ===== src/Summary.antt =====
-- The rolling summary of a conversation, `StructuredSummary` of app/context/summary/facts.py: how
-- facts are merged, resolved against the slots, and rendered within a limit. `parse` and the
-- extraction of facts are regular expressions and are not modelled.
pub mod Exclusive
pub mod Latest
pub mod Merge
pub mod Render
pub mod Tests
use customer_service.Prelude.{
  ℕ, zero, suc, ◌+◌, max, Bool, true, false, ◌&&◌, ◌||◌, not, Option, none, some, leb, ltb,
  if◌then◌else◌, List, [], ◌∷◌, ◌++◌, length, any, keep_if,
}
use customer_service.Prelude.Text.{Text, codes, strip, same, text_of, has_text, join}
use customer_service.Context.Window.{last_n}
use customer_service.Policy.Slots.{SessionSlots}

-- `StructuredSummary`
pub record StructuredSummary : Type 0 where
  pub orders : List Text
  pub courses : List Text
  pub intent : Text
  pub confirmed : List Text
  pub pending : List Text

-- `_resolve_summary_max_chars`, with the setting as the default
unfoldable pub resolve_summary_max_chars : ℕ → Option ℕ → ℕ
resolve_summary_max_chars setting none = max 80 setting
resolve_summary_max_chars setting (some max_chars) = max 80 max_chars

-- `_clip_summary`
unfoldable pub clip_summary : ℕ → Text → Option ℕ → Text
unfolding resolve_summary_max_chars last_n
clip_summary setting text max_chars =
    let limit = resolve_summary_max_chars setting max_chars in
    if leb (length (strip text)) limit then strip text else last_n limit (strip text)

-- the loop of `_prepend_unique`
unfoldable pub prepend_loop : List Text → List Text → List Text
prepend_loop out [] = out
prepend_loop out (item ∷ incoming) =
    let text = strip item in
    let skipped = prepend_loop out incoming in
    let taken = prepend_loop (keep_if (λ x. not (same x text)) out ++ text ∷ []) incoming in
    if not (has_text text) then skipped else taken

-- `_prepend_unique`
unfoldable pub prepend_unique : List Text → List Text → ℕ → List Text
unfolding prepend_loop last_n
prepend_unique existing incoming cap = last_n cap (prepend_loop existing incoming)

-- `_EXCLUSIVE_LABEL_GROUPS`
abbrev pub exclusive_label_groups : List (List Text)
exclusive_label_groups =
    (codes "已确认不适合零基础" ∷ codes "适合零基础" ∷ []) ∷ (codes "退款已完成" ∷ codes "退款审核中" ∷ []) ∷ []

-- `_rivals_of`: the others of the first group that has the label
unfoldable pub rivals_in : List (List Text) → Text → List Text
rivals_in [] label = []
rivals_in (group ∷ groups) label =
    let later = rivals_in groups label in
    if any (same label) group then keep_if (λ x. not (same x label)) group else later

unfoldable pub rivals_of : Text → List Text
unfolding rivals_in
rivals_of label = rivals_in exclusive_label_groups label

-- an entry that gives way to a label: the same, or a rival
unfoldable pub gives_way : Text → Text → Bool
unfolding rivals_of
gives_way label x = same x label || any (same x) (rivals_of label)

-- the loop of `_apply_exclusive_sequence`
unfoldable pub exclusive_loop : List Text → List Text → List Text
unfolding gives_way
exclusive_loop out [] = out
exclusive_loop out (item ∷ labels) =
    let text = strip item in
    let skipped = exclusive_loop out labels in
    let taken = exclusive_loop (keep_if (λ x. not (gives_way text x)) out ++ text ∷ []) labels in
    if not (has_text text) then skipped else taken

-- `_apply_exclusive_sequence`, with a cap and without
unfoldable pub apply_exclusive_sequence : List Text → Option ℕ → List Text
unfolding exclusive_loop last_n
apply_exclusive_sequence labels none = exclusive_loop [] labels
apply_exclusive_sequence labels (some cap) = last_n cap (exclusive_loop [] labels)

-- `merge`
unfoldable pub merge : StructuredSummary → StructuredSummary → StructuredSummary
unfolding prepend_unique apply_exclusive_sequence
merge self other = record {
  orders = prepend_unique self.orders other.orders 3;
  courses = prepend_unique self.courses other.courses 3;
  intent = strip (if has_text other.intent then other.intent else self.intent);
  confirmed = apply_exclusive_sequence (self.confirmed ++ other.confirmed) (some 6);
  pending = prepend_unique self.pending other.pending 4;
}

abbrev pub pending_order_no : Text
pending_order_no = codes "待提供订单号"

abbrev pub pending_course : Text
pending_course = codes "待确认课程"

abbrev is_nonempty : List Text → Bool
is_nonempty [] = false
is_nonempty (_ ∷ _) = true

abbrev slot_order : Option SessionSlots → Text
slot_order none = []
slot_order (some s) = strip (text_of s.last_order_no)

abbrev slot_course : Option SessionSlots → Text
slot_course none = []
slot_course (some s) = strip (text_of s.last_course_name)

abbrev unless : Bool → Text → List Text → List Text
unless settled label items = if settled then keep_if (λ x. not (same x label)) items else items

-- `resolve`: what is known is no longer pending
unfoldable pub resolve : StructuredSummary → Option SessionSlots → StructuredSummary
unfolding apply_exclusive_sequence
resolve self slots =
    let has_order = is_nonempty self.orders || has_text (slot_order slots) in
    let has_course = is_nonempty self.courses || has_text (slot_course slots) in
    record self {
      confirmed = apply_exclusive_sequence self.confirmed (some 6);
      pending = unless has_course pending_course (unless has_order pending_order_no self.pending);
    }

-- `has_content`
unfoldable pub has_content : StructuredSummary → Bool
has_content s =
    is_nonempty s.orders
    || (is_nonempty s.courses
        || (has_text s.intent || (is_nonempty s.confirmed || is_nonempty s.pending)))

abbrev row : Text → List Text → List Text
row label [] = []
row label (x ∷ xs) = (label ++ join (codes "；") (x ∷ xs)) ∷ []

-- `_lines`
unfoldable pub lines : StructuredSummary → Text
unfolding join
lines s = join (10 ∷ []) (
    row (codes "订单：") s.orders
    ++ (row (codes "课程：") s.courses
        ++ ((if has_text s.intent then (codes "意图：" ++ s.intent) ∷ [] else [])
            ++ (row (codes "已确认：") s.confirmed ++ row (codes "未决：") s.pending))))

abbrev has_spare : List Text → Bool
has_spare xs = ltb 1 (length xs)

abbrev rest : List Text → List Text
rest [] = []
rest (_ ∷ xs) = xs

-- one round of the loop of `render`: the oldest fact of the first list that can spare one goes
unfoldable pub shorter : StructuredSummary → Option StructuredSummary
shorter s =
    if has_spare s.confirmed
    then some (record s { confirmed = rest s.confirmed })
    else if has_spare s.pending
    then some (record s { pending = rest s.pending })
    else if has_spare s.orders
    then some (record s { orders = rest s.orders })
    else if has_spare s.courses
    then some (record s { courses = rest s.courses })
    else none

-- the loop, on fuel; `none` would be a loop that does not end
unfoldable pub shrink : ℕ → ℕ → StructuredSummary → Option Text
unfolding shorter lines last_n
shrink zero limit s = none
shrink (suc fuel) limit s =
    if leb (length (lines s)) limit
    then some (lines s)
    else elim (shorter s) [ none ↦ some (last_n limit (lines s)) | some s' ↦ shrink fuel limit s' ]

abbrev pub facts : StructuredSummary → ℕ
facts s = length s.confirmed + (length s.pending + (length s.orders + length s.courses))

-- `render`
unfoldable pub render : ℕ → StructuredSummary → Option ℕ → Option Text
unfolding shrink
render setting s none = some (lines s)
render setting s (some max_chars) =
    shrink (suc (facts s)) (resolve_summary_max_chars setting (some max_chars)) s

-- `finalize_structured`
unfoldable pub finalize_structured :
    ℕ → StructuredSummary → Option SessionSlots → Option ℕ → Option Text
unfolding render resolve has_content
finalize_structured setting s slots max_chars =
    if not (has_content (resolve s slots))
    then some []
    else render setting (resolve s slots) max_chars
