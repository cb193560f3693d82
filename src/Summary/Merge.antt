-- ===== src/Summary/Merge.antt =====
-- The lists of facts behind `merge` and `resolve` of app/context/summary/facts.py.
use customer_service.Prelude.{
  ℕ, zero, suc, ◌-◌, ◌≤◌, ◌<◌, ◌≡◌, refl, ap, ◌∙◌, Bool, true, false, ◌&&◌, ◌||◌, not, Option,
  arith, ◌==◌, List, [], ◌∷◌, ◌++◌, length, drop, all, keep_if, Bool-cases, inl, inr,
}
use customer_service.Prelude.Text.{Text, strip, same, has_text}
use customer_service.Context.Window.{last_n}
use customer_service.Policy.Slots.{SessionSlots}
use customer_service.Summary.{
  StructuredSummary, prepend_loop, prepend_unique, gives_way, exclusive_loop,
  apply_exclusive_sequence, merge, resolve, is_nonempty, slot_order, slot_course, pending_order_no,
  pending_course, unless,
}
use mathlib.Core.Path.{subst}
use customer_service.Summary.Exclusive.{excludes, gives_way-excludes}
use customer_service.Summary.Latest.{
  repeats, left_over, exclusive_loop-left_over, prepend_loop-left_over,
}
use customer_service.Summary.Render.{length-last_n}

-- no entry stands behind one that gives way to it
abbrev pub IsExclusive : (Text → Text → Bool) → List Text → Type 0
IsExclusive yields [] = Unit
IsExclusive yields (x ∷ xs) = (all (λ y. not (yields y x)) xs ≡ true) × IsExclusive yields xs

module _ {A : Type 0} where
  all-append : (p : A → Bool) (xs ys : List A) → all p (xs ++ ys) ≡ (all p xs && all p ys)
  all-append p [] ys = refl
  all-append p (x ∷ xs) ys = ground (arith, all-append p xs ys)

  all-keep_if : (p q : A → Bool) (xs : List A) → all p xs ≡ true → all p (keep_if q xs) ≡ true
  all-keep_if p q [] h = refl
  all-keep_if p q (x ∷ xs) h = ground (arith, all-keep_if p q xs)

  all-keep_if_self : (p : A → Bool) (xs : List A) → all p (keep_if p xs) ≡ true
  all-keep_if_self p [] = refl
  all-keep_if_self p (x ∷ xs) = ground (arith, all-keep_if_self p xs)

module _ (yields : Text → Text → Bool) where
  keep_if-IsExclusive :
      (q : Text → Bool) (xs : List Text) → IsExclusive yields xs → IsExclusive yields (keep_if q xs)
  keep_if-IsExclusive q [] h = tt
  keep_if-IsExclusive q (x ∷ xs) (a, b) = elim (Bool-cases (q x)) [
    | inl e ↦ rw e (all-keep_if (λ y. not (yields y x)) q xs a, keep_if-IsExclusive q xs b)
    | inr e ↦ rw e (keep_if-IsExclusive q xs b)
  ]

  append-IsExclusive :
      (xs : List Text) (y : Text)
      → IsExclusive yields xs
      → all (λ x. not (yields y x)) xs ≡ true
      → IsExclusive yields (xs ++ y ∷ [])
  append-IsExclusive [] y h a = (refl, tt)
  append-IsExclusive (x ∷ xs) y (b, h) a = (
    all-append (λ z. not (yields z x)) xs (y ∷ []) ∙ ground arith,
    append-IsExclusive xs y h (ground arith),
  )

  drop-IsExclusive :
      (n : ℕ) (xs : List Text) → IsExclusive yields xs → IsExclusive yields (drop n xs)
  drop-IsExclusive zero xs h = h
  drop-IsExclusive (suc n) [] h = h
  drop-IsExclusive (suc n) (x ∷ xs) h = drop-IsExclusive n xs h.1

  last_n-IsExclusive :
      (n : ℕ) (xs : List Text) → IsExclusive yields xs → IsExclusive yields (last_n n xs)
  unfolding last_n
  last_n-IsExclusive n xs h = elim (Bool-cases (n == 0)) [
    | inl e ↦ rw e h
    | inr e ↦ rw e (drop-IsExclusive (length xs - n) xs h)
  ]

  -- what both loops do with an entry
  taken-IsExclusive :
      (out : List Text) (text : Text)
      → IsExclusive yields out
      → IsExclusive yields (keep_if (λ x. not (yields text x)) out ++ text ∷ [])
  taken-IsExclusive out text h =
      append-IsExclusive (keep_if (λ x. not (yields text x)) out) text
        (keep_if-IsExclusive (λ x. not (yields text x)) out h)
        (all-keep_if_self (λ x. not (yields text x)) out)

exclusive_loop-IsExclusive :
    (labels out : List Text)
    → IsExclusive gives_way out
    → IsExclusive gives_way (exclusive_loop out labels)
unfolding exclusive_loop
exclusive_loop-IsExclusive [] out h = h
exclusive_loop-IsExclusive (item ∷ labels) out h = elim (Bool-cases (has_text (strip item))) [
  | inl e ↦ rw e (
      exclusive_loop-IsExclusive labels
        (keep_if (λ x. not (gives_way (strip item) x)) out ++ strip item ∷ [])
        (taken-IsExclusive gives_way out (strip item) h))
  | inr e ↦ rw e (exclusive_loop-IsExclusive labels out h)
]

prepend_loop-IsExclusive :
    (incoming out : List Text)
    → IsExclusive repeats out
    → IsExclusive repeats (prepend_loop out incoming)
unfolding prepend_loop
prepend_loop-IsExclusive [] out h = h
prepend_loop-IsExclusive (item ∷ incoming) out h = elim (Bool-cases (has_text (strip item))) [
  | inl e ↦ rw e (
      prepend_loop-IsExclusive incoming
        (keep_if (λ x. not (same x (strip item))) out ++ strip item ∷ [])
        (taken-IsExclusive repeats out (strip item) h))
  | inr e ↦ rw e (prepend_loop-IsExclusive incoming out h)
]

-- a list of facts that is short and says nothing twice
abbrev pub IsShort : ℕ → List Text → Type 0
IsShort cap xs = (length xs ≤ cap) × IsExclusive repeats xs

pub record IsTidy (s : StructuredSummary) : Type 0 where
  pub orders : IsShort 3 s.orders
  pub courses : IsShort 3 s.courses
  pub confirmed : (length s.confirmed ≤ 6) × IsExclusive excludes s.confirmed
  pub pending : IsShort 4 s.pending

prepend_unique-IsShort :
    (existing incoming : List Text) (cap : ℕ)
    → 0 < cap
    → IsExclusive repeats existing
    → IsShort cap (prepend_unique existing incoming cap)
unfolding prepend_unique
prepend_unique-IsShort existing incoming cap pos h = (
  length-last_n cap (prepend_loop existing incoming) pos,
  last_n-IsExclusive repeats cap (prepend_loop existing incoming)
      (prepend_loop-IsExclusive incoming existing h),
)

-- Merging anything into a tidy summary leaves it tidy: at most three orders, three courses, six
-- confirmed facts and four open ones, none of them twice, and among the confirmed ones no two that
-- exclude each other. Which ones are left is fixed: the last of those that none behind it repeats or,
-- among the confirmed facts, excludes, in order, so the later one has replaced the earlier.
pub merge-IsTidy :
    (s other : StructuredSummary)
    → IsTidy s
    → IsTidy (merge s other)
      × ((merge s other).orders ≡ last_n 3 (left_over repeats s.orders other.orders))
      × ((merge s other).courses ≡ last_n 3 (left_over repeats s.courses other.courses))
      × ((merge s other).confirmed
          ≡ last_n 6 (left_over excludes [] (s.confirmed ++ other.confirmed)))
      × ((merge s other).pending ≡ last_n 4 (left_over repeats s.pending other.pending))
unfolding merge prepend_unique apply_exclusive_sequence
merge-IsTidy s other tidy = (
  record {
    orders = prepend_unique-IsShort s.orders other.orders 3 (omega arith) tidy.orders.1;
    courses = prepend_unique-IsShort s.courses other.courses 3 (omega arith) tidy.courses.1;
    confirmed = (
      length-last_n 6 (exclusive_loop [] (s.confirmed ++ other.confirmed)) (omega arith),
      subst (λ f. IsExclusive f (last_n 6 (exclusive_loop [] (s.confirmed ++ other.confirmed))))
          gives_way-excludes
          (last_n-IsExclusive gives_way 6 (exclusive_loop [] (s.confirmed ++ other.confirmed))
            (exclusive_loop-IsExclusive (s.confirmed ++ other.confirmed) [] tt)),
    );
    pending = prepend_unique-IsShort s.pending other.pending 4 (omega arith) tidy.pending.1;
  },
  ap (last_n 3) (prepend_loop-left_over other.orders s.orders),
  ap (last_n 3) (prepend_loop-left_over other.courses s.courses),
  ap (last_n 6) (
      exclusive_loop-left_over (s.confirmed ++ other.confirmed) []
      ∙ ap (λ f. left_over f [] (s.confirmed ++ other.confirmed)) gives_way-excludes),
  ap (last_n 4) (prepend_loop-left_over other.pending s.pending),
)

-- What is known is not asked for: with an order in the summary or in the slots no order number is
-- pending behind `resolve`, with a course no course is.
pub resolve_settles :
    (s : StructuredSummary) (slots : Option SessionSlots)
    → ((is_nonempty s.orders || has_text (slot_order slots)) ≡ true
        → all (λ x. not (same x pending_order_no)) (resolve s slots).pending ≡ true)
      × ((is_nonempty s.courses || has_text (slot_course slots)) ≡ true
          → all (λ x. not (same x pending_course)) (resolve s slots).pending ≡ true)
unfolding resolve
resolve_settles s slots = (
  λ e. rw e (still (is_nonempty s.courses || has_text (slot_course slots))),
  λ e. rw e (
      all-keep_if_self (λ x. not (same x pending_course))
        (unless (is_nonempty s.orders || has_text (slot_order slots)) pending_order_no s.pending)),
)
  where
    still :
        (b : Bool)
        → all
            (λ x. not (same x pending_order_no))
            (unless b pending_course (keep_if (λ x. not (same x pending_order_no)) s.pending))
          ≡ true
    still true =
        all-keep_if (λ x. not (same x pending_order_no)) (λ x. not (same x pending_course))
          (keep_if (λ x. not (same x pending_order_no)) s.pending)
          (all-keep_if_self (λ x. not (same x pending_order_no)) s.pending)
    still false = all-keep_if_self (λ x. not (same x pending_order_no)) s.pending
