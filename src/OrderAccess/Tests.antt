-- ===== src/OrderAccess/Tests.antt =====
-- The order rules of app/security/order_access.py on a table of two orders.
use customer_service.Prelude.{
  ℕ, ◌<◌, ◌≡◌, ◌≢◌, ◌↔◌, refl, ap, sym, ◌∙◌, Bool, true, false, ◌&&◌, arith, leb, Option, none,
  some, List, [], ◌∷◌, In, length, inl, inr, Bool-cases, if◌then◌else◌,
}
use customer_service.Prelude.Text.{Text, codes, strip, Text-discrete}
use customer_service.Prelude.Dict.{among}
use customer_service.OrderAccess.{
  Order, direct_query, slot_followup, cross_tenant, is_order_no, normalize_user_id, is_anonymous,
  is_recall, satisfies, matches, make_order_scope_filters, allow, deny, decide_access, decide_row,
  authorize, returned, value_error, user_visible_deny, ensure_access,
}
use customer_service.OrderAccess.Scope
use customer_service.OrderAccess.Scope.{IsDatabase}
use customer_service.OrderAccess.Authorize

-- the query on a list of rows
unfoldable first : List Order → (Order → Bool) → Option Order
first [] p = none
first (o ∷ os) p = let rest = first os p in if p o then some o else rest

first_sound :
    (rows : List Order) (p : Order → Bool) (o : Order)
    → first rows p ≡ some o
    → In o rows × (p o ≡ true)
unfolding first
first_sound [] p o h = cc
first_sound (x ∷ rows) p o h = elim (Bool-cases (p x)) [
  | inl e ↦ (let q : x ≡ o = (let h' = rw e at h in ground arith) in (inl (sym q), rw (← q) e))
  | inr e ↦ (let (m, k) = first_sound rows p o (rw e at h) in (inr m, k))
]

first_complete :
    (rows : List Order) (p : Order → Bool) (o : Order)
    → In o rows
    → p o ≡ true
    → first rows p ≢ none
unfolding first
first_complete [] p o m h n = elim m [ ]
first_complete (x ∷ rows) p o (inl e) h n = (let k : p x ≡ true = rw (← e) h in ground arith)
first_complete (x ∷ rows) p o (inr m) h n = (let k = first_complete rows p o m h in ground arith)

abbrev is_digit : ℕ → Bool
is_digit c = leb 48 c && leb c 57

abbrev demo : Text
demo = codes "demo"

abbrev number : Text
number = codes "20260001"

abbrev bought : Order
bought = record { id = 1; order_no = number; tenant_id = demo; user_id = codes "ann"; details = [] }

abbrev other : Order
other = record {
  id = 2;
  order_no = codes "202600023";
  tenant_id = codes "acme";
  user_id = codes "bob";
  details = [];
}

abbrev rows : List Order
rows = bought ∷ other ∷ []

rows-IsDatabase : IsDatabase rows (first rows)
rows-IsDatabase = record { sound = first_sound rows; complete = first_complete rows; unique = only }
  where
    only :
        (o o' : Order)
        → In o rows
        → In o' rows
        → o.order_no ≡ o'.order_no
        → o.tenant_id ≡ o'.tenant_id
        → o ≡ o'
    only o o' (inl p) (inl q) n t = p ∙ sym q
    only o o' (inl p) (inr (inl q)) n t = absurd (
        let e : bought.order_no ≡ other.order_no =
          sym (ap (λ (x : Order). x.order_no) p) ∙ n ∙ ap (λ (x : Order). x.order_no) q in
        omega (arith, ap length e))
    only o o' (inr (inl p)) (inl q) n t = absurd (
        let e : other.order_no ≡ bought.order_no =
          sym (ap (λ (x : Order). x.order_no) p) ∙ n ∙ ap (λ (x : Order). x.order_no) q in
        omega (arith, ap length e))
    only o o' (inr (inl p)) (inr (inl q)) n t = p ∙ sym q
    only o o' (inr (inr m)) k n t = elim m [ ]
    only o o' (inl p) (inr (inr m)) n t = elim m [ ]
    only o o' (inr (inl p)) (inr (inr m)) n t = elim m [ ]

positive : (o : Order) → In o rows → 0 < o.id
positive o (inl p) = omega (arith, ap (λ (x : Order). x.id) p)
positive o (inr (inl p)) = omega (arith, ap (λ (x : Order). x.id) p)
positive o (inr (inr m)) = elim m [ ]

formed : is_order_no is_digit (first rows) (strip number) ≡ true
unfolding is_order_no strip
formed = refl

known : (is_anonymous (normalize_user_id (some (codes "ann"))) && is_recall slot_followup) ≡ false
unfolding is_anonymous normalize_user_id among Text-discrete strip
known = refl

decide_access-scope_example :
    (decide_access is_digit (first rows) number demo (codes "ann") slot_followup ≡ allow bought) ↔ (
      In bought rows
      × (matches (make_order_scope_filters number demo (some (codes "ann"))) bought ≡ true))
decide_access-scope_example =
    Scope.decide_access-scope is_digit (first rows) rows rows-IsDatabase number demo (codes "ann")
      slot_followup bought formed known

allowed_run :
    (authorize is_digit (first rows) demo (codes "ann") number direct_query none none none).0.order
    ≡ some bought
unfolding authorize is_order_no first matches satisfies is_anonymous normalize_user_id among
    Text-discrete strip
allowed_run = refl

authorize-IsEntitled_example :
    Authorize.IsEntitled is_digit
      (first rows)
      rows
      rows-IsDatabase
      (strip number)
      demo
      (normalize_user_id (some (codes "ann")))
      bought
authorize-IsEntitled_example =
    Authorize.authorize-IsEntitled is_digit (first rows) rows rows-IsDatabase demo (codes "ann")
      number direct_query none none none bought allowed_run

ensure_access-authorize_example :
    ensure_access is_digit (first rows) demo (codes "bob") number direct_query none none none
    ≡ elim (authorize is_digit
        (first rows)
        demo
        (codes "bob")
        number
        direct_query
        none
        none
        none).0.order [ none ↦ value_error (user_visible_deny number) | some o ↦ returned o ]
ensure_access-authorize_example =
    Authorize.ensure_access-authorize is_digit (first rows) rows rows-IsDatabase demo (codes "bob")
      number direct_query none none none

refused_run :
    decide_access is_digit (first rows) number (codes "acme") (codes "bob") direct_query
    ≡ deny cross_tenant
unfolding decide_access decide_row is_order_no first matches satisfies is_anonymous
    normalize_user_id among Text-discrete strip
refused_run = refl

decide_access-Explains_example :
    Authorize.Explains is_digit
      (first rows)
      rows
      rows-IsDatabase
      (strip number)
      (codes "acme")
      (normalize_user_id (some (codes "bob")))
      cross_tenant
decide_access-Explains_example =
    Authorize.decide_access-Explains is_digit (first rows) rows rows-IsDatabase number
      (codes "acme") (codes "bob") direct_query cross_tenant positive refused_run
