-- ===== src/OrderAccess/Scope.antt =====
-- The decision of app/security/order_access.py against the filters that the same file makes for
-- queries.
use customer_service.Prelude.{
  ℕ, ◌≡◌, ◌≢◌, refl, sym, ap, ◌∙◌, ◌↔◌, Bool, true, false, ◌&&◌, not, Option, none, some, arith,
  Option-cases, inl, inr, List, [], ◌∷◌, In,
}
use customer_service.Prelude.Text.{
  Text, codes, strip, strip-strip, or_else, same, text_of, has_text,
}
use customer_service.Prelude.Dict.{among}
use customer_service.OrderAccess.{
  Order, AccessContext, is_recall, normalize_user_id, is_anonymous, is_persistent_user, order_no_is,
  tenant_is, satisfies, matches, make_order_scope_filters, allow, is_order_no, decide_row,
  decide_access,
}

-- A table of orders and the query that gives one of its rows: the row meets the condition, there is
-- one whenever some row does, and no tenant has two orders of the same number.
pub record IsDatabase (rows : List Order) (scalar : (Order → Bool) → Option Order) : Type 0 where
  pub sound : (p : Order → Bool) (o : Order) → scalar p ≡ some o → In o rows × (p o ≡ true)
  pub complete : (p : Order → Bool) (o : Order) → In o rows → p o ≡ true → scalar p ≢ none
  pub unique :
      (o o' : Order)
      → In o rows
      → In o' rows
      → o.order_no ≡ o'.order_no
      → o.tenant_id ≡ o'.tenant_id
      → o ≡ o'

strip-normalized :
    (t : Text)
    → strip (or_else (strip t) (codes "anonymous")) ≡ or_else (strip t) (codes "anonymous")
strip-normalized t = fits (strip t) (strip-strip t)
  where
    fits :
        (s : Text)
        → strip s ≡ s
        → strip (or_else s (codes "anonymous")) ≡ or_else s (codes "anonymous")
    fits [] e = unfold strip in refl
    fits (c ∷ s) e = e

pub has_text-normalized : (t : Text) → has_text (or_else (strip t) (codes "anonymous")) ≡ true
has_text-normalized t = fits (strip t)
  where
    fits : (s : Text) → has_text (or_else s (codes "anonymous")) ≡ true
    fits [] = refl
    fits (c ∷ s) = refl

pub normalize_user_id-normalize_user_id :
    (u : Option Text) → normalize_user_id (some (normalize_user_id u)) ≡ normalize_user_id u
unfolding normalize_user_id
normalize_user_id-normalize_user_id u =
    ap (λ s. or_else s (codes "anonymous")) (strip-normalized (text_of u))
    ∙ kept (strip (text_of u))
  where
    kept :
        (s : Text)
        → or_else (or_else s (codes "anonymous")) (codes "anonymous")
          ≡ or_else s (codes "anonymous")
    kept [] = refl
    kept (c ∷ s) = refl

-- on a normalised user the two tests for an anonymous one agree
pub persistent-anonymous :
    (u : Option Text)
    → is_persistent_user (some (normalize_user_id u)) ≡ not (is_anonymous (normalize_user_id u))
unfolding normalize_user_id is_persistent_user is_anonymous among
persistent-anonymous u =
    rw (strip-normalized (text_of u), has_text-normalized (text_of u)) (ground arith)

pub same→≡ : (a b : Text) → same a b ≡ true → a ≡ b
same→≡ a b h = ground arith

pub ≡→same : (a b : Text) → a ≡ b → same a b ≡ true
≡→same a b h = ground arith

module _ (is_digit : ℕ → Bool) (scalar : (Order → Bool) → Option Order) (rows : List Order)
    (db : IsDatabase rows scalar) where
  pub matches-base :
      (number tenant_id : Text) (o : Order)
      → matches (order_no_is number ∷ tenant_is tenant_id ∷ []) o ≡ true
      → (o.order_no ≡ number) × (o.tenant_id ≡ tenant_id)
  unfolding matches satisfies
  matches-base number tenant_id o h =
      (same→≡ o.order_no number (ground arith), same→≡ o.tenant_id tenant_id (ground arith))

  -- the filters, one by one
  matches-scope :
      (order_no tenant_id : Text) (u : Option Text) (o : Order)
      → matches (make_order_scope_filters order_no tenant_id u) o ≡ (
          matches (order_no_is (strip order_no) ∷ tenant_is tenant_id ∷ []) o
          && not (
              not (is_anonymous (normalize_user_id u))
              && not (same o.user_id (normalize_user_id u))))
  unfolding matches satisfies make_order_scope_filters
  matches-scope order_no tenant_id u o = rw (persistent-anonymous u) (ground arith)

  -- the row that the query gives is the only one that meets the conditions
  found-only :
      (number tenant_id : Text) (o o' : Order)
      → scalar (matches (order_no_is number ∷ tenant_is tenant_id ∷ [])) ≡ some o'
      → In o rows
      → matches (order_no_is number ∷ tenant_is tenant_id ∷ []) o ≡ true
      → o' ≡ o
  found-only number tenant_id o o' e mem m =
      let (mem', m') = db.sound (matches (order_no_is number ∷ tenant_is tenant_id ∷ [])) o' e in
      let (a, b) = matches-base number tenant_id o m in
      let (a', b') = matches-base number tenant_id o' m' in
      db.unique o' o mem' mem (a' ∙ sym a) (b' ∙ sym b)

  abbrev kept : Text → Order → Bool
  kept uid o = not (not (is_anonymous uid) && not (same o.user_id uid))

  found-allow :
      (number uid : Text) (o : Order)
      → (decide_row is_digit scalar number uid (some o) ≡ allow o) ↔ (kept uid o ≡ true)
  unfolding decide_row
  found-allow number uid o = (λ h. ground arith, λ h. ground arith)

  found-only_allow :
      (number uid : Text) (o o' : Order)
      → decide_row is_digit scalar number uid (some o') ≡ allow o
      → o' ≡ o
  unfolding decide_row
  found-only_allow number uid o o' h = ground arith

  decide_row-scope :
      (order_no tenant_id user_id : Text) (o : Order)
      → (decide_row is_digit scalar
            (strip order_no)
            (normalize_user_id (some user_id))
            (scalar (matches (order_no_is (strip order_no) ∷ tenant_is tenant_id ∷ [])))
          ≡ allow o)
        ↔ (In o rows
            × (matches (make_order_scope_filters order_no tenant_id (some user_id)) o ≡ true))
  decide_row-scope order_no tenant_id user_id o =
      let base = matches (order_no_is (strip order_no) ∷ tenant_is tenant_id ∷ []) in
      let uid = normalize_user_id (some user_id) in
      let split = matches-scope order_no tenant_id (some user_id) o in
      elim (Option-cases (scalar base)) [
        | inl e ↦ rw e (
          λ h. (unfold decide_row in cc),
          λ (mem, m). absurd (db.complete base o mem (let k = split in ground arith) e),
        )
        | inr (o', e) ↦ rw e (
          λ h.
              let p : o' ≡ o = found-only_allow (strip order_no) uid o o' h in
              let m : kept uid o ≡ true =
                (found-allow (strip order_no) uid o).0 (
                  ap (λ x. decide_row is_digit scalar (strip order_no) uid (some x)) (sym p) ∙ h) in
              let (mem', b) = db.sound base o' e in
              (rw p at mem', split ∙ ap (λ c. c && kept uid o) (rw p at b) ∙ m),
          λ (mem, m).
              let k : (base o && kept uid o) ≡ true = sym split ∙ m in
              let p : o' ≡ o = found-only (strip order_no) tenant_id o o' e mem (ground arith) in
              let q : kept uid o ≡ true = ground arith in
              ap (λ x. decide_row is_digit scalar (strip order_no) uid (some x)) p
              ∙ (found-allow (strip order_no) uid o).1 q,
        )
      ]

  -- For a well-formed number, and unless an anonymous user asks from memory, the decision allows an
  -- order exactly if it is a row of the table that meets the filters for queries: the two places
  -- that state the rule agree. The database gives a row that meets a condition whenever there is
  -- one, and no tenant has two orders of the same number.
  pub decide_access-scope :
      (order_no tenant_id user_id : Text) (context : AccessContext) (o : Order)
      → is_order_no is_digit scalar (strip order_no) ≡ true
      → (is_anonymous (normalize_user_id (some user_id)) && is_recall context) ≡ false
      → (decide_access is_digit scalar order_no tenant_id user_id context ≡ allow o) ↔ (
          In o rows
          × (matches (make_order_scope_filters order_no tenant_id (some user_id)) o ≡ true))
  unfolding decide_access
  decide_access-scope order_no tenant_id user_id context o formed known =
      rw (formed, known) (decide_row-scope order_no tenant_id user_id o)
