-- ===== src/OrderAccess.antt =====
-- Who may see an order, app/security/order_access.py, with the users that count as anonymous
-- (app/memory.py). Python's `\d` and the query `session.scalar` of SQLAlchemy, which gives one row
-- that meets a condition, are arguments; so are the tenant and the user of the request. The entries
-- that `_record_deny` writes to the audit log are part of the result.
pub mod Scope
pub mod Authorize
pub mod Tests
use customer_service.Prelude.{
  ℕ, Bool, true, false, ◌&&◌, ◌||◌, not, Option, none, some, leb, ◌==◌, if◌then◌else◌, List, [],
  ◌∷◌, ◌++◌, length, all,
}
use customer_service.Prelude.Text.{
  Text, codes, Text-discrete, strip, or_else, same, text_of, has_text,
}
use customer_service.Prelude.Dict.{among}

-- the columns of `Order` that the decision reads; the rest is one value
pub record Order : Type 0 where
  pub id : ℕ
  pub order_no : Text
  pub tenant_id : Text
  pub user_id : Text
  pub details : Text

pub data AccessContext : Type 0 where
  direct_query slot_followup memory_recall react_binding : AccessContext

pub data OrderDenyReason : Type 0 where
  order_not_found cross_tenant not_order_owner anonymous_unbound malformed_order_no :
      OrderDenyReason

pub record OrderAccessDecision : Type 0 where
  pub allowed : Bool
  pub reason_code : Option OrderDenyReason
  pub order_id : Option ℕ
  pub order : Option Order

abbrev is_recall : AccessContext → Bool
is_recall memory_recall = true
is_recall _ = false

abbrev is_followup : AccessContext → Bool
is_followup slot_followup = true
is_followup _ = false

-- `EPHEMERAL_USERS`
abbrev pub ephemeral_users : List Text
ephemeral_users = [] ∷ codes "anonymous" ∷ codes "anon" ∷ []

-- `_normalize_user_id`
unfoldable pub normalize_user_id : Option Text → Text
normalize_user_id user_id = or_else (strip (text_of user_id)) (codes "anonymous")

-- `(uid in EPHEMERAL_USERS) or (uid == "")`
unfoldable pub is_anonymous : Text → Bool
is_anonymous uid = among Text-discrete uid ephemeral_users || same uid []

-- `is_persistent_user`
unfoldable pub is_persistent_user : Option Text → Bool
is_persistent_user user_id =
    has_text (strip (text_of user_id))
    && not (among Text-discrete (strip (text_of user_id)) ephemeral_users)

-- the conditions of a query
pub data Filter : Type 0 where
  order_no_is tenant_is user_is : Text → Filter

unfoldable pub satisfies : Order → Filter → Bool
satisfies o (order_no_is number) = same o.order_no number
satisfies o (tenant_is tenant_id) = same o.tenant_id tenant_id
satisfies o (user_is uid) = same o.user_id uid

unfoldable pub matches : List Filter → Order → Bool
unfolding satisfies
matches filters o = all (satisfies o) filters

-- `make_order_scope_filters`
unfoldable pub make_order_scope_filters : Text → Text → Option Text → List Filter
unfolding normalize_user_id is_persistent_user
make_order_scope_filters order_no tenant_id user_id =
    order_no_is (strip order_no)
    ∷ tenant_is tenant_id
    ∷ (if is_persistent_user (some (normalize_user_id user_id))
        then user_is (normalize_user_id user_id) ∷ []
        else [])

-- one line of the audit log: the reason, the raw number, the tenant, the user and the context
pub record Denial : Type 0 where
  pub order_no : Text
  pub tenant_id : Text
  pub user_id : Text
  pub context : AccessContext
  pub reason : OrderDenyReason

-- the verdict of `_decide_access`
pub data Verdict : Type 0 where
  allow : Order → Verdict
  deny : OrderDenyReason → Verdict

module _ (is_digit : ℕ → Bool) (scalar : (Order → Bool) → Option Order) where
  -- `ORDER_NO_RE.fullmatch`
  unfoldable pub is_order_no : Text → Bool
  is_order_no number = leb 8 (length number) && all is_digit number

  -- why a number was not found: the query for an id counts when the id is not 0
  unfoldable pub missing : Option Order → OrderDenyReason
  missing none = order_not_found
  missing (some other) = if other.id == 0 then order_not_found else cross_tenant

  -- the row of the tenant, if there is one
  unfoldable pub decide_row : Text → Text → Option Order → Verdict
  unfolding missing matches
  decide_row number uid none = deny (missing (scalar (matches (order_no_is number ∷ []))))
  decide_row number uid (some o) =
      if not (is_anonymous uid) && not (same o.user_id uid) then deny not_order_owner else allow o

  -- `_decide_access`
  unfoldable pub decide_access : Text → Text → Text → AccessContext → Verdict
  unfolding decide_row is_order_no
  decide_access order_no tenant_id user_id context =
      if not (is_order_no (strip order_no))
      then deny malformed_order_no
      else if is_anonymous (normalize_user_id (some user_id)) && is_recall context
      then deny anonymous_unbound
      else decide_row (strip order_no) (normalize_user_id (some user_id))
          (scalar (matches (order_no_is (strip order_no) ∷ tenant_is tenant_id ∷ [])))

  unfoldable pub decision : Verdict → OrderAccessDecision
  decision (allow o) = record {
    allowed = true;
    reason_code = none;
    order_id = some o.id;
    order = some o;
  }
  decision (deny reason) = record {
    allowed = false;
    reason_code = some reason;
    order_id = none;
    order = none;
  }

  unfoldable pub audit : Text → Text → Text → AccessContext → Verdict → List Denial
  audit order_no tid uid context (allow _) = []
  audit order_no tid uid context (deny reason) =
      record {
        order_no = order_no;
        tenant_id = tid;
        user_id = uid;
        context = context;
        reason = reason;
      }
      ∷ []

  -- a follow-up of an anonymous user that names another order than the conversation's
  unfoldable pub is_unbound : Text → Text → AccessContext → Option Text → Bool
  is_unbound order_no uid context bound =
      (is_anonymous uid && is_followup context)
      && (has_text (strip (text_of bound)) && not (same (strip order_no) (strip (text_of bound))))

  module _ (current_tenant current_user : Text) where
    -- `tenant_id or get_current_tenant()`, and the user likewise
    abbrev pub tenant_for : Option Text → Text
    tenant_for tenant_id = or_else (text_of tenant_id) current_tenant

    abbrev pub user_for : Option Text → Text
    user_for user_id =
        normalize_user_id
          (some (or_else (text_of user_id) (or_else current_user (codes "anonymous"))))

    unfoldable pub verdict :
        Text → AccessContext → Option Text → Option Text → Option Text → Verdict
    unfolding decide_access is_unbound
    verdict order_no context tenant_id user_id bound =
        if is_unbound order_no (user_for user_id) context bound
        then deny anonymous_unbound
        else decide_access order_no (tenant_for tenant_id) (user_for user_id) context

    -- `authorize`, with what it writes to the audit log
    unfoldable pub authorize :
        Text
        → AccessContext
        → Option Text
        → Option Text
        → Option Text
        → OrderAccessDecision × List Denial
    unfolding verdict decision audit
    authorize order_no context tenant_id user_id bound =
        let v = verdict order_no context tenant_id user_id bound in
        (decision v, audit order_no (tenant_for tenant_id) (user_for user_id) context v)

    -- `can_access_order`
    unfoldable pub can_access_order : Text → Text → Option Text → AccessContext → Bool
    unfolding authorize
    can_access_order order_no tenant_id user_id context =
        (authorize order_no context (some tenant_id) user_id none).0.allowed

-- what `ensure_access` does: it returns the order, or raises `ValueError(message)` or the assertion
pub data Ensured : Type 0 where
  returned : Order → Ensured
  value_error : Text → Ensured
  assertion_error : Ensured

-- `_user_visible_deny`
unfoldable pub user_visible_deny : Text → Text
user_visible_deny order_no = codes "未找到订单 " ++ order_no

ensured : Text → OrderAccessDecision → Ensured
unfolding user_visible_deny
ensured order_no d =
    if not d.allowed
    then value_error (user_visible_deny order_no)
    else elim d.order [ none ↦ assertion_error | some o ↦ returned o ]

-- `ensure_access`
unfoldable pub ensure_access :
    (ℕ → Bool)
    → ((Order → Bool) → Option Order)
    → Text
    → Text
    → Text
    → AccessContext
    → Option Text
    → Option Text
    → Option Text
    → Ensured
unfolding ensured
ensure_access is_digit scalar current_tenant current_user order_no context tenant_id user_id bound =
    ensured order_no
      (authorize is_digit scalar current_tenant current_user order_no context tenant_id user_id
        bound).0
