-- ===== src/OrderAccess/Authorize.antt =====
-- What `authorize` and `ensure_access` of app/security/order_access.py give away, and to whom.
use customer_service.Prelude.{
  ℕ, ◌<◌, ◌≡◌, ◌≢◌, ◌↔◌, ◌==◌, refl, ap, Bool, true, false, ◌&&◌, Option, none, some, arith,
  Option-cases, Bool-cases, inl, inr, List, [], ◌∷◌, In,
}
use customer_service.Prelude.Text.{Text, codes, strip, text_of, or_else}
use customer_service.OrderAccess.{
  Order, AccessContext, OrderAccessDecision, OrderDenyReason, order_not_found, cross_tenant,
  not_order_owner, anonymous_unbound, malformed_order_no, is_recall, normalize_user_id,
  is_anonymous, order_no_is, tenant_is, satisfies, matches, Verdict, allow, deny, missing,
  is_order_no, decide_row, decide_access, decision, audit, Denial, verdict, tenant_for, user_for,
  authorize, returned, value_error, user_visible_deny, ensured, ensure_access,
}
use customer_service.OrderAccess.Scope.{
  IsDatabase, matches-base, normalize_user_id-normalize_user_id, same→≡,
}

module _ (is_digit : ℕ → Bool) (scalar : (Order → Bool) → Option Order) (rows : List Order)
    (db : IsDatabase rows scalar) where
  -- what an order that is allowed has to meet
  abbrev pub IsEntitled : Text → Text → Text → Order → Type 0
  IsEntitled number tid uid o =
      In o rows
      × (o.order_no ≡ number)
      × (o.tenant_id ≡ tid)
      × (is_anonymous uid ≡ false → o.user_id ≡ uid)

  decide_row-IsEntitled :
      (number tid uid : Text) (o : Order)
      → decide_row is_digit scalar number uid
          (scalar (matches (order_no_is number ∷ tenant_is tid ∷ [])))
        ≡ allow o
      → IsEntitled number tid uid o
  unfolding decide_row
  decide_row-IsEntitled number tid uid o h =
      elim (Option-cases (scalar (matches (order_no_is number ∷ tenant_is tid ∷ [])))) [
        | inl e ↦ cc (rw e at h)
        | inr (o', e) ↦
            let h' = rw e at h in
            let p : o' ≡ o = ground arith in
            let (mem, m) = db.sound (matches (order_no_is number ∷ tenant_is tid ∷ [])) o' e in
            let (a, b) = matches-base is_digit scalar rows db number tid o' m in
            rw (← p) (mem, a, b, λ k. same→≡ o'.user_id uid (ground arith))
      ]

  decide_access-IsEntitled :
      (order_no tid uid : Text) (context : AccessContext) (o : Order)
      → decide_access is_digit scalar order_no tid uid context ≡ allow o
      → IsEntitled (strip order_no) tid (normalize_user_id (some uid)) o
  unfolding decide_access
  decide_access-IsEntitled order_no tid uid context o h =
      decide_row-IsEntitled (strip order_no) tid (normalize_user_id (some uid)) o (ground arith)

  module _ (tenant user order_no : Text) (context : AccessContext)
      (tenant_id user_id bound : Option Text) where
    abbrev pub authorized : OrderAccessDecision × List Denial
    authorized = authorize is_digit scalar tenant user order_no context tenant_id user_id bound

    abbrev asked_tenant : Text
    asked_tenant = tenant_for is_digit scalar tenant user tenant_id

    abbrev asked_user : Text
    asked_user = user_for is_digit scalar tenant user user_id

    abbrev said : Verdict
    said = verdict is_digit scalar tenant user order_no context tenant_id user_id bound

    verdict-allow :
        (o : Order)
        → said ≡ allow o
        → decide_access is_digit scalar order_no asked_tenant asked_user context ≡ allow o
    unfolding verdict
    verdict-allow o h = ground arith

    authorize-allow : (o : Order) → authorized.0.order ≡ some o → said ≡ allow o
    unfolding authorize decision
    authorize-allow o h = ground arith

    -- Whatever way it is asked, `authorize` hands out only an order of the table that has the number
    -- asked for, belongs to the tenant and, if the user is a known one, was placed by that user.
    pub authorize-IsEntitled :
        (o : Order)
        → authorized.0.order ≡ some o
        → IsEntitled (strip order_no) asked_tenant asked_user o
    authorize-IsEntitled o h =
        rw
          (← normalize_user_id-normalize_user_id
            (some (or_else (text_of user_id) (or_else user (codes "anonymous")))))
          (decide_access-IsEntitled order_no asked_tenant asked_user context o
            (verdict-allow o (authorize-allow o h)))

    -- `ensure_access` returns the very order that `authorize` allows, and for every refusal, whatever
    -- its reason, raises an error whose text depends on the number asked for alone; its assertion
    -- never fails.
    pub ensure_access-authorize :
        ensure_access is_digit scalar tenant user order_no context tenant_id user_id bound
        ≡ elim authorized.0.order [
          | none ↦ value_error (user_visible_deny order_no)
          | some o ↦ returned o
        ]
    unfolding ensure_access ensured authorize decision
    ensure_access-authorize = ground arith

    -- what is said and logged of a verdict
    abbrev pub IsAuditedAs : Verdict → Type 0
    IsAuditedAs (allow o) =
        (authorized.0
          ≡ record { allowed = true; reason_code = none; order_id = some o.id; order = some o })
        × (authorized.1 ≡ [])
    IsAuditedAs (deny reason) =
        (authorized.0
          ≡ record { allowed = false; reason_code = some reason; order_id = none; order = none })
        × (authorized.1
            ≡ record {
              order_no = order_no;
              tenant_id = asked_tenant;
              user_id = asked_user;
              context = context;
              reason = reason;
            }
              ∷ [])

    abbrev pub IsAudited : Type 0
    IsAudited = (v : Verdict) × (said ≡ v) × IsAuditedAs v

    -- A refusal has a reason, hands out nothing and leaves exactly one line in the audit log, with
    -- that reason, the raw number and the tenant and user that the rules used; a permission hands
    -- out the order with its id, has no reason and leaves no line.
    pub authorize-audit : IsAudited
    unfolding authorize decision audit
    authorize-audit = (said, refl, audited said refl)
      where
        audited : (v : Verdict) → said ≡ v → IsAuditedAs v
        audited (allow o) e = (
          ap (decision is_digit scalar) e,
          ap (audit is_digit scalar order_no asked_tenant asked_user context) e,
        )
        audited (deny reason) e = (
          ap (decision is_digit scalar) e,
          ap (audit is_digit scalar order_no asked_tenant asked_user context) e,
        )

  -- each reason in terms of the table
  abbrev pub Explains : Text → Text → Text → OrderDenyReason → Type 0
  Explains number tid uid order_not_found = (o : Order) → In o rows → o.order_no ≢ number
  Explains number tid uid cross_tenant =
      ((o : Order) × In o rows × (o.order_no ≡ number) × (o.tenant_id ≢ tid))
      × ((o : Order) → In o rows → o.order_no ≡ number → o.tenant_id ≢ tid)
  Explains number tid uid not_order_owner =
      (o : Order) × In o rows × (o.order_no ≡ number) × (o.tenant_id ≡ tid) × (o.user_id ≢ uid)
  Explains number tid uid _ = Unit

  matches-number :
      (number : Text) (o : Order)
      → (matches (order_no_is number ∷ []) o ≡ true) ↔ (o.order_no ≡ number)
  unfolding matches satisfies
  matches-number number o = (λ h. same→≡ o.order_no number (ground arith), λ h. ground arith)

  matches-both :
      (number tid : Text) (o : Order)
      → o.order_no ≡ number
      → o.tenant_id ≡ tid
      → matches (order_no_is number ∷ tenant_is tid ∷ []) o ≡ true
  unfolding matches satisfies
  matches-both number tid o p q = ground arith

  missing-Explains :
      (number tid uid : Text) (other : Option Order)
      → ((o : Order) → In o rows → 0 < o.id)
      → scalar (matches (order_no_is number ∷ tenant_is tid ∷ [])) ≡ none
      → scalar (matches (order_no_is number ∷ [])) ≡ other
      → Explains number tid uid (missing is_digit scalar other)
  unfolding missing
  missing-Explains number tid uid none positive e f = λ o mem p.
      db.complete (matches (order_no_is number ∷ [])) o mem ((matches-number number o).1 p) f
  missing-Explains number tid uid (some other) positive e f =
      let (mem, m) = db.sound (matches (order_no_is number ∷ [])) other f in
      let p : other.order_no ≡ number = (matches-number number other).0 m in
      let q : (other.id == 0) ≡ false = (let k = positive other mem in ground arith) in
      let elsewhere : (o : Order) → In o rows → o.order_no ≡ number → o.tenant_id ≢ tid =
        λ o mem' p' t.
          db.complete (matches (order_no_is number ∷ tenant_is tid ∷ [])) o mem'
            (matches-both number tid o p' t) e in
      rw q ((other, mem, p, elsewhere other mem p), elsewhere)

  decide_row-Explains :
      (number tid uid : Text) (reason : OrderDenyReason)
      → ((o : Order) → In o rows → 0 < o.id)
      → decide_row is_digit scalar number uid
          (scalar (matches (order_no_is number ∷ tenant_is tid ∷ [])))
        ≡ deny reason
      → Explains number tid uid reason
  unfolding decide_row
  decide_row-Explains number tid uid reason positive h =
      elim (Option-cases (scalar (matches (order_no_is number ∷ tenant_is tid ∷ [])))) [
        | inl e ↦
            let h' = rw e at h in
            let r : missing is_digit scalar (scalar (matches (order_no_is number ∷ []))) ≡ reason =
              ground arith in
            rw (← r) (
              missing-Explains number tid uid (scalar (matches (order_no_is number ∷ []))) positive
                e refl)
        | inr (o, e) ↦
            let h' = rw e at h in
            let r : not_order_owner ≡ reason = ground arith in
            let (mem, m) = db.sound (matches (order_no_is number ∷ tenant_is tid ∷ [])) o e in
            let (a, b) = matches-base is_digit scalar rows db number tid o m in
            rw (← r) (o, mem, a, b, λ k. ground arith)
      ]

  -- The reason that the audit log keeps is true: an order that is not found exists under no tenant,
  -- one of another tenant exists there and not here, and one of another owner exists here. Row ids
  -- start at 1.
  pub decide_access-Explains :
      (order_no tid user_id : Text) (context : AccessContext) (reason : OrderDenyReason)
      → ((o : Order) → In o rows → 0 < o.id)
      → decide_access is_digit scalar order_no tid user_id context ≡ deny reason
      → Explains (strip order_no) tid (normalize_user_id (some user_id)) reason
  unfolding decide_access
  decide_access-Explains order_no tid user_id context reason positive h =
      elim (Bool-cases (is_order_no is_digit scalar (strip order_no))) [
        | inr e ↦
            (let r : malformed_order_no ≡ reason = (let h' = rw e at h in ground arith) in
              rw (← r) tt)
        | inl e ↦
            elim (Bool-cases
              (is_anonymous (normalize_user_id (some user_id)) && is_recall context)) [
                | inl f ↦
                    (let r : anonymous_unbound ≡ reason =
                        (let h' = rw (e, f) at h in ground arith) in
                      rw (← r) tt)
                | inr f ↦
                    decide_row-Explains (strip order_no) tid (normalize_user_id (some user_id))
                      reason positive (rw (e, f) at h)
              ]
      ]
