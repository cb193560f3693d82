-- ===== src/ToolCache/Tests.antt =====
-- Small runs of app/tool_cache.py.
use customer_service.Prelude.{ℕ, ◌≡◌, refl, ap, arith, Bool, true, Option, none, some, inr, [], ◌∷◌}
use customer_service.Prelude.Text.{Text, codes, strip, strip_left}
use customer_service.ToolCache.{Reports, redis, put_report, get_cached_order, from_session}
use customer_service.ToolCache.Orders.{get_cached_order-put, get_cached_order-put_report}

abbrev decoded : Text → Option (Text × ℕ)
decoded [] = none
decoded (c ∷ t) = some (t, c)

-- a report is its number, and its JSON text that number behind the moment
abbrev plain_reports : Reports
plain_reports = record {
  Report = Text;
  SessionSnapshot = Text;
  key_in = λ t. t;
  model_validate = λ t. some t;
  cached_at_in = λ t. 0;
  dumps = λ report now. now ∷ report;
  loads = decoded;
  dumps-filled = λ report now. refl;
  loads-dumps = λ report now. refl;
}

abbrev everyone : Text → Text → Option Text → Bool
everyone number tenant user = true

get_cached_order-put_example :
    (get_cached_order plain_reports everyone true none
      (codes "20240001")
      (codes "acme")
      (codes "ann")
      60
      (put_report plain_reports true true
        (codes "20240001")
        30
        (codes "order_query")
        (codes "acme")
        (codes "ann")
        (codes "20240001")
        50
        [])).0
    ≡ some (record { payload = codes "20240001"; cached_at = 50; source = redis })
unfolding strip strip_left from_session
get_cached_order-put_example =
    get_cached_order-put plain_reports everyone none (codes "20240001") (codes "acme") (codes "ann")
      30 50 60 (codes "20240001") [] refl refl refl (omega arith) (omega arith) (omega arith)

get_cached_order-put_report_example :
    (get_cached_order plain_reports everyone true none
      (codes "20240001")
      (codes "acme")
      (codes "ann")
      60
      (put_report plain_reports true true
        (codes "20240001")
        30
        (codes "order_query")
        (codes "acme")
        (codes "bob")
        (codes "20240001")
        50
        [])).0
    ≡ (get_cached_order plain_reports everyone true none
        (codes "20240001")
        (codes "acme")
        (codes "ann")
        60
        []).0
get_cached_order-put_report_example =
    get_cached_order-put_report plain_reports everyone true none (codes "20240001") (codes "acme")
      (codes "ann") 60 (codes "acme") (codes "bob") (codes "order_query") (codes "20240001") true 30
      50 (codes "20240001") [] (refl, (refl, (refl, (refl, tt)))) (refl, (refl, (refl, (refl, tt))))
      (refl, (refl, (refl, (refl, (refl, (refl, (refl, (refl, (refl, (refl, (refl, tt)))))))))))
      (inr (λ e. other_user e))
  where
    second : Text → ℕ
    second [] = 0
    second (c ∷ t) = c

    other_user : codes "bob" ≡ codes "ann" → ⊥
    other_user e = ground (arith, ap second e)
