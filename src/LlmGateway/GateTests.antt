-- ===== src/LlmGateway/GateTests.antt =====
-- The gate and its stores on small inputs, and their theorems at inputs that meet their hypotheses.
use customer_service.Prelude.{
  ℕ, ◌+◌, ◌≤◌, ◌≡◌, refl, ap, true, false, none, some, arith, List, [], ◌∷◌, length, inl, inr,
}
use customer_service.Prelude.Dict.{get, put}
use customer_service.Prelude.Text.{Text, codes, Text-discrete}
use customer_service.LlmGateway.Circuit.{start, guard, record_success}
use customer_service.LlmGateway.Calls.{
  Outcome, returns, raises, quota_exceeded, retry_call, call_with_circuit,
}
use customer_service.LlmGateway.Stores.{
  empty, TokenUsage, normalized, Account-discrete, row_of, get_quota, add_usage, add_cache_hit,
  get_cache, set_cache,
}
use customer_service.LlmGateway.Stores.Quota
use customer_service.LlmGateway.Stores.Quota.{Event, run, sum_of, hits_of}
use customer_service.LlmGateway.Usage.{record_turn_step, usage_of_call}
use customer_service.LlmGateway.Gate.{
  Settings, CallPolicy, Request, Times, Answers, Shared, Gated, gated, assert_quota, read_cache,
  write_cache, cache_key,
}
use customer_service.LlmGateway.Gate.Laws
use customer_service.LlmGateway.Gate.Remember
use customer_service.LlmGateway.Gate.Remember.{Call, gated_all}

abbrev acme : Text
acme = codes "acme"

abbrev demo : Text
demo = codes "demo"

abbrev today : Text
today = codes "2026-01-01"

abbrev seven : TokenUsage
seven = record { prompt_tokens = 5; completion_tokens = 2; total_tokens = 0; cached = false }

abbrev events : List Event
events =
    Event.usage (acme, today) seven
    ∷ Event.usage (demo, today) seven
    ∷ Event.cache_hit (acme, today)
    ∷ []

get_quota-run_example : (get_quota acme today (run events empty)).0 ≡ record {
  tenant_id = acme;
  day = today;
  row = record {
    prompt_tokens = 5;
    completion_tokens = 2;
    total_tokens = 7;
    requests = 1;
    cache_hits = 1;
  };
}
unfolding row_of get Account-discrete Text-discrete sum_of hits_of
get_quota-run_example = Quota.get_quota-run acme today events empty

-- answers are texts, kept as they are, and an upstream model that always gives the same one
abbrev plain : Answers Text
plain = record {
  text = λ r. r;
  message = λ r. none;
  encode = λ r. some r;
  decode = λ b. some b;
  count_tokens = length;
}

abbrev settings : Settings
settings = record {
  llm_cache_enabled = true;
  llm_daily_token_limit = 20;
  llm_max_retries = 2;
  llm_cache_max_chars = 100;
  llm_cache_ttl_seconds = 60;
  circuit = record { threshold = 5; cooldown = 30 };
}

abbrev policy : CallPolicy
policy = record { usage_tag = codes "router"; cache_enabled = true; enforce_quota = true }

abbrev request : Request
request = record { tenant = acme; day = today; payload = codes "hello"; fingerprint = codes "ab12" }

abbrev at : ℕ → Times
at t = record { lookup = t; begin = t; end = t + 1; write = t + 1 }

abbrev greet : ℕ → Outcome Text
greet n = returns (codes "hi")

abbrev quiet : Shared
quiet = record { store = empty; circuit = start; turn = some [] }

abbrev after_one : Shared
after_one = (gated plain settings policy request (at 0) greet quiet).1

first_call :
    (gated plain settings policy request (at 0) greet quiet).0
    ≡ record { outcome = returns (codes "hi"); calls = 1 }
unfolding gated retry_call call_with_circuit guard record_success usage_of_call normalized get
    Account-discrete Text-discrete put row_of assert_quota get_quota get_cache read_cache
    write_cache set_cache add_usage record_turn_step
first_call = refl

-- another tenant's call, and one with the same request
abbrev between : List (Call Text)
between =
    record {
      policy = policy;
      request = record request { tenant = demo };
      times = at 10;
      upstream = λ n. returns (codes "hello");
    }
    ∷ record { policy = policy; request = request; times = at 20; upstream = greet }
    ∷ []

abbrev after_between : Shared
after_between = gated_all plain settings between after_one

later_admitted : (assert_quota settings policy request after_between.store).0 ≡ true
unfolding gated gated_all retry_call call_with_circuit guard record_success usage_of_call normalized
    get Account-discrete Text-discrete put row_of assert_quota get_quota get_cache read_cache
    write_cache set_cache add_usage add_cache_hit record_turn_step
later_admitted = refl

gated-total_example :
    Laws.total plain settings policy request (at 0) after_one
    ≡ Laws.total plain settings policy request (at 0) quiet
      + Laws.charge plain settings policy request
          (at 0)
          (gated plain settings policy request (at 0) greet quiet).0
gated-total_example = Laws.gated-total plain settings policy request (at 0) greet quiet

other_key : cache_key (record request { tenant = demo }) ≡ cache_key request → ⊥
other_key e = ground (arith, ap first_of e)
  where
    first_of : Text → ℕ
    first_of [] = 0
    first_of (c ∷ t) = c

gated-gated_example :
    (gated plain settings policy request (at 50) (λ n. returns (codes "other")) after_between).0
    ≡ record { outcome = returns (codes "hi"); calls = 0 }
gated-gated_example =
    Remember.gated-gated plain settings policy request (codes "hi") 104 (codes "i") refl refl
      (refl, refl) (omega arith) (at 0) (at 50) greet (λ n. returns (codes "other")) between quiet
      (ap (λ (g : Gated Text). g.outcome) first_call) (rw first_call (omega arith))
      (inl other_key, (inr (refl, refl), tt)) refl later_admitted

abbrev spent : TokenUsage
spent = record { prompt_tokens = 15; completion_tokens = 10; total_tokens = 25; cached = false }

abbrev over : Shared
over = record quiet { store = (add_usage acme spent today empty).1 }

over_limit : 20 ≤ Laws.total plain settings policy request (at 0) over
unfolding add_usage row_of normalized get Account-discrete Text-discrete put
over_limit = omega arith

gated_over_quota_example :
    ((gated plain settings policy request (at 0) greet over).0
      ≡ record { outcome = raises quota_exceeded; calls = 0 })
    × ((gated plain settings policy request (at 0) greet over).1.circuit ≡ start)
    × ((gated plain settings policy request (at 0) greet over).1.turn ≡ some [])
    × ((gated plain settings policy request (at 0) greet over).1.store.cache ≡ over.store.cache)
    × Laws.SameRows over.store (gated plain settings policy request (at 0) greet over).1.store
gated_over_quota_example =
    Laws.gated_over_quota plain settings policy request (at 0) greet over refl (omega arith)
      over_limit
