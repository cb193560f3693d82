-- ===== src/LlmGateway/Stores/Quota.antt =====
-- The token accounts of app/llm_gateway/stores.py against the list of what was added to them.
use customer_service.Prelude.{
  ℕ, ◌+◌, ◌≡◌, ◌==◌, refl, sym, ap, ◌∙◌, arith, ite, if◌then◌else◌, List, [], ◌∷◌,
}
use mathlib.Core.List.{foldl}
use customer_service.Prelude.Text.{Text}
use customer_service.Prelude.Dict.{get-put}
use customer_service.LlmGateway.Stores.{
  Store, Account, Account-discrete, Row, new_row, TokenUsage, normalized, row, write, row_of,
  add_to_row, add_usage, get_quota, add_cache_hit,
}

-- a call of the store that accounts something
pub data Event : Type 0 where
  usage : Account → TokenUsage → Event
  cache_hit : Account → Event
  look : Account → Event

unfoldable pub apply : Event → Store → Store
apply (usage (t, d) u) s = (add_usage t u d s).1
apply (cache_hit (t, d)) s = add_cache_hit t d s
apply (look (t, d)) s = (get_quota t d s).1

unfoldable pub run : List Event → Store → Store
run [] s = s
run (e ∷ es) s = run es (apply e s)

-- what an event adds to the row of one account
unfoldable pub accounted : Account → Row → Event → Row
accounted k r (usage a u) = ite (Account-discrete a k) (add_to_row (normalized u) r) r
accounted k r (cache_hit a) =
    ite (Account-discrete a k) (record r { cache_hits = r.cache_hits + 1 }) r
accounted k r (look a) = r

row-row_of : (a : Account) (s : Store) → (row a s).0 ≡ row_of a s
unfolding row
row-row_of a s = ground arith

row_of-row : (k a : Account) (s : Store) → row_of k (row a s).1 ≡ row_of k s
unfolding row
row_of-row k a s = ground (arith, get-put Account-discrete a k new_row s.quota)

row_of-write :
    (k a : Account) (r : Row) (s : Store)
    → row_of k (write a r s) ≡ ite (Account-discrete a k) r (row_of k s)
unfolding row_of
row_of-write k a r s = ground (arith, get-put Account-discrete a k r s.quota)

-- a method that changes one row and leaves the rest
row_of-update :
    (k a : Account) (f : Row → Row) (s : Store)
    → row_of k (write a (f (row a s).0) (row a s).1)
      ≡ ite (Account-discrete a k) (f (row_of k s)) (row_of k s)
row_of-update k a f s = rw (row_of-write, row-row_of, row_of-row) (ground arith)

pub row_of-add_usage :
    (k : Account) (t d : Text) (u : TokenUsage) (s : Store)
    → row_of k (add_usage t u d s).1
      ≡ ite (Account-discrete (t, d) k) (add_to_row (normalized u) (row_of k s)) (row_of k s)
unfolding add_usage
row_of-add_usage k t d u s = row_of-update k (t, d) (add_to_row (normalized u)) s

pub row_of-add_cache_hit :
    (k : Account) (t d : Text) (s : Store)
    → row_of k (add_cache_hit t d s)
      ≡ ite
          (Account-discrete (t, d) k)
          (record (row_of k s) { cache_hits = (row_of k s).cache_hits + 1 })
          (row_of k s)
unfolding add_cache_hit
row_of-add_cache_hit k t d s =
    row_of-update k (t, d) (λ r. record r { cache_hits = r.cache_hits + 1 }) s

pub row_of-get_quota :
    (k : Account) (t d : Text) (s : Store) → row_of k (get_quota t d s).1 ≡ row_of k s
unfolding get_quota
row_of-get_quota k t d s = row_of-row k (t, d) s

pub cache-get_quota : (t d : Text) (s : Store) → (get_quota t d s).1.cache ≡ s.cache
unfolding get_quota
cache-get_quota t d s = ground arith

pub get_quota-row_of : (t d : Text) (s : Store) → (get_quota t d s).0.row ≡ row_of (t, d) s
unfolding get_quota
get_quota-row_of t d s = row-row_of (t, d) s

row_of-apply :
    (k : Account) (e : Event) (s : Store) → row_of k (apply e s) ≡ accounted k (row_of k s) e
unfolding apply accounted
row_of-apply k (usage (t, d) u) s = row_of-add_usage k t d u s
row_of-apply k (cache_hit (t, d)) s = row_of-add_cache_hit k t d s
row_of-apply k (look (t, d)) s = row_of-get_quota k t d s

get_quota-run_fold :
    (t d : Text) (es : List Event) (s : Store)
    → (get_quota t d (run es s)).0
      ≡ record { tenant_id = t; day = d; row = foldl (accounted (t, d)) (row_of (t, d) s) es }
unfolding run get_quota
get_quota-run_fold t d [] s = rw row-row_of
get_quota-run_fold t d (e ∷ es) s = rw (← row_of-apply) (get_quota-run_fold t d es (apply e s))

-- what a count of the usages of one account adds up to, and its cache hits
unfoldable pub sum_of : Account → (TokenUsage → ℕ) → List Event → ℕ
sum_of k count [] = 0
sum_of k count (usage a u ∷ es) = ite (Account-discrete a k) (count u) 0 + sum_of k count es
sum_of k count (cache_hit a ∷ es) = sum_of k count es
sum_of k count (look a ∷ es) = sum_of k count es

unfoldable pub hits_of : Account → List Event → ℕ
hits_of k [] = 0
hits_of k (usage a u ∷ es) = hits_of k es
hits_of k (cache_hit a ∷ es) = ite (Account-discrete a k) 1 0 + hits_of k es
hits_of k (look a ∷ es) = hits_of k es

-- a call that reports no total is worth its prompt and its completion
abbrev pub worth : TokenUsage → ℕ
worth u = if u.total_tokens == 0 then u.prompt_tokens + u.completion_tokens else u.total_tokens

-- a row, and all that is reported to an account behind it
abbrev pub summed : Account → List Event → Row → Row
summed k es r = record {
  prompt_tokens = r.prompt_tokens + sum_of k (λ u. u.prompt_tokens) es;
  completion_tokens = r.completion_tokens + sum_of k (λ u. u.completion_tokens) es;
  total_tokens = r.total_tokens + sum_of k worth es;
  requests = r.requests + sum_of k (λ _. 1) es;
  cache_hits = r.cache_hits + hits_of k es;
}

-- rows with the same five numbers are equal
Row-ext :
    (r q : Row)
    → r.prompt_tokens ≡ q.prompt_tokens
    → r.completion_tokens ≡ q.completion_tokens
    → r.total_tokens ≡ q.total_tokens
    → r.requests ≡ q.requests
    → r.cache_hits ≡ q.cache_hits
    → r ≡ q
Row-ext r q a b c d e i = record {
  prompt_tokens = a i;
  completion_tokens = b i;
  total_tokens = c i;
  requests = d i;
  cache_hits = e i;
}

summed-accounted :
    (k : Account) (e : Event) (es : List Event) (r : Row)
    → summed k es (accounted k r e) ≡ summed k (e ∷ es) r
unfolding accounted sum_of hits_of normalized
summed-accounted k (usage a u) es r =
    Row-ext _ _ (ground arith) (ground arith) (ground arith) (ground arith) (ground arith)
summed-accounted k (cache_hit a) es r =
    Row-ext _ _ (ground arith) (ground arith) (ground arith) (ground arith) (ground arith)
summed-accounted k (look a) es r = refl

foldl-accounted :
    (k : Account) (es : List Event) (r : Row) → foldl (accounted k) r es ≡ summed k es r
unfolding sum_of hits_of
foldl-accounted k [] r =
    Row-ext _ _ (omega arith) (omega arith) (omega arith) (omega arith) (omega arith)
foldl-accounted k (e ∷ es) r = foldl-accounted k es (accounted k r e) ∙ summed-accounted k e es r

-- After any calls, in any order and for any tenants and days, each number in the snapshot of an
-- account is what its row had before them plus the sum of what the calls added to that very account:
-- the prompt and the completion tokens reported, as total the reported one, or both of these together
-- where none is reported, one request per usage, and the cache hits. Nothing is lost, and nothing
-- that another tenant or another day did is in it.
pub get_quota-run :
    (t d : Text) (es : List Event) (s : Store)
    → (get_quota t d (run es s)).0
      ≡ record { tenant_id = t; day = d; row = summed (t, d) es (row_of (t, d) s) }
get_quota-run t d es s =
    get_quota-run_fold t d es s
    ∙ ap (λ r. record { tenant_id = t; day = d; row = r })
        (foldl-accounted (t, d) es (row_of (t, d) s))

-- The snapshot that `add_usage` returns is the one that `get_quota` reads next.
pub add_usage-get_quota :
    (t d : Text) (u : TokenUsage) (s : Store)
    → (add_usage t u d s).0 ≡ (get_quota t d (add_usage t u d s).1).0
unfolding add_usage get_quota
add_usage-get_quota t d u s =
    let a : Account = (t, d) in
    let r : Row = add_to_row (normalized u) (row a s).0 in
    let e : (row a (write a r (row a s).1)).0 ≡ r =
      row-row_of a (write a r (row a s).1) ∙ row_of-write a a r (row a s).1 ∙ ground arith in
    λ i. record { tenant_id = t; day = d; row = sym e i }
