-- ===== src/ChatSlots/Redis/Tests.antt =====
-- A server with sorted sets as dictionaries, and a small history on both slot stores of
-- app/chat_slots.py.
use customer_service.Prelude.{
  ℕ, suc, ◌≡◌, refl, sym, ap, ◌∙◌, arith, Option, none, some, ltb, List, [], ◌∷◌, length, ite,
  if_pos, if_neg, Bool-cases, inl, inr,
}
use customer_service.Prelude.Text.{Text, codes, Text-discrete}
use customer_service.Prelude.Dict.{
  get, put, pop, map_values, get-put, get-pop, pop_absent, Distinct, put-Distinct, pop-Distinct,
}
use customer_service.ChatSlots.{Leases, empty, acquire, grant, release, purge}
use customer_service.ChatSlots.Leases.{live}
use customer_service.ChatSlots.Redis.{SortedSets, above}
use customer_service.ChatSlots.Redis.Scores.{get-live}
use customer_service.ChatSlots.Redis.Refines
use customer_service.ChatSlots.Redis.Refines.{
  Call, acquires, releases, counts, run, run_redis, IsHistory,
}

length-pop_present :
    (k : Text) (e : ℕ) (d : Leases)
    → Distinct Text-discrete d
    → get Text-discrete k d ≡ some e
    → length d ≡ suc (length (pop Text-discrete k d))
unfolding get pop
length-pop_present k e [] v h = cc
length-pop_present k e ((j, x) ∷ d) v h = elim (Text-discrete j k) [
  | yes p ↦
      rw (if_pos _ p) (ap (λ x. suc (length x)) (sym (pop_absent Text-discrete k d (rw p at v.0))))
  | no p ↦ rw (if_neg _ p) (
      let q = length-pop_present k e d v.1 (sym (if_neg (Text-discrete j k) p _ _) ∙ h) in
      omega (arith, q))
]

length-same :
    (a d : Leases)
    → Distinct Text-discrete a
    → Distinct Text-discrete d
    → ((m : Text) → get Text-discrete m a ≡ get Text-discrete m d)
    → length a ≡ length d
unfolding get
length-same [] [] va vd same = refl
length-same [] ((k, e) ∷ d) va vd same = (let s = same k in absurd (ground arith))
length-same ((k, e) ∷ a) d va vd same = omega (
  arith,
  length-same a (pop Text-discrete k d) va.1 (pop-Distinct Text-discrete k d vd) rest,
  length-pop_present k e d vd (sym (same k) ∙ if_pos (Text-discrete k k) refl _ _),
)
  where
    rest : (m : Text) → get Text-discrete m a ≡ get Text-discrete m (pop Text-discrete k d)
    rest m = elim (Text-discrete k m) [
      | yes p ↦
          (let gone : get Text-discrete m a ≡ none = rw p at va.0 in
            gone ∙ sym (get-pop Text-discrete k m d ∙ if_pos (Text-discrete k m) p _ _))
      | no p ↦
          sym (if_neg (Text-discrete k m) p _ _)
          ∙ same m
          ∙ sym (get-pop Text-discrete k m d ∙ if_neg (Text-discrete k m) p _ _)
    ]

live-Distinct :
    (now : ℕ) (d : Leases) → Distinct Text-discrete d → Distinct Text-discrete (live now d)
live-Distinct now [] v = v
live-Distinct now ((k, e) ∷ d) v = elim (Bool-cases (ltb now e)) [
  | inl h ↦ rw h (get-live now k d v.1 ∙ ap (above now) v.0, live-Distinct now d v.1)
  | inr h ↦ rw h (live-Distinct now d v.1)
]

-- leases with no token twice
record Zset : Type 0 where
  leases : Leases
  distinct : Distinct Text-discrete leases

abbrev on : Text → (Zset → Zset) → (Text → Zset) → Text → Zset
on key f s k = ite (Text-discrete key k) (f (s k)) (s k)

on-score :
    (key : Text) (f : Zset → Zset) (s : Text → Zset) (k m : Text) (x : Option ℕ)
    → get Text-discrete m (f (s k)).leases ≡ x
    → get Text-discrete m (on key f s k).leases
      ≡ ite (Text-discrete key k) x (get Text-discrete m (s k).leases)
on-score key f s k m x e = through (Text-discrete key k)
  where
    through :
        {P : Type 0} (d : Dec P)
        → get Text-discrete m (ite d (f (s k)) (s k)).leases
          ≡ ite d x (get Text-discrete m (s k).leases)
    through (yes p) = e
    through (no p) = refl

abbrev trimmed : ℕ → Zset → Zset
trimmed now z = record {
  leases = live now z.leases;
  distinct = live-Distinct now z.leases z.distinct;
}

abbrev added : ℕ → Text → Zset → Zset
added e j z = record {
  leases = put Text-discrete j e z.leases;
  distinct = put-Distinct Text-discrete j e z.leases z.distinct;
}

abbrev removed : Text → Zset → Zset
removed j z = record {
  leases = pop Text-discrete j z.leases;
  distinct = pop-Distinct Text-discrete j z.leases z.distinct;
}

abbrev server : SortedSets
server = record {
  Server = Text → Zset;
  fresh = λ k. record { leases = []; distinct = tt };
  score = λ key m s. get Text-discrete m (s key).leases;
  zremrangebyscore = λ key now s. on key (trimmed now) s;
  zadd = λ key e j s. on key (added e j) s;
  zrem = λ key j s. on key (removed j) s;
  zcard = λ key s. length (s key).leases;
  score-fresh = λ key m. (unfold get in refl);
  score-zremrangebyscore = λ key now s k m.
      on-score key (trimmed now) s k m _ (get-live now m (s k).leases (s k).distinct);
  score-zadd =
      λ key e j s k m. on-score key (added e j) s k m _ (get-put Text-discrete j m e (s k).leases);
  score-zrem =
      λ key j s k m. on-score key (removed j) s k m _ (get-pop Text-discrete j m (s k).leases);
  zcard-counts = λ key s d v same. length-same (s key).leases d (s key).distinct v same;
}

abbrev acme : Text
acme = codes "acme"

abbrev calls : List Call
calls =
    acquires acme 30 0 (codes "1")
    ∷ acquires acme 30 5 (codes "2")
    ∷ releases acme (codes "1")
    ∷ counts 6
    ∷ []

calls-IsHistory : IsHistory 3 1 0 empty calls
unfolding acquire grant release purge get Text-discrete put pop map_values
calls-IsHistory =
    (omega arith, refl, (omega arith, refl, (λ u p. ground (arith, p), (omega arith, tt))))

run-run_redis_example : run 3 1 calls empty ≡ run_redis 3 1 server calls server.fresh
run-run_redis_example = Refines.run-run_redis 3 1 server calls calls-IsHistory
