-- ===== src/SessionLock/Exclusion.antt =====
-- The lock that workers share, app/session_cache.py, under any interleaving of their steps.
use customer_service.Prelude.{
  ℕ, ◌+◌, ◌≤◌, ◌<◌, ◌≡◌, ◌≢◌, refl, sym, ap, ◌∙◌, true, false, none, some, Option-cases, arith,
  lt→ltb, [], ◌∷◌, ◌++◌, if_pos, if_neg, inl, inr, drop,
}
use mathlib.Core.Option.{some-injective, none-ne-some}
use customer_service.Prelude.Text.{Text, Text-discrete}
use customer_service.Prelude.Dict.{Dict, get, put, pop, get-put, get-pop}
use customer_service.SessionLock.{ExpiringKeys, lock_key, try_shared, unlock_lua, release_shared}

-- a turn that runs, under its lock's token: its conversation, and the moment it got the lock
pub record Turn : Type 0 where
  pub thread_id : Text
  pub since : ℕ

drop_end : Text → Text
drop_end [] = []
drop_end (c ∷ []) = []
drop_end (c ∷ (d ∷ s)) = c ∷ drop_end (d ∷ s)

drop_end-append : (s : Text) (c : ℕ) → drop_end (s ++ c ∷ []) ≡ s
unfolding drop_end
drop_end-append [] c = refl
drop_end-append (d ∷ []) c = refl
drop_end-append (d ∷ (e ∷ s)) c = ap (◌∷◌ d) (drop_end-append (e ∷ s) c)

lock_key_injective : (t u : Text) → lock_key t ≡ lock_key u → t ≡ u
unfolding lock_key
lock_key_injective t u e =
    sym (drop_end-append t 125) ∙ ap (λ s. drop_end (drop 17 s)) e ∙ drop_end-append u 125

module _ (redis : ExpiringKeys) (px : ℕ) where
  open redis use {Server, find, set_nx_px, find_earlier, set_free, set_taken, del, find-del}

  -- the server, the clock and the turns that run, whichever worker they run on
  pub record World : Type 0 where
    pub server : Server
    pub now : ℕ
    pub turns : Dict Text Turn

  abbrev pub entered : World → Text → Text → World
  entered w thread_id k = record w {
    server = (try_shared redis thread_id k px w.now w.server).1;
    turns = put Text-discrete k (record { thread_id = thread_id; since = w.now }) w.turns;
  }

  abbrev refused : World → Text → Text → World
  refused w thread_id k = record w { server = (try_shared redis thread_id k px w.now w.server).1 }

  abbrev left : World → Text → Turn → World
  left w k turn = record w {
    server = release_shared redis turn.thread_id k w.now w.server;
    turns = pop Text-discrete k w.turns;
  }

  -- One step of some worker: a try with a new token that succeeds or fails, the end of a turn, or the
  -- clock.
  pub data Step (w : World) : World → Type 0 where
    enters :
        (thread_id k : Text)
        → get Text-discrete k w.turns ≡ none
        → (try_shared redis thread_id k px w.now w.server).0 ≡ true
        → Step w (entered w thread_id k)
    waits :
        (thread_id k : Text)
        → (try_shared redis thread_id k px w.now w.server).0 ≡ false
        → Step w (refused w thread_id k)
    leaves :
        (k : Text) (turn : Turn) → get Text-discrete k w.turns ≡ some turn → Step w (left w k turn)
    ticks : (later : ℕ) → w.now ≤ later → Step w (record w { now = later })

  pub data Reach (s : Server) : World → Type 0 where
    here : (now : ℕ) → Reach s (record { server = s; now = now; turns = [] })
    next : {w w' : World} → Reach s w → Step w w' → Reach s w'

  -- every turn has its lock for as long as the lease runs
  abbrev IsLocked : World → Type 0
  IsLocked w =
      (k : Text) (turn : Turn)
      → get Text-discrete k w.turns ≡ some turn
      → (t : ℕ) → w.now ≤ t
      → t < turn.since + px
      → find (lock_key turn.thread_id) t w.server ≡ some k

  -- a try leaves what others hold, and takes only what is free
  enters-IsLocked :
      (w : World) (thread_id k : Text)
      → (try_shared redis thread_id k px w.now w.server).0 ≡ true
      → IsLocked w
      → IsLocked (entered w thread_id k)
  unfolding try_shared
  enters-IsLocked w thread_id k ok inv k' turn mine t later lease =
      elim (Option-cases (find (lock_key thread_id) w.now w.server)) [
        | inl free ↦
            let (_, law) = set_free (lock_key thread_id) k px w.now w.server free in
            law (lock_key turn.thread_id) t later ∙ elim (Text-discrete k k') [
              | yes p ↦
                  let this : record { thread_id = thread_id; since = w.now } ≡ turn =
                    some-injective _ _ (
                      sym (if_pos (Text-discrete k k') p _ _)
                      ∙ sym (get-put Text-discrete k k' _ w.turns)
                      ∙ mine) in
                  let began : w.now ≡ turn.since = ap (λ (x : Turn). x.since) this in
                  if_pos (Text-discrete (lock_key thread_id) (lock_key turn.thread_id))
                    (ap (λ (x : Turn). lock_key x.thread_id) this) _ _
                  ∙ rw (lt→ltb t (w.now + px) (omega (arith, began, lease))) (ap some p)
              | no p ↦
                  let mine' : get Text-discrete k' w.turns ≡ some turn =
                    sym (if_neg (Text-discrete k k') p _ _)
                    ∙ sym (get-put Text-discrete k k' _ w.turns)
                    ∙ mine in
                  elim (Text-discrete (lock_key thread_id) (lock_key turn.thread_id)) [
                    | yes q ↦ absurd (
                        none-ne-some _ (
                          sym free
                          ∙ ap (λ x. find x w.now w.server) q
                          ∙ inv k' turn mine' w.now (omega arith) (omega arith)))
                    | no q ↦
                        if_neg (Text-discrete (lock_key thread_id) (lock_key turn.thread_id)) q _ _
                        ∙ inv k' turn mine' t later lease
                  ]
            ]
        | inr (v, held) ↦
            absurd (ground (arith, ok, set_taken (lock_key thread_id) k v px w.now w.server held))
      ]

  waits-IsLocked :
      (w : World) (thread_id k : Text)
      → (try_shared redis thread_id k px w.now w.server).0 ≡ false
      → IsLocked w
      → IsLocked (refused w thread_id k)
  unfolding try_shared
  waits-IsLocked w thread_id k failed inv =
      elim (Option-cases (find (lock_key thread_id) w.now w.server)) [
        | inl free ↦
            absurd
              (ground (arith, failed, (set_free (lock_key thread_id) k px w.now w.server free).0))
        | inr (v, held) ↦ rw (set_taken (lock_key thread_id) k v px w.now w.server held) inv
      ]

  -- the script deletes no key whose value is another's
  unlock_lua-keeps :
      (key other k j : Text) (now t : ℕ) (s : Server)
      → k ≢ j
      → find other now s ≡ some j
      → find other t s ≡ some j
      → find other t (unlock_lua redis key k now s) ≡ some j
  unfolding unlock_lua
  unlock_lua-keeps key other k j now t s p at_now at_t = elim (Option-cases (find key now s)) [
    | inl e ↦ rw (unlock_lua, e) at_t
    | inr (v, e) ↦
        rw (unlock_lua, e)
          (elim (Text-discrete v k) [
            | yes q ↦ rw (if_pos _ q) (
                find-del key s other t
                ∙ if_neg (Text-discrete key other)
                    (λ r.
                      p (sym q ∙ some-injective _ _ (sym e ∙ ap (λ x. find x now s) r ∙ at_now)))
                    _ _
                ∙ at_t)
            | no q ↦ rw (if_neg _ q) at_t
          ])
  ]

  leaves-IsLocked :
      (w : World) (k : Text) (turn : Turn)
      → get Text-discrete k w.turns ≡ some turn
      → IsLocked w
      → IsLocked (left w k turn)
  unfolding release_shared
  leaves-IsLocked w k turn mine inv k' other theirs t later lease = elim (Text-discrete k k') [
    | yes p ↦ absurd (
        none-ne-some _ (
          sym (if_pos (Text-discrete k k') p _ _)
          ∙ sym (get-pop Text-discrete k k' w.turns)
          ∙ theirs))
    | no p ↦
        let theirs' : get Text-discrete k' w.turns ≡ some other =
          sym (if_neg (Text-discrete k k') p _ _)
          ∙ sym (get-pop Text-discrete k k' w.turns)
          ∙ theirs in
        unlock_lua-keeps (lock_key turn.thread_id) (lock_key other.thread_id) k k' w.now t w.server
          p (inv k' other theirs' w.now (omega arith) (omega arith))
          (inv k' other theirs' t later lease)
  ]

  Step-IsLocked : (w w' : World) → Step w w' → IsLocked w → IsLocked w'
  Step-IsLocked w _ (enters thread_id k new ok) inv = enters-IsLocked w thread_id k ok inv
  Step-IsLocked w _ (waits thread_id k failed) inv = waits-IsLocked w thread_id k failed inv
  Step-IsLocked w _ (leaves k turn mine) inv = leaves-IsLocked w k turn mine inv
  Step-IsLocked w _ (ticks later h) inv =
      λ k turn mine t b lease. inv k turn mine t (omega arith) lease

  Reach-IsLocked : (s : Server) (w : World) → Reach s w → IsLocked w
  unfolding get
  Reach-IsLocked s _ (here now) = λ k turn mine t b lease. absurd (none-ne-some _ mine)
  Reach-IsLocked s w (next {w = v} r h) = Step-IsLocked v w h (Reach-IsLocked s v r)

  -- Whatever the workers do, in any order: two turns that run on one conversation, both within the
  -- time of their lease, are the same turn.
  pub Reach-IsExclusive :
      (s : Server) (w : World)
      → Reach s w
      → (k j : Text) (mine theirs : Turn) → get Text-discrete k w.turns ≡ some mine
      → get Text-discrete j w.turns ≡ some theirs
      → mine.thread_id ≡ theirs.thread_id
      → w.now < mine.since + px
      → w.now < theirs.since + px
      → k ≡ j
  Reach-IsExclusive s w r k j mine theirs a b e before before' = some-injective k j (
      sym (Reach-IsLocked s w r k mine a w.now (omega arith) before)
      ∙ ap (λ x. find (lock_key x) w.now w.server) e
      ∙ Reach-IsLocked s w r j theirs b w.now (omega arith) before')
