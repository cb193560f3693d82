-- ===== src/SessionLock/Local.antt =====
-- The lock of one process, app/session_cache.py, under any interleaving of the tries and the ends of
-- turns, as `hold` makes them.
use customer_service.Prelude.{
  ◌≡◌, ◌≢◌, refl, sym, ap, ◌∙◌, true, false, none, some, List, [], ◌∷◌, if_pos, if_neg, ◌⊎◌, inl,
  inr, arith,
}
use mathlib.Core.Option.{some-injective, none-ne-some}
use customer_service.Prelude.Text.{Text, Text-discrete}
use customer_service.Prelude.Dict.{Dict, get, put, pop, among, get-put, get-pop}
use customer_service.SessionLock.{try_local, release_local}

-- the conversations that are held, and the turns that run: each a token and its conversation
pub record World : Type 0 where
  pub held : List Text
  pub turns : Dict Text Text

abbrev pub entered : World → Text → Text → World
entered w thread_id k = record {
  held = (try_local thread_id w.held).1;
  turns = put Text-discrete k thread_id w.turns;
}

abbrev left : World → Text → Text → World
left w thread_id k = record {
  held = release_local thread_id w.held;
  turns = pop Text-discrete k w.turns;
}

-- one step: a try that succeeds, one that fails, the end of a turn
pub data Step (w : World) : World → Type 0 where
  enters :
      (thread_id k : Text)
      → get Text-discrete k w.turns ≡ none
      → (try_local thread_id w.held).0 ≡ true
      → Step w (entered w thread_id k)
  waits :
      (thread_id : Text)
      → (try_local thread_id w.held).0 ≡ false
      → Step w (record w { held = (try_local thread_id w.held).1 })
  leaves :
      (thread_id k : Text)
      → get Text-discrete k w.turns ≡ some thread_id
      → Step w (left w thread_id k)

pub data Reach : World → Type 0 where
  here : Reach (record { held = []; turns = [] })
  next : {w w' : World} → Reach w → Step w w' → Reach w'

-- a turn that runs holds its conversation, and no other turn runs on it
pub record IsHeld (w : World) : Type 0 where
  pub backed :
      (k t : Text) → get Text-discrete k w.turns ≡ some t → among Text-discrete t w.held ≡ true
  pub alone :
      (k j t : Text)
      → get Text-discrete k w.turns ≡ some t
      → get Text-discrete j w.turns ≡ some t
      → k ≡ j

among-release :
    (t u : Text) (held : List Text)
    → u ≢ t
    → among Text-discrete t (release_local u held) ≡ among Text-discrete t held
unfolding among release_local
among-release t u [] p = refl
among-release t u (x ∷ held) p = ground (arith, p, among-release t u held p)

-- the turns behind an entry and behind an end
get-entered :
    (w : World) (thread_id k j t : Text)
    → get Text-discrete j (entered w thread_id k).turns ≡ some t
    → Dec (k ≡ j)
    → ((k ≡ j) × (thread_id ≡ t)) ⊎ (get Text-discrete j w.turns ≡ some t)
get-entered w thread_id k j t e (yes p) = inl (
  p,
  some-injective _ _
      (sym (if_pos (Text-discrete k j) p _ _) ∙ sym (get-put Text-discrete k j _ w.turns) ∙ e),
)
get-entered w thread_id k j t e (no p) =
    inr (sym (if_neg (Text-discrete k j) p _ _) ∙ sym (get-put Text-discrete k j _ w.turns) ∙ e)

get-left :
    (w : World) (thread_id k j t : Text)
    → get Text-discrete j (left w thread_id k).turns ≡ some t
    → (k ≢ j) × (get Text-discrete j w.turns ≡ some t)
get-left w thread_id k j t e = elim (Text-discrete k j) [
  | yes p ↦ absurd (
      none-ne-some _
        (sym (if_pos (Text-discrete k j) p _ _) ∙ sym (get-pop Text-discrete k j w.turns) ∙ e))
  | no p ↦ (p, sym (if_neg (Text-discrete k j) p _ _) ∙ sym (get-pop Text-discrete k j w.turns) ∙ e)
]

-- what a try that succeeds says of the conversations that are held, and what it makes of them
try_local-free :
    (t : Text) (held : List Text)
    → (try_local t held).0 ≡ true
    → (among Text-discrete t held ≡ false) × ((try_local t held).1 ≡ t ∷ held)
unfolding try_local
try_local-free t held ok = ground (arith, ok)

try_local-taken :
    (t : Text) (held : List Text) → (try_local t held).0 ≡ false → (try_local t held).1 ≡ held
unfolding try_local
try_local-taken t held failed = ground (arith, failed)

among-cons :
    (t u : Text) (held : List Text)
    → among Text-discrete t held ≡ true
    → among Text-discrete t (u ∷ held) ≡ true
unfolding among
among-cons t u held h = ground (arith, h)

enters-IsHeld :
    (w : World) (thread_id k : Text)
    → (try_local thread_id w.held).0 ≡ true
    → IsHeld w
    → IsHeld (entered w thread_id k)
enters-IsHeld w thread_id k ok inv = record {
  backed = λ j t e. rw new (elim (get-entered w thread_id k j t e (Text-discrete k j)) [
    | inl (_, q) ↦ rw (← q) (unfold among in if_pos (Text-discrete thread_id thread_id) refl _ _)
    | inr q ↦ among-cons t thread_id w.held (inv.backed j t q)
  ]);
  alone = λ i j t e f. (elim (get-entered w thread_id k i t e (Text-discrete k i)) [
    | inl (p, q) ↦ elim (get-entered w thread_id k j t f (Text-discrete k j)) [
      | inl (r, _) ↦ sym p ∙ r
      | inr r ↦ absurd (clash j t q r)
    ]
    | inr p ↦ elim (get-entered w thread_id k j t f (Text-discrete k j)) [
      | inl (_, q) ↦ absurd (clash i t q p)
      | inr r ↦ inv.alone i j t p r
    ]
  ]);
}
  where
    free : among Text-discrete thread_id w.held ≡ false
    free = (try_local-free thread_id w.held ok).0

    new : (try_local thread_id w.held).1 ≡ thread_id ∷ w.held
    new = (try_local-free thread_id w.held ok).1

    clash : (j t : Text) → thread_id ≡ t → get Text-discrete j w.turns ≡ some t → ⊥
    clash j t q r =
        (let held = inv.backed j t r in
          let open_ : among Text-discrete t w.held ≡ false =
            ap (λ x. among Text-discrete x w.held) (sym q) ∙ free in
          ground (arith, held, open_))

leaves-IsHeld :
    (w : World) (thread_id k : Text)
    → get Text-discrete k w.turns ≡ some thread_id
    → IsHeld w
    → IsHeld (left w thread_id k)
leaves-IsHeld w thread_id k mine inv = record {
  backed = λ j t e.
      (let (p, q) = get-left w thread_id k j t e in
        among-release t thread_id w.held
          (λ r. p (inv.alone k j thread_id mine (q ∙ ap some (sym r))))
        ∙ inv.backed j t q);
  alone = λ i j t e f.
      inv.alone i j t (get-left w thread_id k i t e).1 (get-left w thread_id k j t f).1;
}

Step-IsHeld : (w w' : World) → Step w w' → IsHeld w → IsHeld w'
Step-IsHeld w _ (enters t k new ok) inv = enters-IsHeld w t k ok inv
Step-IsHeld w _ (waits t failed) inv = rw (try_local-taken t w.held failed) inv
Step-IsHeld w _ (leaves t k mine) inv = leaves-IsHeld w t k mine inv

-- Whatever tries and ends of turns there are, and in whatever order: a turn that runs holds its
-- conversation, and no two turns run on one conversation at a time.
pub Reach-IsHeld : (w : World) → Reach w → IsHeld w
unfolding get
Reach-IsHeld _ here = record {
  backed = λ k t e. absurd (none-ne-some _ e);
  alone = λ k j t e f. absurd (none-ne-some _ e);
}
Reach-IsHeld w (next {w = v} r h) = Step-IsHeld v w h (Reach-IsHeld v r)
