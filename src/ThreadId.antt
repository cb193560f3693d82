-- ===== src/ThreadId.antt =====
-- The key of a conversation, app/thread_id.py, and how it keeps conversations apart.
pub mod Tests
use customer_service.Prelude.{ℕ, ◌≡◌, List, [], ◌∷◌, ◌++◌}
use customer_service.Prelude.Text.{Text, codes, strip, or_else, replace}
use customer_service.Prelude.Colons.{IsPlain, replace-IsPlain, first_colon}

-- `_thread_part`
unfoldable pub thread_part : Text → Text → Text
thread_part value fallback = replace b':' b'_' (or_else (strip value) fallback)

-- `make_thread_id`
unfoldable pub make_thread_id : Text → Text → Text → Text
unfolding thread_part
make_thread_id tenant_id session_id user_id =
    thread_part tenant_id (codes "demo")
    ++ b':'
      ∷ (thread_part user_id (codes "anonymous") ++ b':' ∷ thread_part session_id (codes "session"))

thread_part-IsPlain : (value fallback : Text) → IsPlain (thread_part value fallback)
unfolding thread_part
thread_part-IsPlain value fallback = replace-IsPlain (or_else (strip value) fallback)

-- Conversations with one key are of one tenant, one user and one session, up to blanks at the ends,
-- the names that stand for empty ones, and colons, which are read as underscores.
pub make_thread_id-injective :
    (tenant tenant' session session' user user' : Text)
    → make_thread_id tenant session user ≡ make_thread_id tenant' session' user'
    → (thread_part tenant (codes "demo") ≡ thread_part tenant' (codes "demo"))
      × (thread_part user (codes "anonymous") ≡ thread_part user' (codes "anonymous"))
      × (thread_part session (codes "session") ≡ thread_part session' (codes "session"))
unfolding make_thread_id
make_thread_id-injective tenant tenant' session session' user user' e =
    let (same_tenant, rest) =
      first_colon _ _ _ _ (thread_part-IsPlain tenant (codes "demo"))
        (thread_part-IsPlain tenant' (codes "demo")) e in
    let (same_user, same_session) =
      first_colon _ _ _ _ (thread_part-IsPlain user (codes "anonymous"))
        (thread_part-IsPlain user' (codes "anonymous")) rest in
    (same_tenant, same_user, same_session)
