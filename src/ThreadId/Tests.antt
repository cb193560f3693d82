-- ===== src/ThreadId/Tests.antt =====
-- Small runs of app/thread_id.py.
use customer_service.Prelude.{◌≡◌, refl}
use customer_service.Prelude.Text.{codes, strip, strip_left, replace}
use customer_service.ThreadId.{thread_part, make_thread_id, make_thread_id-injective}

-- two users of one conversation
shared_thread :
    make_thread_id (codes "acme") (codes "s1") (codes "a:b")
    ≡ make_thread_id (codes "acme") (codes "s1") (codes "a_b")
unfolding make_thread_id thread_part replace strip strip_left
shared_thread = refl

make_thread_id-injective_example :
    (thread_part (codes "acme") (codes "demo") ≡ thread_part (codes "acme") (codes "demo"))
    × (thread_part (codes "a:b") (codes "anonymous")
        ≡ thread_part (codes "a_b") (codes "anonymous"))
    × (thread_part (codes "s1") (codes "session") ≡ thread_part (codes "s1") (codes "session"))
make_thread_id-injective_example =
    make_thread_id-injective (codes "acme") (codes "acme") (codes "s1") (codes "s1") (codes "a:b")
      (codes "a_b") shared_thread
