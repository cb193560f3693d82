-- ===== src/ToolCache/Keys.antt =====
-- The keys of the tool cache, app/tool_cache.py: who shares one.
use customer_service.Prelude.{◌≡◌, sym, ◌∙◌, ◌∷◌, ◌++◌}
use mathlib.Core.List.{append_assoc}
use customer_service.Prelude.Text.{Text, codes, replace}
use customer_service.Prelude.Colons.{
  IsPlain, replace-IsPlain, first_colon, last_colon, append-cancel,
}
use customer_service.ToolCache.{redis_key}

-- Tenants and tools with no colon in their names that share a key are the same, their users are the
-- same, whatever the names of these are, and so are what they ask for, up to colons.
pub redis_key-injective :
    (tenant tenant' user user' tool tool' resource resource' : Text)
    → IsPlain tenant
    → IsPlain tenant'
    → IsPlain tool
    → IsPlain tool'
    → redis_key tenant user tool resource ≡ redis_key tenant' user' tool' resource'
    → (tenant ≡ tenant')
      × (user ≡ user')
      × (tool ≡ tool')
      × (replace b':' b'_' resource ≡ replace b':' b'_' resource')
unfolding redis_key
redis_key-injective tenant tenant' user user' tool tool' resource resource' p p' q q' e =
    let (same_tenant, rest) =
      first_colon tenant tenant' _ _ p p' (append-cancel (codes "cs:tool:result:") _ _ e) in
    let (head, same_resource) =
      last_colon (user ++ b':' ∷ tool) (user' ++ b':' ∷ tool') _ _ (replace-IsPlain resource)
        (replace-IsPlain resource')
        (append_assoc user (b':' ∷ tool) (b':' ∷ replace b':' b'_' resource)
          ∙ rest
          ∙ sym (append_assoc user' (b':' ∷ tool') (b':' ∷ replace b':' b'_' resource'))) in
    let (same_user, same_tool) = last_colon user user' tool tool' q q' head in
    (same_tenant, same_user, same_tool, same_resource)
