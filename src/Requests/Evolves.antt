-- ===== src/Requests/Evolves.antt =====
-- What `TenantMiddleware` does to the state (src/common/middleware/tenant.middleware.ts): it only reads.
use multitenancy.Prelude.{String, Bool, Option, none, some, ◌==◌}
use multitenancy.World.{World}
use multitenancy.World.Evolves.{Preorder, Evolves, evolves_rules}
use multitenancy.Platform.{Platform}
use multitenancy.Repository.{sent, tenants_repository, find_one}
use multitenancy.Repository.Evolves.{Evolves-find_one}
use multitenancy.Requests.{Request, use_tenant, resolve, resolve_if, slug_of}

module _ (sys : Platform) {R : World → World → Type 0} (order : Preorder R)
    (waits : (w : World) → R w (sent sys w)) where
  find-Evolves : (slug : String) → Evolves R (find_one sys tenants_repository (λ t. t.slug == slug))
  find-Evolves slug = Evolves-find_one sys waits tenants_repository (λ t. t.slug == slug)

  resolve-Evolves : (req : Request) (slug : String) → Evolves R (resolve sys req slug)
  unfolding resolve
  resolve-Evolves req slug = search (evolves_rules, find-Evolves, order)

  resolve_if-Evolves : (req : Request) (slug : Option String) → Evolves R (resolve_if sys req slug)
  unfolding resolve_if
  resolve_if-Evolves req none = search (evolves_rules, order)
  resolve_if-Evolves req (some slug) = resolve-Evolves req slug

  pub use_tenant-Evolves :
      (production : Bool) (req : Request) → Evolves R (use_tenant sys production req)
  unfolding use_tenant
  use_tenant-Evolves production req = resolve_if-Evolves req (slug_of production req)
