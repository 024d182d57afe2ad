-- ===== src/Requests/Tenants.antt =====
-- From the host name of a request to its tenant, in production (src/common/middleware/tenant.middleware.ts,
-- with the slugs that src/auth/dto/index.dto.ts lets a tenant have).

use Prim.Native.String.append
use Prim.Native.String.{◌++◌}
use multitenancy.Prelude.{
  String, true, false, some, List, ◌≡◌, refl, ◌∙◌, ap, arith, ◌==◌, eq_iff, All, In, All-In,
  Option-cases, inl, inr, and_parts,
}
use multitenancy.Exceptions.{resource_not_found}
use multitenancy.Entities.{Tenant}
use multitenancy.World.{World, PublicTables, Result, ok, pure, ◌>>=◌}
use multitenancy.World.Runs.{Post}
use multitenancy.Platform.{Platform}
use multitenancy.Repository.{tenants_repository}
use multitenancy.Repository.Accepted.{find_one_accepted}
use multitenancy.Validation.{slug_code, all_slug_chars, valid_slug}
use multitenancy.Requests.{
  Request, first_label, names_no_tenant, slug_of, resolve, resolve_if, use_tenant,
}

dot_ends : (domain : String) → first_label ("." ++ domain) ≡ ""
unfolding first_label
dot_ends domain = rw append.cons refl

label_of_slug :
    (slug domain : String)
    → all_slug_chars slug ≡ true
    → first_label (slug ++ ("." ++ domain)) ≡ slug
unfolding first_label all_slug_chars slug_code
label_of_slug String.[] domain h = rw append.nil (dot_ends domain)
label_of_slug (String.◌∷◌ c s) domain h = rw append.cons (ground (arith, label_of_slug s domain))

valid-chars : (slug : String) → valid_slug slug ≡ true → all_slug_chars slug ≡ true
unfolding valid_slug
valid-chars slug h = (and_parts _ _ h).1

first_label-host :
    (req : Request) (slug domain : String)
    → req.hostname ≡ slug ++ ("." ++ domain)
    → valid_slug slug ≡ true
    → first_label req.hostname ≡ slug
first_label-host req slug domain host valid =
    ap first_label host ∙ label_of_slug slug domain (valid-chars slug valid)

-- the tenants that a host names: one with the slug, or no tenant has it
abbrev pub Resolved : String → List Tenant → Result Request × World → Type 0
Resolved slug tenants =
    Post (λ req w. (x : Tenant) × (req.tenant ≡ some x) × In x tenants × (x.slug ≡ slug))
      (λ x w. (x ≡ resource_not_found "TENANT" slug) × All (λ t. (t.slug == slug) ≡ false) tenants)

module _ (sys : Platform) where
  resolve_lem :
      (req : Request) (slug : String) (w : World) (t : PublicTables)
      → w.public ≡ some t
      → sys.rejects w.calls ≡ false
      → names_no_tenant slug ≡ false
      → Resolved slug t.tenants (resolve sys req slug w)
  unfolding resolve ◌>>=◌
  resolve_lem req slug w t e sends names =
      let asked =
        find_one_accepted sys w sends tenants_repository t.tenants (ground arith)
          (λ x. x.slug == slug) in
      elim (Option-cases (sys.find_one Tenant (λ x. x.slug == slug) t.tenants)) [
        | inl nobody ↦
            rw (names, asked, nobody)
              (refl, sys.find_one_complete Tenant (λ x. x.slug == slug) t.tenants nobody)
        | inr (x, found) ↦
            let (fits, member) =
              sys.find_one_sound Tenant (λ x. x.slug == slug) (λ x. In x t.tenants) t.tenants x
                found (All-In t.tenants) in
            rw (names, asked, found) (x, refl, member, (eq_iff x.slug slug).0 fits)
      ]

  -- In production, with the platform's tables there and the statement not rejected, a request to the
  -- host of a slug that a signup may have, and that is none of the reserved names, either gets a
  -- tenant of the table with exactly that slug, or is refused as not found because no tenant has it.
  pub use_tenant_resolves :
      (req : Request) (slug domain : String) (w : World) (t : PublicTables)
      → req.hostname ≡ slug ++ ("." ++ domain)
      → valid_slug slug ≡ true
      → names_no_tenant slug ≡ false
      → w.public ≡ some t
      → sys.rejects w.calls ≡ false
      → Resolved slug t.tenants (use_tenant sys true req w)
  unfolding use_tenant resolve_if slug_of
  use_tenant_resolves req slug domain w t host valid names e sends =
      rw (first_label-host req slug domain host valid) (resolve_lem req slug w t e sends names)

  -- In production, a request to the host of a reserved name stays without a tenant, whatever the
  -- tables hold: a tenant may sign up with such a slug, where it is valid, and is never reached.
  pub use_tenant_reserved :
      (req : Request) (slug domain : String) (w : World)
      → req.hostname ≡ slug ++ ("." ++ domain)
      → valid_slug slug ≡ true
      → names_no_tenant slug ≡ true
      → use_tenant sys true req w ≡ (ok req, w)
  unfolding use_tenant resolve_if resolve slug_of pure
  use_tenant_reserved req slug domain w host valid reserved =
      rw (first_label-host req slug domain host valid, reserved) refl
