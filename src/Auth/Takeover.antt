-- ===== src/Auth/Takeover.antt =====
-- A signup that passes the check of its slug and then clashes with a tenant that is there
-- (`AuthService.signup`, src/auth/auth.service.ts): the compensation drops a schema which this signup did
-- not create.
use multitenancy.Prelude.{
  String, true, false, none, some, List, ◌≡◌, ◌≢◌, refl, any, All, ◌∙◌, sym, arith, ◌==◌,
  if◌then◌else◌, Option-cases, inl, inr,
}
use multitenancy.Prelude.Assoc.{find}
use multitenancy.Entities.{Tenant, User}
use multitenancy.Entities.Clash
use multitenancy.Cache
use multitenancy.World.{World, PublicTables, Result, ok, err, continue, recover, ◌>>=◌}
use multitenancy.Platform.{Platform, Migration, Calm}
use multitenancy.Repository.{
  tenants_repository, unique_violation, sent, generated, on_rows, find_one, save,
}
use multitenancy.Provisioning.Isolation.{IsKeyed}
use multitenancy.Utils.{hash_password}
use multitenancy.Auth.{SignupDto, tenant_of, signup_checked}
use multitenancy.Auth.Rollback.{rollback_undoes}

-- the row that a signup would insert, at the statement that follows `w`
abbrev pub new_tenant : Platform → SignupDto → World → Tenant
new_tenant sys dto w = tenant_of dto (generated sys (sent sys w))

-- `v` is `w` with the error of the clash, without the schema `slug` and its connection.
abbrev pub Destroyed : String → World → Result User × World → Type 0
Destroyed slug w (r, v) =
    (r ≡ err unique_violation)
    × (v.public ≡ w.public)
    × ((k : String) → find k v.schemas ≡ (if slug == k then none else find k w.schemas))
    × (Cache.get slug v.connections ≡ none)

module _ (sys : Platform) where
  save_clash :
      (dto : SignupDto) (w : World) (t : PublicTables)
      → w.public ≡ some t
      → sys.rejects w.calls ≡ false
      → any (Clash.tenant (new_tenant sys dto w)) t.tenants ≡ true
      → save sys tenants_repository (tenant_of dto) w ≡ (err unique_violation, sent sys w)
  unfolding save on_rows
  save_clash dto w t e sends clash =
      ground (arith, sys.insert_lem Tenant Clash.tenant (new_tenant sys dto w) t.tenants)

  pub find_none :
      (slug : String) (w : World) (t : PublicTables)
      → w.public ≡ some t
      → sys.rejects w.calls ≡ false
      → All (λ x. (x.slug == slug) ≡ false) t.tenants
      → find_one sys tenants_repository (λ x. x.slug == slug) w ≡ (ok none, sent sys w)
  unfolding find_one on_rows
  find_none slug w t e sends free =
      elim (Option-cases (sys.find_one Tenant (λ x. x.slug == slug) t.tenants)) [
        | inl nobody ↦ ground arith
        | inr (x, found) ↦
            let (fits, differs) =
              sys.find_one_sound Tenant (λ x. x.slug == slug) (λ x. (x.slug == slug) ≡ false)
                t.tenants x found free in
            cc (fits, differs)
      ]

module _ (sys : Platform) (ups : List Migration) where
  -- What follows the check of the slug, where the new row clashes with one that is there by its slug,
  -- its owner's address or its schema, the server rejects nothing, and the slug is not `public`: the
  -- signup throws the unique violation, the tenants stay, but the schema of that slug is dropped with
  -- all that it holds. With a row of the same slug, which another signup saved since the check, that
  -- is the other tenant's schema.
  pub signup_checked_drops :
      (dto : SignupDto) (w : World) (t : PublicTables)
      → dto.slug ≢ "public"
      → w.public ≡ some t
      → IsKeyed w
      → Calm sys w.calls
      → any (Clash.tenant (new_tenant sys dto w)) t.tenants ≡ true
      → Destroyed dto.slug w (signup_checked sys ups dto w)
  unfolding signup_checked hash_password ◌>>=◌
  signup_checked_drops dto w t ne e keyed calm clash =
      let failed = save_clash sys dto w t e (calm w.calls (omega arith)) clash in
      let (r, p, s, c) =
        rollback_undoes sys ups {A = Tenant} dto.slug none unique_violation (sent sys w) t ne e
          keyed (λ m h. calm m (omega arith)) in
      rw (failed, continue, recover) (rw (r, continue) (refl, p ∙ sym e, s, c))
