-- ===== src/Auth/Compensation.antt =====
-- A signup that fails after its check (`AuthService.signup`, src/auth/auth.service.ts): what the
-- compensation restores, and what it destroys.
use multitenancy.Prelude.{
  ◌≤◌, String, false, none, some, List, [], ◌∷◌, ◌++◌, ◌≡◌, ◌≢◌, refl, any, ◌∙◌, ap, sym, arith,
  ◌==◌, if◌then◌else◌, ==_refl,
}
use multitenancy.Prelude.Assoc.{find}
use multitenancy.Exceptions.{Exception}
use multitenancy.Entities.{BaseEntity, Tenant, User}
use multitenancy.Entities.Clash
use multitenancy.Cache
use multitenancy.World.{World, PublicTables, ok, err, continue, recover, ◌>>=◌}
use multitenancy.World.Evolves.{Evolves, evolves_rules}
use multitenancy.Platform.{Platform, Migration, Calm, keep}
use multitenancy.Repository.{
  tenants_repository, has_other_id, sent, generated, execute, on_rows, save,
}
use multitenancy.Repository.Evolves.{Evolves-execute}
use multitenancy.Repository.Rows.{==_sym}
use multitenancy.Provisioning.Isolation.{
  SamePublic, SamePublic-order, IsKeyed, provision-SamePublic, users_save-SamePublic, KeepsKeyed,
  KeepsKeyed-order, KeepsKeyed-of_same, provision-KeepsKeyed, users_save-KeepsKeyed,
}
use multitenancy.Utils.{hash_password}
use multitenancy.Auth.{SignupDto, tenant_of, create_schema, provision_owner, signup_checked}
use multitenancy.Auth.Rollback.{rollback_undoes}

-- Taking out the row that was put last, under an identity of its own, gives the rows back.
keep-concat :
    (n : Tenant) (rows : List Tenant)
    → any (Clash.tenant n) rows ≡ false
    → keep (has_other_id tenants_repository n.base.id) (rows ++ n ∷ []) ≡ rows
keep-concat n [] h = ground (arith, ==_refl n.base.id)
keep-concat n (x ∷ xs) h = ground (arith, keep-concat n xs, ==_sym n.base.id x.base.id)

module _ (sys : Platform) where
  save_tenant_ok :
      (row : BaseEntity → Tenant) (w v : World) (t : PublicTables) (tenant : Tenant)
      → w.public ≡ some t
      → save sys tenants_repository row w ≡ (ok tenant, v)
      → (v.public ≡ some (record t { tenants = t.tenants ++ tenant ∷ [] }))
        × (any (Clash.tenant tenant) t.tenants ≡ false)
        × (v.connections ≡ w.connections)
        × (w.calls ≤ v.calls)
  unfolding save on_rows
  save_tenant_ok row w v t tenant e h =
      ground
        (arith, sys.insert_lem Tenant Clash.tenant (row (generated sys (sent sys w))) t.tenants)

  waits-SamePublic : (w : World) → SamePublic w (sent sys w)
  waits-SamePublic w = refl

module _ (sys : Platform) (ups : List Migration) where
  create-SamePublic :
      (name : String)
      → Evolves SamePublic (execute sys (λ w. record w { schemas = create_schema name w.schemas }))
  create-SamePublic name = Evolves-execute sys (waits-SamePublic sys) _ (λ w. refl)

  create-KeepsKeyed :
      (name : String)
      → Evolves KeepsKeyed (execute sys (λ w. record w { schemas = create_schema name w.schemas }))
  create-KeepsKeyed name = Evolves-execute sys {R = KeepsKeyed} (λ w h. h) _ (λ w h. h)

  provision_owner-SamePublic :
      (dto : SignupDto) (hash : String) → Evolves SamePublic (provision_owner sys ups dto hash)
  unfolding provision_owner
  provision_owner-SamePublic dto hash =
      search
        (
          evolves_rules,
          SamePublic-order,
          create-SamePublic,
          provision-SamePublic sys ups,
          users_save-SamePublic sys,
        )
        depth 9

  provision_owner-KeepsKeyed :
      (dto : SignupDto) (hash : String) → Evolves KeepsKeyed (provision_owner sys ups dto hash)
  unfolding provision_owner
  provision_owner-KeepsKeyed dto hash =
      search
        (
          evolves_rules,
          KeepsKeyed-order,
          create-KeepsKeyed,
          provision-KeepsKeyed sys ups,
          users_save-KeepsKeyed sys,
        )
        depth 9

  -- If the tenant was saved, the rest of the signup throws, and the server rejects no statement from
  -- there on, then a signup of any slug but `public` throws that error and leaves the platform's tables
  -- as before the signup, no schema of that slug, the other schemas as the failure left them, and no
  -- connection of that slug.
  pub signup_compensates :
      (dto : SignupDto) (w w1 w2 : World) (t : PublicTables) (tenant : Tenant) (x : Exception)
      → dto.slug ≢ "public"
      → w.public ≡ some t
      → IsKeyed w
      → save sys tenants_repository (tenant_of dto) w ≡ (ok tenant, w1)
      → provision_owner sys ups dto (sys.hash w.calls dto.tenant_owner_password) w1 ≡ (err x, w2)
      → Calm sys w2.calls
      → let (r, v) = signup_checked sys ups dto w in
        (r ≡ err x)
        × (v.public ≡ w.public)
        × ((k : String) → find k v.schemas ≡ (if dto.slug == k then none else find k w2.schemas))
        × (Cache.get dto.slug v.connections ≡ none)
  unfolding signup_checked hash_password ◌>>=◌
  signup_compensates dto w w1 w2 t tenant x ne e keyed saved failed calm =
      let hash : String = sys.hash w.calls dto.tenant_owner_password in
      let (p1, fresh, c1, n1) = save_tenant_ok sys (tenant_of dto) w w1 t tenant e saved in
      let p2 : w2.public ≡ some (record t { tenants = t.tenants ++ tenant ∷ [] }) =
        rw failed at ((provision_owner-SamePublic dto hash).at w1) ∙ p1 in
      let keyed2 : IsKeyed w2 =
        rw failed at
          ((provision_owner-KeepsKeyed dto hash).at w1 (KeepsKeyed-of_same w w1 c1 keyed)) in
      let (r, p, s, c) =
        rollback_undoes sys ups {A = User} dto.slug (some tenant) x w2
          (record t { tenants = t.tenants ++ tenant ∷ [] }) ne p2 keyed2 calm in
      rw (saved, continue, recover)
        (rw (failed, recover)
          (
            r,
            p
                ∙ ap (λ (rows : List Tenant). some (record t { tenants = rows }))
                    (keep-concat tenant t.tenants fresh)
                ∙ sym e,
            s,
            c,
          ))
