-- ===== src/Auth/Established.antt =====
-- A signup that goes well (`AuthService.signup`, src/auth/auth.service.ts), where the migrations create
-- the tables of the tenant's own schema.
use multitenancy.Prelude.{
  ℕ, ◌+◌, String, Bool, true, false, none, some, [], ◌∷◌, ◌++◌, any, All, ◌≡◌, refl, ◌∙◌, arith,
  ◌==◌, ==_refl, if◌then◌else◌,
}
use multitenancy.Prelude.Assoc.{find, put, find-put}
use multitenancy.Enums.{owner}
use multitenancy.Entities.{BaseEntity, Tenant, User}
use multitenancy.Entities.Clash
use multitenancy.Cache
use multitenancy.Cache.{get-set}
use multitenancy.World.{
  World, Schema, Schemas, PublicTables, Result, ok, continue, recover, tables_of, set_tables,
  is_some, ◌>>=◌,
}
use multitenancy.Platform.{Platform, Calm, run_pending, run_all, record_migrated}
use multitenancy.Repository.{
  tenants_repository, users_repository, sent, generated, execute, save, statement,
}
use multitenancy.Repository.Accepted.{execute_accepted, save_accepted}
use multitenancy.Provisioning.{
  data_source, no_rows, create_tables, initialize, run_migrations, provision,
}
use multitenancy.Utils.{hash_password}
use multitenancy.Auth.{
  SignupDto, tenant_of, owner_of, create_schema, empty_schema, provision_owner, signup_checked,
  signup,
}
use multitenancy.Auth.Takeover.{new_tenant, find_none}

abbrev with_tables : Bool → Schema
with_tables migrated = record { migrated = migrated; tables = some no_rows }

find-put_same : (slug : String) (sch : Schema) (s : Schemas) → find slug (put slug sch s) ≡ some sch
find-put_same slug sch s = find-put slug slug sch s ∙ rw (==_refl slug) refl

abbrev established : String → Schemas → Schemas
established slug s =
    put slug (with_tables true) (put slug (with_tables false) (put slug empty_schema s))

own_migration :
    (slug : String) (s : Schemas)
    → find slug s ≡ none
    → run_pending (create_tables slug ∷ []) slug (create_schema slug s) ≡ some (established slug s)
unfolding run_pending run_all create_tables create_schema record_migrated
own_migration slug s absent = ground (
  arith,
  absent,
  find-put_same slug empty_schema s,
  find-put_same slug (with_tables false) (put slug empty_schema s),
)

established_lem :
    (slug k : String) (s : Schemas)
    → find k (established slug s) ≡ (if slug == k then some (with_tables true) else find k s)
established_lem slug k s = ground (
  arith,
  find-put slug k empty_schema s,
  find-put slug k (with_tables false) (put slug empty_schema s),
  find-put slug k (with_tables true) (put slug (with_tables false) (put slug empty_schema s)),
)

-- the state that the owner's row is written to
abbrev ready : Platform → String → World → World
ready sys slug w = record (sent sys (sent sys (sent sys w))) {
  schemas = established slug w.schemas;
  connections = Cache.set slug (data_source slug) w.connections;
}

others_lem :
    (slug k : String) (after before : Schemas)
    → ((slug == k) ≡ false → find k after ≡ find k before)
    → find k after ≡ (if slug == k then find k after else find k before)
others_lem slug k after before h = ground arith

module _ (sys : Platform) where
  provision_accepted :
      (slug : String) (w : World)
      → Calm sys w.calls
      → find slug w.schemas ≡ none
      → let w1 = record (sent sys w) { schemas = create_schema slug w.schemas } in
        provision sys (create_tables slug ∷ []) slug w1 ≡ (ok (data_source slug), ready sys slug w)
  unfolding provision initialize run_migrations execute statement ◌>>=◌
  provision_accepted slug w calm absent =
      rw
        (
          calm (w.calls + 1) (omega arith),
          continue,
          calm (w.calls + 1 + 1) (omega arith),
          sys.run_migrations_lem,
          own_migration slug w.schemas absent,
        )
        refl

  users_ready :
      (slug : String) (w : World)
      → (users_repository (data_source slug)).rows (sent sys (ready sys slug w)) ≡ some []
  unfolding tables_of
  users_ready slug w = ground (arith, established_lem slug slug w.schemas, ==_refl slug)

  -- `v` has the owner `u` as the only user of the schema `slug`, whose connection is cached; the other
  -- schemas are those of `w`.
  abbrev OwnedBy : User → String → World → World → Type 0
  OwnedBy u slug w v =
      ((users_repository (data_source slug)).rows v ≡ some (u ∷ []))
      × ((k : String) → (slug == k) ≡ false → find k v.schemas ≡ find k w.schemas)
      × (Cache.get slug v.connections ≡ some (data_source slug))
      × (v.public ≡ w.public)

  write_owner :
      (slug : String) (u : User) (w : World)
      → OwnedBy u slug w
          ((users_repository (data_source slug)).write ([] ++ u ∷ []) (sent sys (ready sys slug w)))
  unfolding tables_of set_tables
  write_owner slug u w =
      let est : Schemas = established slug w.schemas in
      let there : find slug est ≡ some (with_tables true) =
        established_lem slug slug w.schemas ∙ rw (==_refl slug) refl in
      let owned : Schema = record {
        migrated = true;
        tables = some (record no_rows { users = u ∷ [] });
      } in
      (
        ground (arith, there, find-put_same slug owned est),
        λ k ne. ground (arith, there, find-put slug k owned est, established_lem slug k w.schemas),
        ground (arith, there, get-set slug slug (data_source slug) w.connections, ==_refl slug),
        ground (arith, there),
      )

  provision_owner_accepted :
      (dto : SignupDto) (hash : String) (w : World)
      → Calm sys w.calls
      → find dto.slug w.schemas ≡ none
      → (now : ℕ) × (base : BaseEntity) × (v : World) × (provision_owner sys
            (create_tables dto.slug ∷ [])
            dto
            hash
            w
          ≡ (ok (owner_of dto hash now base), v))
        × OwnedBy (owner_of dto hash now base) dto.slug w v
  unfolding provision_owner ◌>>=◌
  provision_owner_accepted dto hash w calm absent =
      let started =
        execute_accepted sys w (calm w.calls (omega arith))
          (λ (w : World). record w { schemas = create_schema dto.slug w.schemas }) in
      let r : World = ready sys dto.slug w in
      let now : ℕ = r.clock in
      let saved =
        save_accepted sys r (calm r.calls (omega arith)) (users_repository (data_source dto.slug))
          [] (users_ready dto.slug w) (owner_of dto hash now) refl in
      (
        now,
        generated sys (sent sys r),
        (users_repository (data_source dto.slug)).write
            ([] ++ owner_of dto hash now (generated sys (sent sys r)) ∷ []) (sent sys r),
        rw (started, continue, provision_accepted dto.slug w calm absent, saved) refl,
        write_owner dto.slug (owner_of dto hash now (generated sys (sent sys r))) w,
      )

  -- what a signup from `w` leaves: a tenant with this row, and its owner
  abbrev pub Established : SignupDto → World → PublicTables → Result User × World → Type 0
  Established dto w t (r, v) =
      (u : User) × (hash : String) × (r ≡ ok u)
      × (u.role ≡ owner)
      × (u.email ≡ dto.tenant_owner_email)
      × (is_some u.activated_at ≡ true)
      × (u.password_hash ≡ some hash)
      × (sys.verify hash dto.tenant_owner_password ≡ true)
      × (v.public ≡ some (record t { tenants = t.tenants ++ new_tenant sys dto (sent sys w) ∷ [] }))
      × ((users_repository (data_source dto.slug)).rows v ≡ some (u ∷ []))
      × ((k : String)
          → find k v.schemas ≡ (if dto.slug == k then find k v.schemas else find k w.schemas))
      × (Cache.get dto.slug v.connections ≡ some (data_source dto.slug))

  -- With a migration that creates the tables of the tenant's own schema, as the checked-in one does for
  -- the slug tenant_acme alone, a signup with a free slug whose row clashes with no tenant's, in a state
  -- without that schema and with a server that rejects nothing, succeeds: it adds the tenant, makes the
  -- owner, activated and with the password's hash, the only user of the new schema, leaves the other
  -- schemas alone and caches the connection.
  pub signup_establishes :
      (dto : SignupDto) (w : World) (t : PublicTables)
      → w.public ≡ some t
      → Calm sys w.calls
      → All (λ x. (x.slug == dto.slug) ≡ false) t.tenants
      → any (Clash.tenant (new_tenant sys dto (sent sys w))) t.tenants ≡ false
      → find dto.slug w.schemas ≡ none
      → Established dto w t (signup sys (create_tables dto.slug ∷ []) dto w)
  unfolding signup signup_checked hash_password ◌>>=◌
  signup_establishes dto w t e calm free new absent =
      let nobody = find_none sys dto.slug w t e (calm w.calls (omega arith)) free in
      let w1 : World = sent sys w in
      let new_row : Tenant = new_tenant sys dto w1 in
      let w2 : World = record (sent sys w1) {
        public = some (record t { tenants = t.tenants ++ new_row ∷ [] });
      } in
      let saved : save sys tenants_repository (tenant_of dto) w1 ≡ (ok new_row, w2) =
        save_accepted sys w1 (calm w1.calls (omega arith)) tenants_repository t.tenants
          (ground arith) (tenant_of dto) new
        ∙ rw e refl in
      let hash : String = sys.hash w1.calls dto.tenant_owner_password in
      let (now, base, v, ran, (users, others, conn, public)) =
        provision_owner_accepted dto hash w2 (λ m h. calm m (omega arith)) absent in
      rw (nobody, continue, saved, recover, ran)
        (
          owner_of dto hash now base,
          hash,
          refl,
          refl,
          refl,
          refl,
          refl,
          sys.verify_hash w1.calls dto.tenant_owner_password,
          public,
          users,
          λ k. others_lem dto.slug k v.schemas w.schemas (others k),
          conn,
        )
