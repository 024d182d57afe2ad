-- ===== src/Auth/Unmigrated.antt =====
-- A signup with the tenant migration that is checked in under src/database/migrations/tenant, whose
-- statements all name the schema "tenant_acme" (`AuthService.signup` of src/auth/auth.service.ts).
use multitenancy.Prelude.{
  String, Option, none, some, ◌≡◌, ◌≢◌, refl, arith, ◌==◌, Option-cases, Bool-cases, inl, inr, sym,
  ◌∙◌,
}
use multitenancy.Exceptions.{Exception}
use multitenancy.Entities.{BaseEntity, Tenant, User}
use multitenancy.Cache
use multitenancy.World.{World, Action, ok, pure, modify, ◌>>=◌, ◌>>◌}
use multitenancy.World.Evolves.{Evolves}
use multitenancy.World.Runs.{
  Runs, no_result, Runs-bind, Runs-raise, Runs-gets, Runs-raise_if, Runs-catch, Runs-of_Evolves,
  Runs-to,
}
use multitenancy.Platform.{Platform}
use multitenancy.Repository.{tenants_repository, users_repository, save, statement}
use multitenancy.Repository.Evolves.{Evolves-execute, Evolves-find_one, Evolves-save}
use multitenancy.Repository.Runs.{Runs-save}
use multitenancy.Provisioning.{data_source, checked_in, initialize, run_migrations, provision}
use multitenancy.Provisioning.Reuse.{any_state}
use multitenancy.Utils.{hash_password}
use multitenancy.Auth.{
  SignupDto, tenant_of, owner_of, create_schema, provision_owner, rollback, signup_checked, signup,
}
use multitenancy.Auth.Bare.{Bare, StaysBare, create_schema-bare, migrated-bare}

module _ (sys : Platform) where
  keeps :
      {A : Type 0} (slug : String) (m : Action A)
      → Evolves (StaysBare slug) m
      → Runs (Bare slug) m (λ _. Bare slug) (λ _ _. Unit {0})
  keeps slug m e =
      Runs-to m (λ _. Bare slug) (λ _. Bare slug) (λ a w h. h) (λ x w h. tt)
        (Runs-of_Evolves (Bare slug) m e)

  save_user-never :
      (slug : String) (row : BaseEntity → User)
      → Runs
          (Bare slug)
          (save sys (users_repository (data_source slug)) row)
          (λ _ _. ⊥)
          (λ _ _. Unit {0})
  save_user-never slug row =
      Runs-save sys (users_repository (data_source slug)) (λ x w h. tt) row
        λ w rows bare e new. ground arith

  run_migrations-Bare :
      (slug : String)
      → "tenant_acme" ≢ slug
      → Runs (Bare slug) (run_migrations sys checked_in slug) (λ _. Bare slug) (λ _ _. Unit {0})
  unfolding run_migrations statement
  run_migrations-Bare slug ne = record {
    at = λ w h. elim (Bool-cases (sys.rejects w.calls)) [
      | inl lost ↦ rw lost tt
      | inr sends ↦ rw sends (elim (Option-cases (sys.run_migrations checked_in slug w.schemas)) [
        | inl refused ↦ rw refused tt
        | inr (s, done) ↦ rw done (
            migrated-bare slug w.schemas s ne h
              (sym (sys.run_migrations_lem checked_in slug w.schemas) ∙ done))
      ])
    ];
  }

  remember-Bare :
      (slug : String)
      → Runs
          (Bare slug)
          (modify (λ w. record w { connections = Cache.set slug (data_source slug) w.connections })
            >> pure (data_source slug))
          (λ ds w. (ds ≡ data_source slug) × Bare slug w)
          (λ _ _. Unit {0})
  unfolding ◌>>=◌
  remember-Bare slug = record { at = λ w h. (refl, h) }

  provision-Bare :
      (slug : String)
      → "tenant_acme" ≢ slug
      → Runs
          (Bare slug)
          (provision sys checked_in slug)
          (λ ds w. (ds ≡ data_source slug) × Bare slug w)
          (λ _ _. Unit {0})
  unfolding provision initialize
  provision-Bare slug ne =
      Runs-bind (initialize sys checked_in) _ (λ _. Bare slug)
        (keeps slug (initialize sys checked_in)
          (Evolves-execute sys (λ w h. h) (λ w. w) (λ w h. h)))
        λ _. Runs-bind _ _ (λ _. Bare slug) (run_migrations-Bare slug ne) λ _. remember-Bare slug

  provision_owner-never :
      (dto : SignupDto) (hash : String)
      → "tenant_acme" ≢ dto.slug
      → Runs (Bare dto.slug) (provision_owner sys checked_in dto hash) (λ _ _. ⊥) (λ _ _. Unit {0})
  unfolding provision_owner
  provision_owner-never dto hash ne =
      Runs-bind _ _ (λ _. Bare dto.slug)
        (keeps dto.slug _ (
          Evolves-execute sys {R = StaysBare dto.slug} (λ w h. h)
            (λ w. record w { schemas = create_schema dto.slug w.schemas })
            (λ w h. create_schema-bare dto.slug w.schemas h)))
        λ _.
          Runs-bind _ _ (λ ds w. (ds ≡ data_source dto.slug) × Bare dto.slug w)
            (provision-Bare dto.slug ne)
            λ ds.
              Runs-bind _ _ (λ _ w. (ds ≡ data_source dto.slug) × Bare dto.slug w)
                (Runs-gets _ (λ w h. h))
                λ now. record {
                  at = λ w (same, bare).
                      rw same ((save_user-never dto.slug (owner_of dto hash now)).at w bare);
                }

  rollback-never :
      {A : Type 0} (slug : String) (tenant : Option Tenant) (x : Exception)
      → Runs
          (λ _. Unit {0})
          (rollback sys checked_in {A = A} slug tenant x)
          (λ _ _. ⊥)
          (λ _ _. Unit {0})
  unfolding rollback
  rollback-never slug tenant x =
      Runs-bind _ _ (λ _ _. Unit {0}) (any_state sys checked_in _)
        λ _.
          Runs-bind _ _ (λ _ _. Unit {0}) (any_state sys checked_in _)
            λ _.
              Runs-bind _ _ (λ _ _. Unit {0}) (any_state sys checked_in _)
                λ _. Runs-raise x (λ w h. tt)

  save_tenant-StaysBare :
      (dto : SignupDto) → Evolves (StaysBare dto.slug) (save sys tenants_repository (tenant_of dto))
  save_tenant-StaysBare dto =
      Evolves-save sys {R = StaysBare dto.slug} (λ w h. h) tenants_repository (tenant_of dto)
        (λ w rows e new h. ground arith)

  signup-never :
      (dto : SignupDto)
      → "tenant_acme" ≢ dto.slug
      → Runs (Bare dto.slug) (signup sys checked_in dto) (λ _ _. ⊥) (λ _ _. Unit {0})
  unfolding signup signup_checked hash_password
  signup-never dto ne =
      Runs-bind _ _ (λ _. Bare dto.slug)
        (keeps dto.slug _
          (Evolves-find_one sys (λ w h. h) tenants_repository (λ t. t.slug == dto.slug)))
        λ existing.
          Runs-bind _ _ (λ _. Bare dto.slug) (Runs-raise_if _ _ (λ e w h. tt) (λ e w h. h))
            λ _.
              Runs-bind _ _ (λ _. Bare dto.slug)
                (keeps dto.slug (hash_password sys dto.tenant_owner_password)
                  (record { at = λ w h. h }))
                λ hash.
                  Runs-bind _ _ (λ _. Bare dto.slug)
                    (Runs-catch _ _ (λ _ _. Unit {0}) (keeps dto.slug _ (save_tenant-StaysBare dto))
                      (λ x.
                        Runs-to _ _ _ (λ t w h. absurd h) (λ e w h. h)
                          (rollback-never dto.slug none x)))
                    λ tenant.
                      Runs-catch _ _ (λ _ _. Unit {0}) (provision_owner-never dto hash ne)
                        (λ x. rollback-never dto.slug (some tenant) x)

  -- With the migration that is checked in, no signup of any slug but `tenant_acme` succeeds, in any
  -- state whose schema of that slug holds no tables yet: its tables are created in another schema, so
  -- the owner's row has none to go to.
  pub signup_needs_tables :
      (dto : SignupDto) (w : World) (out : User)
      → "tenant_acme" ≢ dto.slug
      → Bare dto.slug w
      → (signup sys checked_in dto w).0 ≢ ok out
  signup_needs_tables dto w out ne bare =
      no_result (signup sys checked_in dto w) out ((signup-never dto ne).at w bare)
