-- ===== src/Migrations/Startup.antt =====
-- Which migrations run when the application starts (src/database/database.module.ts,
-- src/database/datasources/public.datasource.ts, src/database/tenant-datasource.service.ts), and what a
-- fresh database answers afterwards.
use Prim.Native.String.{◌++◌}
use multitenancy.Migrations.Options.{
  Pattern, DataSourceOptions, application, public_command_line, tenant_command_line,
}
use multitenancy.Prelude.{
  String, Bool, false, Option, none, some, List, [], ◌∷◌, ◌≡◌, ◌≢◌, ◌&&◌, ◌||◌, ◌==◌, arith,
  if◌then◌else◌,
}
use multitenancy.World.{World, Action, ok, ◌>>=◌}
use multitenancy.World.Runs.{Runs, no_result, Runs-bind}
use multitenancy.Entities.{Tenant, TenantInvitation}
use multitenancy.Platform.{Platform, Migration}
use multitenancy.Repository.{tenants_repository, invitations_repository, find_one}
use multitenancy.Repository.Runs.{Runs-find_one}
use multitenancy.Migrations.{CheckedIn, public_tables, tenant_template, tenant_acme}
use multitenancy.Auth.{SignupDto, signup}
use multitenancy.Invitations.{
  CreateInvitationDto, AcceptInvitationDto, RevokeInvitationDto, invite_user_to_tenant,
  accept_tenant_invitation, revoke_invitation,
}

pub record SourceFile : Type 0 where
  pub folder : String
  pub name : String
  pub extension : String

matches : Pattern → SourceFile → Bool
matches p f = p.folder == f.folder && p.extension == f.extension

matches_any : List Pattern → SourceFile → Bool
unfolding matches
matches_any [] f = false
matches_any (p ∷ ps) f = matches p f || matches_any ps f

-- below src/database or, compiled, below dist/database
abbrev below : CheckedIn → String
below public_tables = "/database/migrations"
below tenant_template = "/database/migrations"
below tenant_acme = "/database/migrations/tenant"

abbrev name_of : CheckedIn → String
name_of public_tables = "1781867559778-public"
name_of tenant_template = "1781867578704-tenant"
name_of tenant_acme = "1781867683948-add-index-to-products"

unfoldable pub checked_out : CheckedIn → SourceFile
checked_out f = record { folder = "src" ++ below f; name = name_of f; extension = "ts" }

unfoldable pub compiled : CheckedIn → SourceFile
compiled f = record { folder = "dist" ++ below f; name = name_of f; extension = "js" }

abbrev pub all_files : List CheckedIn
all_files = public_tables ∷ tenant_template ∷ tenant_acme ∷ []

-- the files, placed by `place`, that a data source with these patterns loads
unfoldable pub found : (CheckedIn → SourceFile) → List Pattern → List CheckedIn → List CheckedIn
unfolding matches_any
found place ps [] = []
found place ps (f ∷ fs) =
    let rest = found place ps fs in if matches_any ps (place f) then f ∷ rest else rest

-- what a migration does to the tables of the platform, where there are none
unfoldable pub apply : CheckedIn → World → World
apply public_tables w = record w { public = some (record { tenants = []; invitations = [] }) }
apply _ w = w

unfoldable pub apply_all : List CheckedIn → World → World
unfolding apply
apply_all [] w = w
apply_all (f ∷ fs) w = apply_all fs (apply f w)

-- A data source of the compiled application is initialized: `migrationsRun`.
unfoldable pub start_up : DataSourceOptions → World → World
unfolding found apply_all compiled
start_up options w =
    if options.migrations_run then apply_all (found compiled options.migrations all_files) w else w

-- `npm run migration:run:…`
unfoldable pub run_by_hand : DataSourceOptions → World → World
unfolding found apply_all checked_out
run_by_hand options w = apply_all (found checked_out options.migrations all_files) w

module _ (sys : Platform) (ups : List Migration) where
  -- the platform has no tables
  abbrev Bare : World → Type 0
  Bare w = w.public ≡ none

  abbrev NeverFrom : {A : Type 0} → Action A → Type 0
  NeverFrom m = Runs Bare m (λ _ _. ⊥) (λ _ _. Unit {0})

  tenants-never :
      {A : Type 0} (p : Tenant → Bool) (f : Option Tenant → Action A)
      → NeverFrom (find_one sys tenants_repository p >>= f)
  tenants-never p f =
      Runs-bind _ _ (λ _ _. ⊥)
        (Runs-find_one sys tenants_repository (λ x w h. tt) p (λ w rows bare e. ground arith))
        λ existing. record { at = λ w h. absurd h }

  invitations-never :
      {A : Type 0} (p : TenantInvitation → Bool) (f : Option TenantInvitation → Action A)
      → NeverFrom (find_one sys invitations_repository p >>= f)
  invitations-never p f =
      Runs-bind _ _ (λ _ _. ⊥)
        (Runs-find_one sys invitations_repository (λ x w h. tt) p (λ w rows bare e. ground arith))
        λ existing. record { at = λ w h. absurd h }

  signup-never : (dto : SignupDto) → NeverFrom (signup sys ups dto)
  unfolding signup
  signup-never dto = tenants-never _ _

  invite-never :
      (schema inviter : String) (dto : CreateInvitationDto)
      → NeverFrom (invite_user_to_tenant sys ups schema inviter dto)
  unfolding invite_user_to_tenant
  invite-never schema inviter dto = invitations-never _ _

  accept-never : (dto : AcceptInvitationDto) → NeverFrom (accept_tenant_invitation sys ups dto)
  unfolding accept_tenant_invitation
  accept-never dto = invitations-never _ _

  revoke-never : (dto : RevokeInvitationDto) → NeverFrom (revoke_invitation sys ups dto)
  unfolding revoke_invitation
  revoke-never dto = invitations-never _ _

  -- the action answers with an exception in the state `w`
  abbrev pub Refuses : {A : Type 0} → Action A → World → Type 0
  Refuses {A} m w = (out : A) → (m w).0 ≢ ok out

  -- On a database without the tables of the platform, neither running the migrations from the command
  -- line, with both data sources, nor starting the application makes them, whatever the settings; and
  -- every signup, invitation, acceptance and revocation is then refused.
  pub fresh_start-Refuses :
      (env : String → Option String) (w : World)
      → w.public ≡ none
      → let v =
          start_up
            (application env)
            (run_by_hand (public_command_line env) (run_by_hand (tenant_command_line env) w)) in
        (v.public ≡ none)
        × ((dto : SignupDto) → Refuses (signup sys ups dto) v)
        × ((schema inviter : String) (dto : CreateInvitationDto)
            → Refuses (invite_user_to_tenant sys ups schema inviter dto) v)
        × ((dto : AcceptInvitationDto) → Refuses (accept_tenant_invitation sys ups dto) v)
        × ((dto : RevokeInvitationDto) → Refuses (revoke_invitation sys ups dto) v)
  unfolding start_up run_by_hand
  fresh_start-Refuses env w bare = (
    bare,
    λ dto out. no_result (signup sys ups dto w) out ((signup-never dto).at w bare),
    λ schema inviter dto out.
        no_result (invite_user_to_tenant sys ups schema inviter dto w) out
          ((invite-never schema inviter dto).at w bare),
    λ dto out.
        no_result (accept_tenant_invitation sys ups dto w) out ((accept-never dto).at w bare),
    λ dto out. no_result (revoke_invitation sys ups dto w) out ((revoke-never dto).at w bare),
  )
