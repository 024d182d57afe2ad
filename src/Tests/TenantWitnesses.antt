-- ===== src/Tests/TenantWitnesses.antt =====
-- The theorems on requests, routes and invitations at concrete inputs.
use multitenancy.Prelude.{String, true, none, some, List, [], ◌∷◌, ◌≡◌, refl}
use multitenancy.Prelude.Assoc.{find}
use multitenancy.Enums.{member}
use multitenancy.Entities.{TenantInvitation, User}
use multitenancy.Cache
use multitenancy.World.{World, Schema, DataSource, PublicTables, TenantTables, Result, ok, err}
use multitenancy.Platform.{TokenPayload}
use multitenancy.Provisioning.{data_source, no_rows, create_tables}
use multitenancy.Requests.{Request, use_tenant}
use multitenancy.Requests.Tenants.{Resolved, use_tenant_resolves}
use multitenancy.Controllers.Claims.{IgnoresClaims, routes_ignore_claims}
use multitenancy.Invitations.{
  AcceptInvitationDto, CreateInvitationDto, accept_tenant_invitation, expire_stale_invitations,
  invite_user_to_tenant,
}
use multitenancy.Invitations.Acceptance.{Accepted, accept_joins}
use multitenancy.Invitations.Cleanup.{Swept, expire_sweeps}
use multitenancy.Repository.{invitations_repository}
use multitenancy.Tests.Memory.{memory, value_or}
use multitenancy.Tests.Acme.{
  row_base, acme, invitation, public_tables, acme_world, acme-IsKeyed, ups,
}

abbrev request : String → Request
request hostname = record { hostname = hostname; slug_header = none; tenant = none; user = none }

use_tenant_resolves_example :
    Resolved "acme" (acme ∷ []) (use_tenant memory true (request "acme.example.com") acme_world)
unfolding multitenancy.Validation.valid_slug
use_tenant_resolves_example =
    use_tenant_resolves memory (request "acme.example.com") "acme" "example.com" acme_world
      public_tables refl refl refl refl refl

abbrev claims : TokenPayload
claims = record { sub = "u1"; role = "member"; schema_name = "acme" }

abbrev tenant_request : Request
tenant_request = record (request "acme.example.com") { tenant = some acme }

routes_ignore_claims_example :
    IgnoresClaims memory ups tenant_request claims "owner" "beta" acme_world
routes_ignore_claims_example =
    routes_ignore_claims memory ups tenant_request claims "owner" "beta" acme_world

abbrev bob : AcceptInvitationDto
bob = record { token = "t1"; password = "pass"; display_name = "Bob" }

abbrev no_user : User
no_user = record {
  base = row_base;
  email = "";
  role = member;
  password_hash = none;
  display_name = "";
  avatar_url = none;
  activated_at = none;
  password_changed_at = none;
  last_login_date = none;
}

abbrev after_acceptance : Result User × World
after_acceptance = accept_tenant_invitation memory ups bob acme_world

accept_joins_example :
    Accepted memory ups
      (invitation ∷ [])
      0
      bob
      (value_or no_user after_acceptance.0)
      after_acceptance.1
unfolding accept_tenant_invitation multitenancy.World.◌>>=◌ multitenancy.Repository.find_one
    multitenancy.Invitations.join_tenant multitenancy.Provisioning.get_data_source Cache.has find
    Cache.get multitenancy.World.tables_of multitenancy.Utils.hash_password
    multitenancy.Repository.save multitenancy.Repository.update multitenancy.Repository.update_where
accept_joins_example =
    accept_joins memory ups bob acme_world after_acceptance.1 (invitation ∷ [])
      (value_or no_user after_acceptance.0) acme-IsKeyed refl refl

abbrev late_world : World
late_world = record acme_world { clock = 86400001 }

expire_sweeps_example :
    let (r, v) = expire_stale_invitations memory ups late_world in
    (r ≡ ok tt)
    × ((after : List TenantInvitation) × (invitations_repository.rows v ≡ some after)
        × Swept 86400001 (invitation ∷ []) after)
expire_sweeps_example = expire_sweeps memory ups late_world (invitation ∷ []) refl refl
