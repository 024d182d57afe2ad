-- ===== src/Races/Requests.antt =====
-- The requests of src/tenant/tenant.service.ts, the job of
-- src/tenant/tenant-invitation-cleanup.service.ts and the connection that they take from
-- src/database/tenant-datasource.service.ts, as processes.
pub mod Alone
pub mod Overlap
use multitenancy.Prelude.{ℕ, ◌+◌, String, Option, List, ◌∷◌, ◌==◌, ltb, if◌then◌else◌}
use multitenancy.Exceptions.{bad_request, duplicate_resource, resource_not_found}
use multitenancy.Entities.{TenantInvitation, User}
use multitenancy.Cache
use multitenancy.World.{World, DataSource, raise, gets, raise_if, or_raise, modify, is_some}
use multitenancy.Platform.{Platform, Migration}
use multitenancy.Repository.{invitations_repository, users_repository, find_one, save, update}
use multitenancy.Provisioning.{data_source, initialize, run_migrations, cached}
use multitenancy.Utils.{hash_password}
use multitenancy.Invitations.{
  CreateInvitationDto, AcceptInvitationDto, RevokeInvitationDto, not_pending, invitation_of,
  member_of, is_open_for, has_open_token, is_open_to, mark_accepted, mark_revoked, mark_expired,
  stamp_invitation, expire_stale_invitations,
}
use multitenancy.Races.{Process, step, once, finished, ◌>>=◌, ◌>>◌, forget, Pool, turn}

-- What reaches the invitations: the three requests and the job.
pub data Request : Type 0 where
  invites : String → String → CreateInvitationDto → Request
  accepts : AcceptInvitationDto → Request
  revokes : RevokeInvitationDto → Request
  cleans : Request

-- the requests that are under way, and the state
pub record Traffic : Type 0 where
  pub pool : Pool
  pub world : World

module _ (sys : Platform) (ups : List Migration) where
  unfoldable pub provision : String → Process DataSource
  provision schema_name = do
    once (initialize sys ups)
    once (run_migrations sys ups schema_name)
    once (
        modify (λ w. record w {
          connections = Cache.set schema_name (data_source schema_name) w.connections;
        }))
    finished (data_source schema_name)

  -- the cache is read in one piece
  unfoldable pub get_data_source : String → Process DataSource
  unfolding provision
  get_data_source schema_name =
      step (λ w. w)
        λ w.
          if Cache.has schema_name w.connections
          then once (cached sys ups (Cache.get schema_name w.connections))
          else provision schema_name

  unfoldable pub invite_user_to_tenant :
      String → String → CreateInvitationDto → Process TenantInvitation
  invite_user_to_tenant schema invited_user_id dto = do
    existing ← once (find_one sys invitations_repository (is_open_for dto.email schema))
    once (raise_if (is_some existing) (duplicate_resource "INVITATION" dto.email))
    token ← once (gets (λ w. sys.uuid_v4 w.calls))
    tenant_db ← get_data_source schema
    existing_user ← once (find_one sys (users_repository tenant_db) (λ u. u.email == dto.email))
    once (raise_if (is_some existing_user) (duplicate_resource "USER" dto.email))
    now ← once (gets (λ w. w.clock))
    once (save sys invitations_repository (invitation_of schema invited_user_id dto token now))

  unfoldable pub join_tenant : AcceptInvitationDto → TenantInvitation → Process User
  join_tenant dto invitation = do
    tenant_db ← get_data_source invitation.tenant_schema
    existing_user ←
        once (find_one sys (users_repository tenant_db) (λ u. u.email == invitation.email))
    once (raise_if (is_some existing_user) (bad_request "User already exists in tenant"))
    password_hash ← once (hash_password sys dto.password)
    now ← once (gets (λ w. w.clock))
    saved_user ←
        once (save sys (users_repository tenant_db) (member_of invitation dto password_hash now))
    once (stamp_invitation sys ups invitation.base.id mark_accepted)
    finished saved_user

  unfoldable pub refuse_expired : TenantInvitation → Process User
  refuse_expired invitation =
      once (update sys invitations_repository invitation.base.id mark_expired)
      >> once (raise (bad_request "Invitation has expired"))

  unfoldable pub accept_tenant_invitation : AcceptInvitationDto → Process User
  accept_tenant_invitation dto = do
    found ← once (find_one sys invitations_repository (has_open_token dto.token))
    invitation ← once (or_raise found (resource_not_found "INVITATION" dto.token))
    once (raise_if (not_pending invitation) (bad_request "Invitation is not pending"))
    now ← once (gets (λ w. w.clock))
    if ltb invitation.expires_at now then refuse_expired invitation else join_tenant dto invitation

  unfoldable pub revoke_invitation : RevokeInvitationDto → Process (Unit {0})
  revoke_invitation dto = do
    found ← once (find_one sys invitations_repository (is_open_to dto.email))
    invitation ← once (or_raise found (resource_not_found "INVITATION" dto.email))
    once (stamp_invitation sys ups invitation.base.id mark_revoked)

  unfoldable pub process : Request → Process (Unit {0})
  process (invites schema inviter dto) = forget (invite_user_to_tenant schema inviter dto)
  process (accepts dto) = forget (accept_tenant_invitation dto)
  process (revokes dto) = revoke_invitation dto
  process cleans = once (expire_stale_invitations sys ups)

  -- A request comes in, one of those under way takes a step, or time goes by.
  pub data Next : Traffic → Traffic → Type 0 where
    comes_in : (t : Traffic) (r : Request) → Next t (record t { pool = process r ∷ t.pool })
    takes_turn :
        (t : Traffic) (i : ℕ)
        → Next t (record { pool = (turn i t.pool t.world).0; world = (turn i t.pool t.world).1 })
    time_passes :
        (t : Traffic) (n : ℕ)
        → Next t (record t { world = record t.world { clock = t.world.clock + n } })

  pub data Reach (u : Traffic) : Traffic → Type 0 where
    start : Reach u u
    then_next : {v w : Traffic} → Reach u v → Next v w → Reach u w
