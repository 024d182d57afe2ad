-- ===== src/Invitations.antt =====
-- `TenantService` of src/tenant/tenant.service.ts and the cron job of
-- src/tenant/tenant-invitation-cleanup.service.ts: the life of an invitation.
pub mod Progress
pub mod Settling
pub mod Tracking
pub mod Lifecycle
pub mod Acceptance
pub mod Single
pub mod Repeats
pub mod Cleanup
pub mod Offers
pub mod Lifetime
pub mod Joining
use multitenancy.Prelude.{
  ℕ, ◌+◌, ◌*◌, String, Bool, true, false, Option, none, some, List, ◌&&◌, ◌==◌, ltb, not,
  if◌then◌else◌,
}
use multitenancy.Enums.{InvitationStatus, pending, accepted, revoked, expired, Role, member}
use multitenancy.Exceptions.{bad_request, duplicate_resource, resource_not_found}
use multitenancy.Entities.{BaseEntity, TenantInvitation, User}
use multitenancy.World.{World, Action, pure, raise, gets, raise_if, or_raise, is_some, ◌>>=◌, ◌>>◌}
use multitenancy.Platform.{Platform, Migration}
use multitenancy.Repository.{
  invitations_repository, users_repository, find_one, save, update, update_where,
}
use multitenancy.Provisioning.{get_data_source}
use multitenancy.Utils.{hash_password}

-- src/tenant/dto/index.dto.ts
pub record CreateInvitationDto : Type 0 where
  pub email : String
  pub role : Option Role

pub record AcceptInvitationDto : Type 0 where
  pub token : String
  pub password : String
  pub display_name : String

pub record RevokeInvitationDto : Type 0 where
  pub email : String

abbrev pub is_pending : InvitationStatus → Bool
is_pending InvitationStatus.pending = true
is_pending _ = false

abbrev pub not_pending : TenantInvitation → Bool
not_pending i = not (is_pending i.status)

-- the default of the column `role`
abbrev pub role_or_default : Option Role → Role
role_or_default none = member
role_or_default (some r) = r

-- `24 * 60 * 60 * 1000`
abbrev invitation_lifetime : ℕ
invitation_lifetime = 24 * 60 * 60 * 1000

abbrev pub invitation_of :
    String → String → CreateInvitationDto → String → ℕ → BaseEntity → TenantInvitation
invitation_of schema inviter dto token now base = record {
  base = base;
  tenant_schema = schema;
  status = InvitationStatus.pending;
  email = dto.email;
  role = role_or_default dto.role;
  token = token;
  invited_by_user_id = inviter;
  expires_at = now + invitation_lifetime;
  accepted_at = none;
  revoked_at = none;
}

abbrev pub member_of : TenantInvitation → AcceptInvitationDto → String → ℕ → BaseEntity → User
member_of invitation dto password_hash now base = record {
  base = base;
  email = invitation.email;
  role = invitation.role;
  password_hash = some password_hash;
  display_name = dto.display_name;
  avatar_url = none;
  activated_at = some now;
  password_changed_at = none;
  last_login_date = none;
}

-- the `where` clauses
abbrev pub is_open_for : String → String → TenantInvitation → Bool
is_open_for email schema i = i.email == email && i.tenant_schema == schema && is_pending i.status

abbrev pub has_open_token : String → TenantInvitation → Bool
has_open_token token i = i.token == token && is_pending i.status

abbrev pub is_open_to : String → TenantInvitation → Bool
is_open_to email i = i.email == email && is_pending i.status

abbrev pub is_stale : ℕ → TenantInvitation → Bool
is_stale now i = is_pending i.status && ltb i.expires_at now

-- what the updates set
abbrev pub mark_accepted : ℕ → TenantInvitation → TenantInvitation
mark_accepted now i = record i { status = accepted; accepted_at = some now }

abbrev pub mark_revoked : ℕ → TenantInvitation → TenantInvitation
mark_revoked now i = record i { status = revoked; revoked_at = some now }

abbrev pub mark_expired : TenantInvitation → TenantInvitation
mark_expired i = record i { status = expired }

module _ (sys : Platform) (ups : List Migration) where
  unfoldable pub invite_user_to_tenant :
      String → String → CreateInvitationDto → Action TenantInvitation
  invite_user_to_tenant schema invited_user_id dto = do
    existing ← find_one sys invitations_repository (is_open_for dto.email schema)
    raise_if (is_some existing) (duplicate_resource "INVITATION" dto.email)
    token ← gets (λ w. sys.uuid_v4 w.calls)
    tenant_db ← get_data_source sys ups schema
    existing_user ← find_one sys (users_repository tenant_db) (λ u. u.email == dto.email)
    raise_if (is_some existing_user) (duplicate_resource "USER" dto.email)
    now ← gets (λ w. w.clock)
    save sys invitations_repository (invitation_of schema invited_user_id dto token now)

  -- `new Date()` when the update is built
  unfoldable pub stamp_invitation :
      String → (ℕ → TenantInvitation → TenantInvitation) → Action (Unit {0})
  stamp_invitation id f w = update sys invitations_repository id (f w.clock) w

  -- what `acceptTenantInvitation` does with an invitation that has not expired
  unfoldable pub join_tenant : AcceptInvitationDto → TenantInvitation → Action User
  unfolding stamp_invitation
  join_tenant dto invitation = do
    tenant_db ← get_data_source sys ups invitation.tenant_schema
    existing_user ← find_one sys (users_repository tenant_db) (λ u. u.email == invitation.email)
    raise_if (is_some existing_user) (bad_request "User already exists in tenant")
    password_hash ← hash_password sys dto.password
    now ← gets (λ w. w.clock)
    saved_user ← save sys (users_repository tenant_db) (member_of invitation dto password_hash now)
    stamp_invitation invitation.base.id mark_accepted
    pure saved_user

  unfoldable pub refuse_expired : TenantInvitation → Action User
  refuse_expired invitation =
      update sys invitations_repository invitation.base.id mark_expired
      >> raise (bad_request "Invitation has expired")

  unfoldable pub accept_tenant_invitation : AcceptInvitationDto → Action User
  accept_tenant_invitation dto = do
    found ← find_one sys invitations_repository (has_open_token dto.token)
    invitation ← or_raise found (resource_not_found "INVITATION" dto.token)
    raise_if (not_pending invitation) (bad_request "Invitation is not pending")
    now ← gets (λ w. w.clock)
    if ltb invitation.expires_at now then refuse_expired invitation else join_tenant dto invitation

  unfoldable pub revoke_invitation : RevokeInvitationDto → Action (Unit {0})
  unfolding stamp_invitation
  revoke_invitation dto = do
    found ← find_one sys invitations_repository (is_open_to dto.email)
    invitation ← or_raise found (resource_not_found "INVITATION" dto.email)
    stamp_invitation invitation.base.id mark_revoked

  -- the cron job, every day at midnight
  unfoldable pub expire_stale_invitations : Action (Unit {0})
  expire_stale_invitations w =
      update_where sys invitations_repository (is_stale w.clock) mark_expired w
