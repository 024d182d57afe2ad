-- ===== src/Invitations/Lifecycle.antt =====
-- The life of the invitations: the requests and the job that change them, as steps, and what holds along
-- any sequence of them (src/tenant/tenant.service.ts and src/tenant/tenant-invitation-cleanup.service.ts).
use multitenancy.Prelude.{◌+◌, ℕ, String, some, List, ◌≡◌}
use multitenancy.Entities.{TenantInvitation}
use multitenancy.World.{World}
use multitenancy.Platform.{Platform, Migration}
use multitenancy.Repository.{invitations_repository}
use multitenancy.Invitations.{
  CreateInvitationDto, AcceptInvitationDto, RevokeInvitationDto, invite_user_to_tenant,
  accept_tenant_invitation, revoke_invitation, expire_stale_invitations,
}
use multitenancy.Invitations.Progress.{IsDistinct, Tracked, Track, Track-order}
use multitenancy.Invitations.Tracking.{invite-Track, accept-Track, revoke-Track, expire-Track}

module _ (sys : Platform) (ups : List Migration) where
  -- One request or job on the invitations, or time going by.
  pub data Step : World → World → Type 0 where
    invites :
        (schema inviter : String) (dto : CreateInvitationDto) (w : World)
        → Step w (invite_user_to_tenant sys ups schema inviter dto w).1
    accepts :
        (dto : AcceptInvitationDto) (w : World) → Step w (accept_tenant_invitation sys ups dto w).1
    revokes : (dto : RevokeInvitationDto) (w : World) → Step w (revoke_invitation sys ups dto w).1
    cleans : (w : World) → Step w (expire_stale_invitations sys ups w).1
    waits : (w : World) (n : ℕ) → Step w (record w { clock = w.clock + n })

  pub data Reach (u : World) : World → Type 0 where
    start : Reach u u
    then_step : {v w : World} → Reach u v → Step v w → Reach u w

  Step-Track : {v w : World} → Step v w → Track v w
  Step-Track (invites schema inviter dto w) = (invite-Track sys ups schema inviter dto).at w
  Step-Track (accepts dto w) = (accept-Track sys ups dto).at w
  Step-Track (revokes dto w) = (revoke-Track sys ups dto).at w
  Step-Track (cleans w) = (expire-Track sys ups).at w
  Step-Track (waits w n) = Track-order.same w

  follow-Track : {u w : World} → Reach u w → Track u w
  follow-Track {u} start = Track-order.same u
  follow-Track {u} (then_step {v} {w} r s) = Track-order.after u v w (follow-Track r) (Step-Track s)

  -- From a table of invitations without clashes, along any sequence of invitations, acceptances,
  -- revocations, cleanups and waits, each of them successful or not: the table keeps its rows in order
  -- and stays without clashes, a row that is not pending never changes again, and a pending row is
  -- either unchanged or has the same offer with a final status, dated if it was accepted or revoked.
  pub Reach-Track :
      {u w : World} (xs : List TenantInvitation)
      → Reach u w
      → invitations_repository.rows u ≡ some xs
      → IsDistinct xs
      → Tracked xs w
  Reach-Track xs reached there distinct = follow-Track reached xs there distinct
