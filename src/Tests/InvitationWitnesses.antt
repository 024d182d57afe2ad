-- ===== src/Tests/InvitationWitnesses.antt =====
-- The theorems on invitations at concrete inputs.
use multitenancy.Prelude.{◌+◌, ◌≤◌, true}
use mathlib.Core.Path.{subst}
use multitenancy.Repository.Rows.{Distinct}
use multitenancy.Prelude.Assoc.{find}
use multitenancy.Cache
use multitenancy.Provisioning.{no_rows, data_source}
use multitenancy.Provisioning.Isolation.{IsKeyed}
use multitenancy.World.{Result}
use multitenancy.Invitations.{CreateInvitationDto, invite_user_to_tenant}
use multitenancy.Invitations.Offers.{Invited, invite_offers, Revoked, revoke_revokes}
use multitenancy.Tests.Memory.{value_or}
use multitenancy.Prelude.{arith, eq_iff, eq_of_some_eq, none, some, List, [], ◌∷◌, refl}
use multitenancy.Enums.{InvitationStatus}
use multitenancy.Entities.{TenantInvitation}
use multitenancy.World.{World}
use multitenancy.Provisioning.{create_tables}
use multitenancy.Platform.{Migration}
use multitenancy.Invitations.{RevokeInvitationDto, revoke_invitation}
use multitenancy.Invitations.Lifecycle.{Reach, Reach-Track, start, then_step, revokes, waits}
use multitenancy.Invitations.Single.{Reach-OneOpen}
use multitenancy.Invitations.Repeats.{OneOpen, open_twice}
use multitenancy.Invitations.Progress.{Tracked}
use multitenancy.Enums.{member}
use multitenancy.Tests.Memory.{memory, empty_world}

abbrev offered : TenantInvitation
offered = record {
  base = record { id = "i1"; created_at = 0; updated_at = 0 };
  tenant_schema = "acme";
  status = InvitationStatus.pending;
  email = "ann@acme.io";
  role = member;
  token = "t1";
  invited_by_user_id = "u1";
  expires_at = 86400000;
  accepted_at = none;
  revoked_at = none;
}

abbrev offered_world : World
offered_world = record empty_world {
  public = some (record { tenants = []; invitations = offered ∷ [] });
}

abbrev ups : List Migration
ups = create_tables "acme" ∷ []

abbrev waited_world : World
waited_world = record offered_world { clock = 5 }

abbrev to_ann : RevokeInvitationDto
to_ann = record { email = "ann@acme.io" }

abbrev revoked_world : World
revoked_world = (revoke_invitation memory ups to_ann waited_world).1

revoked_later : Reach memory ups offered_world revoked_world
revoked_later = then_step (then_step start (waits offered_world 5)) (revokes to_ann waited_world)

Reach-Track_example : Tracked (offered ∷ []) revoked_world
Reach-Track_example = Reach-Track memory ups (offered ∷ []) revoked_later refl (tt, tt)

offered-OneOpen : OneOpen offered_world
offered-OneOpen rows e = subst (Distinct open_twice) (eq_of_some_eq (offered ∷ []) rows e) (tt, tt)

Reach-OneOpen_example : OneOpen revoked_world
Reach-OneOpen_example = Reach-OneOpen memory ups revoked_later offered-OneOpen

abbrev acme_world : World
acme_world = record offered_world {
  schemas = ("acme", record { migrated = true; tables = some no_rows }) ∷ [];
  connections = record { cache = ("acme", data_source "acme") ∷ [] };
}

acme-IsKeyed : IsKeyed acme_world
unfolding Cache.get find
acme-IsKeyed k ds e = ground (arith, eq_iff "acme" k)

abbrev for_bob : CreateInvitationDto
for_bob = record { email = "bob@acme.io"; role = none }

abbrev after_invitation : Result TenantInvitation × World
after_invitation = invite_user_to_tenant memory ups "acme" "u1" for_bob acme_world

invite_offers_example :
    Invited memory ups "acme" "u1" for_bob (value_or offered after_invitation.0) after_invitation.1
    × (acme_world.clock + 86400000 ≤ (value_or offered after_invitation.0).expires_at)
unfolding invite_user_to_tenant multitenancy.World.◌>>=◌ multitenancy.Repository.find_one
    multitenancy.Provisioning.get_data_source Cache.has find Cache.get multitenancy.World.tables_of
    multitenancy.Repository.save
invite_offers_example =
    invite_offers memory ups "acme" "u1" for_bob acme_world after_invitation.1
      (value_or offered after_invitation.0) acme-IsKeyed refl

revoke_revokes_example : Revoked memory ups (offered ∷ []) to_ann revoked_world
unfolding revoke_invitation multitenancy.World.◌>>=◌ multitenancy.Repository.find_one
    multitenancy.Repository.update multitenancy.Repository.update_where
revoke_revokes_example =
    revoke_revokes memory ups to_ann waited_world revoked_world (offered ∷ []) refl refl
