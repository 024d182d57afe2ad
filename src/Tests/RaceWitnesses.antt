-- ===== src/Tests/RaceWitnesses.antt =====
-- Requests that overlap, at concrete inputs.
use multitenancy.Prelude.{ℕ, Bool, true, none, Option, some, List, [], ◌∷◌, ◌≡◌, refl, map}
use multitenancy.Enums.{InvitationStatus}
use multitenancy.Entities.{TenantInvitation}
use multitenancy.Prelude.Assoc.{find}
use multitenancy.Cache
use multitenancy.World.{World, is_some, PublicTables}
use multitenancy.Repository.{invitations_repository}
use multitenancy.Invitations.{
  CreateInvitationDto, AcceptInvitationDto, RevokeInvitationDto, join_tenant,
}
use multitenancy.Races.{run, turn}
use multitenancy.Races.Invariant.{Kept}
use multitenancy.Races.Requests.{
  Traffic, Reach, Request, accepts, revokes, start, then_next, comes_in, takes_turn, process,
  invite_user_to_tenant, accept_tenant_invitation, revoke_invitation,
}
use multitenancy.Races.Requests.Overlap.{Reach-Kept}
use multitenancy.Races.Unnoticed.{with_public, join_tenant_blind}
use multitenancy.Invitations
use multitenancy.Tests.Memory.{memory}
use multitenancy.Tests.Acme.{acme_world, invitation, acme, ups}

abbrev bob : AcceptInvitationDto
bob = record { token = "t1"; password = "pass"; display_name = "Bob" }

abbrev recall : RevokeInvitationDto
recall = record { email = "bob@acme.io" }

abbrev to_eve : CreateInvitationDto
to_eve = record { email = "eve@acme.io"; role = none }

abbrev idle : Traffic
idle = record { pool = []; world = acme_world }

-- The acceptance reads the invitation, then the revocation runs to its end, then the rest of the
-- acceptance.
abbrev schedule : List ℕ
schedule = 0 ∷ 1 ∷ 1 ∷ 1 ∷ 0 ∷ 0 ∷ 0 ∷ 0 ∷ 0 ∷ 0 ∷ 0 ∷ 0 ∷ 0 ∷ 0 ∷ 0 ∷ 0 ∷ []

abbrev both : Traffic
both = record {
  pool = process memory ups (accepts bob) ∷ process memory ups (revokes recall) ∷ [];
  world = acme_world;
}

play : List ℕ → Traffic → Traffic
unfolding turn
play [] t = t
play (i ∷ is) t =
    play is (record { pool = (turn i t.pool t.world).0; world = (turn i t.pool t.world).1 })

play-Reach : (s t : Traffic) (is : List ℕ) → Reach memory ups s t → Reach memory ups s (play is t)
unfolding play
play-Reach s t [] r = r
play-Reach s t (i ∷ is) r =
    play-Reach s (record { pool = (turn i t.pool t.world).0; world = (turn i t.pool t.world).1 }) is
      (then_next r (takes_turn t i))

both_reached : Reach memory ups idle both
both_reached =
    then_next (then_next start (comes_in idle (revokes recall)))
      (comes_in (record idle { pool = process memory ups (revokes recall) ∷ [] }) (accepts bob))

Reach-Kept_example : Kept (invitation ∷ []) (play schedule both).world
Reach-Kept_example =
    Reach-Kept memory ups (invitation ∷ []) (play-Reach idle both schedule both_reached) refl refl
      (tt, tt)

abbrev ends_of : World → List (InvitationStatus × Bool)
ends_of w = elim (invitations_repository.rows w) [
  | none ↦ []
  | some rows ↦ map (λ (x : TenantInvitation). (x.status, is_some x.revoked_at)) rows
]

-- Here the revocation has succeeded, and the acceptance succeeds all the same.
accepted_after_revocation :
    ends_of (play schedule both).world ≡ (InvitationStatus.accepted, true) ∷ []
unfolding play turn process multitenancy.Races.advance multitenancy.Races.◌>>=◌
    accept_tenant_invitation multitenancy.Repository.find_one multitenancy.World.or_raise
    multitenancy.World.raise_if multitenancy.World.gets revoke_invitation
    Invitations.stamp_invitation multitenancy.Repository.update multitenancy.Repository.update_where
    multitenancy.Races.Requests.join_tenant multitenancy.Races.Requests.get_data_source Cache.has
    find multitenancy.Provisioning.cached Cache.get multitenancy.Repository.on_rows
    multitenancy.Repository.save multitenancy.Repository.statement multitenancy.Utils.hash_password
    multitenancy.World.pure multitenancy.World.set_tables multitenancy.World.tables_of
    multitenancy.Prelude.Assoc.put
accepted_after_revocation = refl

abbrev as_found : PublicTables
as_found = record { tenants = acme ∷ []; invitations = invitation ∷ [] }

abbrev as_revoked : PublicTables
as_revoked = record {
  tenants = acme ∷ [];
  invitations = Invitations.mark_revoked 1 invitation ∷ [];
}

join_tenant_blind_example :
    (join_tenant memory ups bob invitation (with_public as_found acme_world)).0
    ≡ (join_tenant memory ups bob invitation (with_public as_revoked acme_world)).0
join_tenant_blind_example =
    join_tenant_blind memory ups bob invitation as_found as_revoked acme_world
