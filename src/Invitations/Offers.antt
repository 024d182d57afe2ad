-- ===== src/Invitations/Offers.antt =====
-- What an invitation and a revocation that succeed have checked and done (`inviteUserToTenant` and
-- `revokeInvitation` of src/tenant/tenant.service.ts).
use multitenancy.Prelude.{
  ℕ, ◌+◌, ◌≤◌, String, true, false, none, some, List, [], ◌∷◌, ◌++◌, map, ◌≡◌, refl, sym, ◌∙◌,
  eq_of_some_eq, arith, ◌==◌, eq_iff, All, In, All-In, In-concat, if◌then◌else◌, and_parts,
}
use multitenancy.Enums.{InvitationStatus}
use multitenancy.Entities.{TenantInvitation, User}
use multitenancy.World.{World, ok}
use multitenancy.World.Runs.{
  Runs, Post, Runs-bind, Runs-gets, Runs-or_raise, Runs-raise_if, Runs-to,
}
use multitenancy.Platform.{Platform, Migration}
use multitenancy.Repository.{invitations_repository, users_repository, sent, generated, update}
use multitenancy.Repository.Runs.{Runs-find_one, Runs-save, Runs-update_where}
use multitenancy.Provisioning.{data_source}
use multitenancy.Provisioning.Isolation.{IsKeyed}
use multitenancy.Provisioning.Reuse.{Ready, get_data_source-Ready}
use multitenancy.Invitations.{
  CreateInvitationDto, RevokeInvitationDto, is_pending, is_open_to, role_or_default, invitation_of,
  mark_revoked, stamp_invitation, invite_user_to_tenant, revoke_invitation,
}
use multitenancy.Invitations.Joining.{pending-of}
use multitenancy.Invitations.Lifetime.{invite-Late}
use multitenancy.Invitations.Repeats.{none-of}

-- the rows with the identity of the invitation are revoked
abbrev AllRevoked : String → List TenantInvitation → Type 0
AllRevoked id = All (λ z. (z.base.id == id) ≡ true → z.status ≡ InvitationStatus.revoked)

revoked-all :
    (id : String) (now at : ℕ) (rows : List TenantInvitation)
    → AllRevoked id (
        map
          (λ x. if x.base.id == id then invitations_repository.touch at (mark_revoked now x) else x)
          rows)
revoked-all id now at [] = tt
revoked-all id now at (x ∷ xs) = (ground arith, revoked-all id now at xs)

module _ (sys : Platform) (ups : List Migration) where
  -- `out` is an open invitation of the table with what the request says, for a day, and no user of the
  -- tenant has its address.
  abbrev pub Invited : String → String → CreateInvitationDto → TenantInvitation → World → Type 0
  Invited schema inviter dto out w =
      (out.email ≡ dto.email)
      × (out.tenant_schema ≡ schema)
      × (out.status ≡ InvitationStatus.pending)
      × (out.role ≡ role_or_default dto.role)
      × (out.invited_by_user_id ≡ inviter)
      × ((now : ℕ) × (out.expires_at ≡ now + 86400000) × (now ≤ w.clock))
      × ((rows : List TenantInvitation) × (invitations_repository.rows w ≡ some rows) × In out rows)
      × ((users : List User) × ((users_repository (data_source schema)).rows w ≡ some users)
          × All (λ u. (u.email == dto.email) ≡ false) users)

  -- no user of the schema has that address
  abbrev Unknown : String → String → World → Type 0
  Unknown schema email w =
      (users : List User) × ((users_repository (data_source schema)).rows w ≡ some users)
      × All (λ u. (u.email == email) ≡ false) users

  invite-Invited :
      (schema inviter : String) (dto : CreateInvitationDto)
      → Runs IsKeyed
          (invite_user_to_tenant sys ups schema inviter dto)
          (Invited schema inviter dto)
          (λ _ _. Unit {0})
  unfolding invite_user_to_tenant
  invite-Invited schema inviter dto =
      Runs-bind _ _ (λ _. IsKeyed)
        (Runs-find_one sys invitations_repository (λ x w p. tt) _ (λ w rows p e. p))
        λ existing.
          Runs-bind _ _ (λ _. IsKeyed) (Runs-raise_if _ _ (λ e w p. tt) (λ e w p. p))
            λ _.
              Runs-bind _ _ (λ _. IsKeyed) (Runs-gets _ (λ w p. p))
                λ token.
                  Runs-bind _ _ (λ ds w. ds ≡ data_source schema)
                    (Runs-to _ (Ready schema) (λ _ _. Unit {0}) (λ ds w r. r.0) (λ x w r. r)
                      (get_data_source-Ready sys ups schema))
                    λ ds.
                      Runs-bind _ _ (λ found w. found ≡ none → Unknown schema dto.email w)
                        (Runs-find_one sys (users_repository ds) (λ x w p. tt)
                          (λ u. u.email == dto.email)
                          λ w users same there nobody. (
                            users,
                            rw same at there,
                            sys.find_one_complete User (λ u. u.email == dto.email) users nobody,
                          ))
                        λ found.
                          Runs-bind _ _ (λ _. Unknown schema dto.email)
                            (Runs-raise_if _ _ (λ e w p. tt) (λ e w p. p (none-of found e)))
                            λ _.
                              Runs-bind _ _ (λ now w. Unknown schema dto.email w × (now ≤ w.clock))
                                (Runs-gets _ (λ w p. (p, omega arith)))
                                λ now.
                                  Runs-save sys invitations_repository (λ x w p. tt)
                                    (invitation_of schema inviter dto token now)
                                    λ w rows (unknown, early) e new.
                                      let out : TenantInvitation =
                                        invitation_of schema inviter dto token now
                                          (generated sys (sent sys w)) in
                                      (
                                        refl,
                                        refl,
                                        refl,
                                        refl,
                                        refl,
                                        (now, refl, ground arith),
                                        (rows ++ out ∷ [], ground arith, In-concat rows out),
                                        (unknown.0, ground (arith, unknown.1), unknown.2),
                                      )

  -- An invitation that succeeds, from connections keyed by their schemas, is in the table as an open
  -- one of that tenant, with the address, the role or `member`, the inviter, and a day to run from an
  -- instant between the start and the end of the request; and no user of the tenant has the address.
  pub invite_offers :
      (schema inviter : String) (dto : CreateInvitationDto) (w v : World) (out : TenantInvitation)
      → IsKeyed w
      → invite_user_to_tenant sys ups schema inviter dto w ≡ (ok out, v)
      → Invited schema inviter dto out v × (w.clock + 86400000 ≤ out.expires_at)
  invite_offers schema inviter dto w v out keyed done =
      let late : Post {A = TenantInvitation} (λ out u. w.clock + 86400000 ≤ out.expires_at)
          (λ _ _. Unit {0}) (invite_user_to_tenant sys ups schema inviter dto w) =
        (invite-Late sys ups w.clock schema inviter dto).at w (omega arith) in
      let posted : Post {A = TenantInvitation} (Invited schema inviter dto) (λ _ _. Unit {0})
          (invite_user_to_tenant sys ups schema inviter dto w) =
        (invite-Invited schema inviter dto).at w keyed in
      (rw done at posted, rw done at late)

  -- An open invitation for the address, of whatever tenant, is revoked.
  abbrev pub Revoked : List TenantInvitation → RevokeInvitationDto → World → Type 0
  Revoked rows dto w =
      (i : TenantInvitation) × In i rows
      × (i.email ≡ dto.email)
      × (i.status ≡ InvitationStatus.pending)
      × ((after : List TenantInvitation) × (invitations_repository.rows w ≡ some after)
          × AllRevoked i.base.id after)

  stamp-Revoked :
      (i : TenantInvitation)
      → Runs
          (λ _. Unit {0})
          (stamp_invitation sys ups i.base.id mark_revoked)
          (λ _ w.
            (after : List TenantInvitation) × (invitations_repository.rows w ≡ some after)
            × AllRevoked i.base.id after)
          (λ _ _. Unit {0})
  unfolding stamp_invitation update
  stamp-Revoked i = record {
    at = λ w h.
        (Runs-update_where sys invitations_repository {P = λ _. Unit {0}} (λ x w p. tt)
            (λ x. x.base.id == i.base.id) (mark_revoked w.clock)
            λ v rows p e. (
              map
                  (λ x.
                    if x.base.id == i.base.id
                    then invitations_repository.touch (sent sys v).clock (mark_revoked w.clock x)
                    else x)
                  rows,
              ground arith,
              revoked-all i.base.id w.clock (sent sys v).clock rows,
            )).at
          w h;
  }

  revoke-Revoked :
      (rows : List TenantInvitation) (dto : RevokeInvitationDto)
      → Runs
          (λ w. invitations_repository.rows w ≡ some rows)
          (revoke_invitation sys ups dto)
          (λ _. Revoked rows dto)
          (λ _ _. Unit {0})
  unfolding revoke_invitation
  revoke-Revoked rows dto =
      Runs-bind _ _
        (λ found w.
          (i : TenantInvitation) → found ≡ some i → In i rows × (is_open_to dto.email i ≡ true))
        (Runs-find_one sys invitations_repository (λ x w p. tt) (is_open_to dto.email)
          λ w there e e' i found.
            let again : there ≡ rows = eq_of_some_eq there rows (sym e' ∙ e) in
            let (fits, member) =
              sys.find_one_sound TenantInvitation (is_open_to dto.email) (λ x. In x rows) rows i
                (rw again at found) (All-In rows) in
            (member, fits))
        λ found.
          Runs-bind _ _ (λ i w. In i rows × (is_open_to dto.email i ≡ true))
            (Runs-or_raise found _ (λ e w p. tt) (λ i e w p. p i e))
            λ i. record {
              at = λ w (member, fits).
                  let (same, open_row) =
                    and_parts (i.email == dto.email) (is_pending i.status) fits in
                  (Runs-to _ _ (λ _ _. Unit {0})
                      (λ _ v h. (
                        i,
                        member,
                        (eq_iff i.email dto.email).0 same,
                        pending-of i.status open_row,
                        h,
                      ))
                      (λ x v h. h) (stamp-Revoked i)).at
                    w tt;
            }

  -- A revocation that succeeds has revoked an invitation of the table that was open for the address,
  -- of whatever tenant.
  pub revoke_revokes :
      (dto : RevokeInvitationDto) (w v : World) (rows : List TenantInvitation)
      → invitations_repository.rows w ≡ some rows
      → revoke_invitation sys ups dto w ≡ (ok tt, v)
      → Revoked rows dto v
  revoke_revokes dto w v rows e done =
      let posted : Post {A = Unit {0}} (λ _. Revoked rows dto) (λ _ _. Unit {0})
          (revoke_invitation sys ups dto w) =
        (revoke-Revoked rows dto).at w e in
      rw done at posted
