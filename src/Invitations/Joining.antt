-- ===== src/Invitations/Joining.antt =====
-- What the two writes of an acceptance leave: the user that joins and the invitation that is marked
-- (`acceptTenantInvitation` of src/tenant/tenant.service.ts).
use multitenancy.Prelude.{
  ℕ, String, true, some, List, [], ◌∷◌, ◌++◌, map, ◌≡◌, refl, arith, ◌==◌, ==_refl, All, In,
  In-concat, if◌then◌else◌, Option-cases, inl, inr,
}
use multitenancy.Enums.{InvitationStatus}
use multitenancy.Entities.{TenantInvitation, User}
use multitenancy.World.{World, DataSource, is_some, tables_of}
use multitenancy.World.Tables.{tables_of-set_tables}
use multitenancy.World.Runs.{Runs}
use multitenancy.Platform.{Platform, Migration}
use multitenancy.Repository.{
  invitations_repository, users_repository, sent, generated, save, update,
}
use multitenancy.Repository.Runs.{Runs-save, Runs-update_where}
use multitenancy.Provisioning.{data_source}
use multitenancy.Invitations.{
  AcceptInvitationDto, is_pending, member_of, mark_accepted, stamp_invitation,
}

users-write :
    (schema : String) (new rows : List User) (w : World)
    → (users_repository (data_source schema)).rows w ≡ some rows
    → (users_repository (data_source schema)).rows
        ((users_repository (data_source schema)).write new w)
      ≡ some new
users-write schema new rows w e = elim (Option-cases (tables_of schema w.schemas)) [
  | inl absent ↦ ground arith
  | inr (t, there) ↦ ground (
    arith,
    tables_of-set_tables schema schema (record t { users = new }) t w.schemas,
    ==_refl schema,
  )
]

-- the rows with the identity of the invitation are accepted
abbrev pub AllAccepted : String → List TenantInvitation → Type 0
AllAccepted id = All (λ z. (z.base.id == id) ≡ true → z.status ≡ InvitationStatus.accepted)

accepted-all :
    (id : String) (now at : ℕ) (rows : List TenantInvitation)
    → AllAccepted id (
        map
          (λ x.
            if x.base.id == id then invitations_repository.touch at (mark_accepted now x) else x)
          rows)
accepted-all id now at [] = tt
accepted-all id now at (x ∷ xs) = (ground arith, accepted-all id now at xs)

pub pending-of : (s : InvitationStatus) → is_pending s ≡ true → s ≡ InvitationStatus.pending
pending-of InvitationStatus.pending e = refl
pending-of InvitationStatus.accepted e = cc e
pending-of InvitationStatus.revoked e = cc e
pending-of InvitationStatus.expired e = cc e

module _ (sys : Platform) (ups : List Migration) where
  -- `out` is a user of the invitation's schema, made from the invitation and the password.
  abbrev pub Joined : TenantInvitation → AcceptInvitationDto → User → World → Type 0
  Joined i dto out w =
      (out.email ≡ i.email)
      × (out.role ≡ i.role)
      × (is_some out.activated_at ≡ true)
      × ((hash : String) × (out.password_hash ≡ some hash) × (sys.verify hash dto.password ≡ true))
      × ((users : List User) × ((users_repository (data_source i.tenant_schema)).rows w
            ≡ some users)
          × In out users)

  pub stamp-Accepted :
      (i : TenantInvitation) (dto : AcceptInvitationDto) (out : User)
      → Runs
          (Joined i dto out)
          (stamp_invitation sys ups i.base.id mark_accepted)
          (λ _ w.
            Joined i dto out w
            × ((after : List TenantInvitation) × (invitations_repository.rows w ≡ some after)
                × AllAccepted i.base.id after))
          (λ _ _. Unit {0})
  unfolding stamp_invitation update
  stamp-Accepted i dto out = record {
    at = λ w h.
        (Runs-update_where sys invitations_repository {P = Joined i dto out} (λ x w p. tt)
            (λ x. x.base.id == i.base.id) (mark_accepted w.clock)
            λ v rows j e. (
              (j.0, j.1, j.2, j.3, (j.4.0, ground (arith, j.4.1), j.4.2)),
              (
                map
                    (λ x.
                      if x.base.id == i.base.id
                      then invitations_repository.touch (sent sys v).clock (mark_accepted w.clock x)
                      else x)
                    rows,
                ground arith,
                accepted-all i.base.id w.clock (sent sys v).clock rows,
              ),
            )).at
          w h;
  }

  pub save-Joined :
      (i : TenantInvitation) (dto : AcceptInvitationDto) (ds : DataSource) (salt now : ℕ)
      → ds ≡ data_source i.tenant_schema
      → Runs
          (λ _. Unit {0})
          (save sys (users_repository ds) (member_of i dto (sys.hash salt dto.password) now))
          (Joined i dto)
          (λ _ _. Unit {0})
  save-Joined i dto ds salt now same = rw same (
      Runs-save sys (users_repository (data_source i.tenant_schema)) (λ x w p. tt)
        (member_of i dto (sys.hash salt dto.password) now)
        λ w rows p e new.
          let out : User =
            member_of i dto (sys.hash salt dto.password) now (generated sys (sent sys w)) in
          (
            refl,
            refl,
            refl,
            (sys.hash salt dto.password, refl, sys.verify_hash salt dto.password),
            (
              rows ++ out ∷ [],
              users-write i.tenant_schema (rows ++ out ∷ []) rows (sent sys w) e,
              In-concat rows out,
            ),
          ))
