-- ===== src/Invitations/Repeats.antt =====
-- No update of an invitation opens a second one of a tenant for an address (src/tenant/tenant.service.ts
-- and src/tenant/tenant-invitation-cleanup.service.ts).
use multitenancy.Prelude.{
  ℕ, String, Bool, false, Option, none, some, List, [], ◌∷◌, map, ◌≡◌, refl, sym, ◌∙◌, arith, ◌==◌,
  ◌&&◌, All, eq_of_some_eq,
}
use mathlib.Core.Path.{subst}
use multitenancy.Entities.{BaseEntity, TenantInvitation, User}
use multitenancy.World.{World, DataSource, Action, is_some}
use multitenancy.World.Evolves.{Preorder, Evolves, evolves_rules}
use multitenancy.Platform.{Platform, Migration}
use multitenancy.Repository.{
  Repository, invitations_repository, users_repository, sent, find_one, save, update, update_where,
}
use multitenancy.Repository.Evolves.{Evolves-find_one, Evolves-update_where}
use multitenancy.Repository.Rows.{Distinct, ==_sym}
use multitenancy.Provisioning.{get_data_source}
use multitenancy.Provisioning.Isolation.{
  SamePublic, get_data_source-SamePublic, users_save-SamePublic,
}
use multitenancy.Utils.{hash_password}
use multitenancy.Invitations.{
  AcceptInvitationDto, RevokeInvitationDto, is_pending, is_stale, mark_accepted, mark_revoked,
  mark_expired, stamp_invitation, join_tenant, refuse_expired, accept_tenant_invitation,
  revoke_invitation, expire_stale_invitations,
}
use multitenancy.Invitations.Settling.{
  Settles, step_row, mark_expired-Settles, mark_accepted-Settles, mark_revoked-Settles,
}

pub none-of : {A : Type 0} (o : Option A) → is_some o ≡ false → o ≡ none
none-of none e = refl
none-of (some a) e = cc e

-- both open, in the same tenant and for the same address
abbrev pub open_twice : TenantInvitation → TenantInvitation → Bool
open_twice x y =
    is_pending x.status
    && is_pending y.status
    && x.email == y.email
    && x.tenant_schema == y.tenant_schema

pub open_twice_sym : (x y : TenantInvitation) → open_twice x y ≡ open_twice y x
open_twice_sym x y = ground (arith, ==_sym x.email y.email, ==_sym x.tenant_schema y.tenant_schema)

-- No two invitations of the table are open in the same tenant for the same address.
abbrev pub OneOpen : World → Type 0
OneOpen w =
    (rows : List TenantInvitation)
    → invitations_repository.rows w ≡ some rows
    → Distinct open_twice rows

abbrev pub Single : World → World → Type 0
Single u v = OneOpen u → OneOpen v

pub Single-order : Preorder Single
Single-order = record { same = λ w h. h; after = λ u v w p q h. q (p h) }

pub Single-of_same : (u v : World) → SamePublic u v → Single u v
Single-of_same u v same h rows e = h rows (ground arith)

pub invitations-write :
    (new rows : List TenantInvitation) (w : World)
    → invitations_repository.rows w ≡ some rows
    → invitations_repository.rows (invitations_repository.write new w) ≡ some new
invitations-write new rows w e = ground arith

module _ (p : TenantInvitation → Bool) (f : TenantInvitation → TenantInvitation)
    (settles : Settles f) (now : ℕ) where
  pub step_row-less :
      (x y : TenantInvitation)
      → open_twice x y ≡ false
      → open_twice (step_row p f settles now x) (step_row p f settles now y) ≡ false
  step_row-less x y h = ground (arith, settles x, settles y)

  pub All-less :
      (x : TenantInvitation) (rows : List TenantInvitation)
      → All (λ y. open_twice x y ≡ false) rows
      → All
          (λ y. open_twice (step_row p f settles now x) y ≡ false)
          (map (step_row p f settles now) rows)
  All-less x [] h = tt
  All-less x (y ∷ ys) h = (step_row-less x y h.0, All-less x ys h.1)

  pub Distinct-step_row :
      (rows : List TenantInvitation)
      → Distinct open_twice rows
      → Distinct open_twice (map (step_row p f settles now) rows)
  Distinct-step_row [] d = tt
  Distinct-step_row (x ∷ xs) d = (All-less x xs d.0, Distinct-step_row xs d.1)

module _ (sys : Platform) (ups : List Migration) where
  pub update-Single :
      (p : TenantInvitation → Bool) (f : TenantInvitation → TenantInvitation)
      → Settles f
      → Evolves Single (update_where sys invitations_repository p f)
  update-Single p f settles =
      Evolves-update_where sys {R = Single} (λ w h. h) invitations_repository p f
        λ w rows e h rows' e'.
          let new : List TenantInvitation = map (step_row p f settles (sent sys w).clock) rows in
          let same : new ≡ rows' =
            eq_of_some_eq new rows' (sym (invitations-write new rows (sent sys w) e) ∙ e') in
          subst (Distinct open_twice) same
            (Distinct-step_row p f settles (sent sys w).clock rows (h rows e))

  stamp-Single :
      (id : String) (f : ℕ → TenantInvitation → TenantInvitation)
      → ((now : ℕ) → Settles (f now))
      → Evolves Single (stamp_invitation sys ups id f)
  unfolding stamp_invitation update
  stamp-Single id f settles = record {
    at = λ w. (update-Single (λ x. x.base.id == id) (f w.clock) (settles w.clock)).at w;
  }

  pub expire-Single : Evolves Single (expire_stale_invitations sys ups)
  unfolding expire_stale_invitations
  expire-Single = record {
    at = λ w. (update-Single (is_stale w.clock) mark_expired mark_expired-Settles).at w;
  }

  pub of_same : {A : Type 0} (m : Action A) → Evolves SamePublic m → Evolves Single m
  of_same m e = record { at = λ w. Single-of_same w (m w).1 (e.at w) }

  pub find-Single :
      {E : Type 0} (repo : Repository E) (p : E → Bool) → Evolves Single (find_one sys repo p)
  find-Single repo p = Evolves-find_one sys {R = Single} (λ w h. h) repo p

  pub get-Single : (schema : String) → Evolves Single (get_data_source sys ups schema)
  get-Single schema = of_same _ (get_data_source-SamePublic sys ups schema)

  pub users-Single :
      (ds : DataSource) (row : BaseEntity → User)
      → Evolves Single (save sys (users_repository ds) row)
  users-Single ds row = of_same _ (users_save-SamePublic sys ds row)

  pub hash-Single : (password : String) → Evolves Single (hash_password sys password)
  unfolding hash_password
  hash-Single password = record { at = λ w h. h }

  accept-stamp : (id : String) → Evolves Single (stamp_invitation sys ups id mark_accepted)
  accept-stamp id = stamp-Single id mark_accepted mark_accepted-Settles

  revoke-stamp : (id : String) → Evolves Single (stamp_invitation sys ups id mark_revoked)
  revoke-stamp id = stamp-Single id mark_revoked mark_revoked-Settles

  pub join-Single :
      (dto : AcceptInvitationDto) (i : TenantInvitation)
      → Evolves Single (join_tenant sys ups dto i)
  unfolding join_tenant
  join-Single dto i =
      search
        (
          evolves_rules, Single-order, find-Single, get-Single, users-Single, hash-Single,
          accept-stamp,
        )
        depth 14

  pub refuse-Single : (i : TenantInvitation) → Evolves Single (refuse_expired sys ups i)
  unfolding refuse_expired update
  refuse-Single i =
      search (evolves_rules, Single-order, update-Single, mark_expired-Settles) depth 8

  pub accept-Single :
      (dto : AcceptInvitationDto) → Evolves Single (accept_tenant_invitation sys ups dto)
  unfolding accept_tenant_invitation
  accept-Single dto =
      search (evolves_rules, Single-order, find-Single, refuse-Single, join-Single) depth 12

  pub revoke-Single : (dto : RevokeInvitationDto) → Evolves Single (revoke_invitation sys ups dto)
  unfolding revoke_invitation
  revoke-Single dto = search (evolves_rules, Single-order, find-Single, revoke-stamp) depth 8
