-- ===== src/Invitations/Tracking.antt =====
-- Every operation of the invitations moves their table along `Progress` (src/tenant/tenant.service.ts and
-- src/tenant/tenant-invitation-cleanup.service.ts).
use multitenancy.Prelude.{
  ℕ, String, Bool, true, some, List, ◌≡◌, ◌==◌, ltb, sym, ◌∙◌, All, All-of, eq_of_some_eq, arith,
}
use mathlib.Core.Path.{subst}
use multitenancy.Entities.{TenantInvitation}
use multitenancy.World.{World, Action}
use multitenancy.World.Evolves.{Evolves, evolves_rules}
use multitenancy.World.Runs.{
  Runs, Runs-bind, Runs-pure, Runs-raise, Runs-gets, Runs-or_raise, Runs-raise_if, Runs-if,
  Runs-of_Evolves, Runs-state, Runs-to,
}
use multitenancy.Platform.{Platform, Migration}
use multitenancy.Repository.{
  Repository, invitations_repository, sent, generated, find_one, save, update,
}
use multitenancy.Repository.Evolves.{Evolves-find_one, Evolves-save, Evolves-update_where}
use multitenancy.Repository.Runs.{Runs-find_one, Runs-update_where}
use multitenancy.Provisioning.{get_data_source}
use multitenancy.Provisioning.Isolation.{
  SamePublic, get_data_source-SamePublic, users_find-SamePublic, users_save-SamePublic,
}
use multitenancy.Utils.{hash_password}
use multitenancy.Invitations.{
  CreateInvitationDto, AcceptInvitationDto, RevokeInvitationDto, is_pending, invitation_of,
  is_stale, has_open_token, is_open_to, mark_accepted, mark_revoked, mark_expired,
  invite_user_to_tenant, stamp_invitation, join_tenant, refuse_expired, accept_tenant_invitation,
  revoke_invitation, expire_stale_invitations,
}
use multitenancy.Invitations.Progress.{IsDistinct, Tracked, Track, Track-order, Follows-refl}
use multitenancy.Invitations.Settling.{
  Settles, mark_expired-Settles, mark_accepted-Settles, mark_revoked-Settles, IdPending,
  after_update, after_insert, found_pending,
}

module _ (sys : Platform) where
  waits-Track : (w : World) → Track w (sent sys w)
  waits-Track w = Track-order.same w

  same-Track : (u v : World) → SamePublic u v → Track u v
  same-Track u v e xs ex dx = (xs, ground arith, dx, Follows-refl xs)

  save-Track :
      (schema inviter : String) (dto : CreateInvitationDto) (token : String) (now : ℕ)
      → Evolves Track (save sys invitations_repository (invitation_of schema inviter dto token now))
  save-Track schema inviter dto token now =
      Evolves-save sys waits-Track invitations_repository
        (invitation_of schema inviter dto token now)
        λ w rows e new xs ex dx.
          after_insert xs (sent sys w) rows
            (invitation_of schema inviter dto token now (generated sys (sent sys w))) e new
            (waits-Track w xs ex dx)

module _ (sys : Platform) (ups : List Migration) where
  get_data_source-Track : (name : String) → Evolves Track (get_data_source sys ups name)
  get_data_source-Track name = record {
    at = λ w.
        same-Track sys w (get_data_source sys ups name w).1
          ((get_data_source-SamePublic sys ups name).at w);
  }

  find_one-Track :
      {E : Type 0} (repo : Repository E) (p : E → Bool) → Evolves Track (find_one sys repo p)
  find_one-Track repo p = Evolves-find_one sys (waits-Track sys) repo p

  pub invite-Track :
      (schema inviter : String) (dto : CreateInvitationDto)
      → Evolves Track (invite_user_to_tenant sys ups schema inviter dto)
  unfolding invite_user_to_tenant
  invite-Track schema inviter dto =
      search (evolves_rules, Track-order, find_one-Track, get_data_source-Track, save-Track sys)
        depth 12

  pub expire-Track : Evolves Track (expire_stale_invitations sys ups)
  unfolding expire_stale_invitations
  expire-Track = record {
    at = λ w.
        (Evolves-update_where sys {R = Track} (waits-Track sys) invitations_repository
            (is_stale w.clock) mark_expired
            λ v rows e xs ex dx.
              after_update (is_stale w.clock) mark_expired mark_expired-Settles xs (sent sys v) rows
                e (All-of _ rows (λ x h. ground arith)) (waits-Track sys v xs ex dx)).at
          w;
  }

  module _ (xs : List TenantInvitation) where
    -- `i` was found pending, and nothing has touched the invitations since
    abbrev Open : TenantInvitation → World → Type 0
    Open i w = Tracked xs w × IdPending i w

    abbrev Kept : {A : Type 0} → (A → World → Type 0) → Action A → Type 0
    Kept Q m = Runs (Tracked xs) m Q (λ _. Tracked xs)

    find-Open :
        (p : TenantInvitation → Bool)
        → ((x : TenantInvitation) → p x ≡ true → is_pending x.status ≡ true)
        → Kept
            (λ o w. Tracked xs w × ((i : TenantInvitation) → o ≡ some i → IdPending i w))
            (find_one sys invitations_repository p)
    find-Open p fits =
        Runs-find_one sys invitations_repository (λ x w t. t) p
          λ w rows (ys, ey, dy, fol) e.
            let same : ys ≡ rows = eq_of_some_eq ys rows (sym ey ∙ e) in
            (
              (ys, ey, dy, fol),
              λ i found more em.
                  let again : rows ≡ more = eq_of_some_eq rows more (sym e ∙ em) in
                  subst (All (λ z. (z.base.id == i.base.id) ≡ true → is_pending z.status ≡ true))
                    again (found_pending sys p i rows (subst IsDistinct same dy) found fits),
            )

    settle-Open :
        (i : TenantInvitation) (f : TenantInvitation → TenantInvitation) (settles : Settles f)
        → Runs
            (Open i)
            (update sys invitations_repository i.base.id f)
            (λ _. Tracked xs)
            (λ _. Tracked xs)
    unfolding update
    settle-Open i f settles =
        Runs-update_where sys invitations_repository (λ x w o. o.0) (λ x. x.base.id == i.base.id) f
          λ w rows o e.
            after_update (λ x. x.base.id == i.base.id) f settles xs (sent sys w) rows e (o.1 rows e)
              o.0

    stamp-Open :
        (i : TenantInvitation) (f : ℕ → TenantInvitation → TenantInvitation)
        → ((now : ℕ) → Settles (f now))
        → Runs (Open i) (stamp_invitation sys ups i.base.id f) (λ _. Tracked xs) (λ _. Tracked xs)
    unfolding stamp_invitation
    stamp-Open i f settles = record {
      at = λ w o. (settle-Open i (f w.clock) (settles w.clock)).at w o;
    }

    revoke-Kept :
        (dto : RevokeInvitationDto) → Kept (λ _. Tracked xs) (revoke_invitation sys ups dto)
    unfolding revoke_invitation
    revoke-Kept dto =
        Runs-bind _ _ _ (find-Open (is_open_to dto.email) (λ x h. ground arith)) λ found.
          Runs-bind _ _ Open (Runs-or_raise found _ (λ e w t. t.0) (λ i e w t. (t.0, t.1 i e)))
            λ i. stamp-Open i mark_revoked mark_revoked-Settles

    same-Open : (i : TenantInvitation) (u v : World) → SamePublic u v → Open i u → Open i v
    same-Open i u v e (t, pending) =
        ((t.0, ground arith, t.2, t.3), λ rows er. pending rows (ground arith))

    keep-Open :
        {A : Type 0} (i : TenantInvitation) (m : Action A)
        → Evolves SamePublic m
        → Runs (Open i) m (λ _. Open i) (λ _. Tracked xs)
    keep-Open i m same =
        Runs-to m (λ _. Open i) (λ _. Open i) (λ a w o. o) (λ x w o. o.0)
          (Runs-of_Evolves (Open i) m (record { at = λ w o. same-Open i w (m w).1 (same.at w) o }))

    hash-Open :
        (password : String) (i : TenantInvitation)
        → Runs (Open i) (hash_password sys password) (λ _. Open i) (λ _. Tracked xs)
    unfolding hash_password
    hash-Open password i = record { at = λ w o. o }

    join-Open :
        (dto : AcceptInvitationDto) (i : TenantInvitation)
        → Runs (Open i) (join_tenant sys ups dto i) (λ _. Tracked xs) (λ _. Tracked xs)
    unfolding join_tenant
    join-Open dto i =
        Runs-bind _ _ (λ _. Open i)
          (keep-Open i _ (get_data_source-SamePublic sys ups i.tenant_schema))
          λ db.
            Runs-bind _ _ (λ _. Open i) (keep-Open i _ (users_find-SamePublic sys db _))
              λ existing.
                Runs-bind _ _ (λ _. Open i) (Runs-raise_if _ _ (λ e w o. o.0) (λ e w o. o))
                  λ _.
                    Runs-bind _ _ (λ _. Open i) (hash-Open dto.password i)
                      λ hash.
                        Runs-bind _ _ (λ _. Open i) (Runs-gets _ (λ w o. o))
                          λ now.
                            Runs-bind _ _ (λ _. Open i)
                              (keep-Open i _ (users_save-SamePublic sys db _))
                              λ saved.
                                Runs-bind _ _ (λ _. Tracked xs)
                                  (stamp-Open i mark_accepted mark_accepted-Settles)
                                  λ _. Runs-pure saved (λ w t. t)

    refuse-Open :
        (i : TenantInvitation)
        → Runs (Open i) (refuse_expired sys ups i) (λ _. Tracked xs) (λ _. Tracked xs)
    unfolding refuse_expired
    refuse-Open i =
        Runs-bind _ _ (λ _. Tracked xs) (settle-Open i mark_expired mark_expired-Settles)
          λ _. Runs-raise _ (λ w t. t)

    accept-Kept :
        (dto : AcceptInvitationDto) → Kept (λ _. Tracked xs) (accept_tenant_invitation sys ups dto)
    unfolding accept_tenant_invitation
    accept-Kept dto =
        Runs-bind _ _ _ (find-Open (has_open_token dto.token) (λ x h. ground arith)) λ found.
          Runs-bind _ _ Open (Runs-or_raise found _ (λ e w t. t.0) (λ i e w t. (t.0, t.1 i e))) λ i.
            Runs-bind _ _ (λ _. Open i) (Runs-raise_if _ _ (λ e w o. o.0) (λ e w o. o))
              λ _.
                Runs-bind _ _ (λ _. Open i) (Runs-gets _ (λ w o. o))
                  λ now.
                    Runs-if (ltb i.expires_at now) _ _ (λ _. refuse-Open i) (λ _. join-Open dto i)

  pub revoke-Track : (dto : RevokeInvitationDto) → Evolves Track (revoke_invitation sys ups dto)
  revoke-Track dto = record {
    at = λ w xs ex dx.
        Runs-state (Tracked xs) (Tracked xs) (revoke_invitation sys ups dto) w (revoke-Kept xs dto)
          (Track-order.same w xs ex dx);
  }

  pub accept-Track :
      (dto : AcceptInvitationDto) → Evolves Track (accept_tenant_invitation sys ups dto)
  accept-Track dto = record {
    at = λ w xs ex dx.
        Runs-state (Tracked xs) (Tracked xs) (accept_tenant_invitation sys ups dto) w
          (accept-Kept xs dto) (Track-order.same w xs ex dx);
  }
