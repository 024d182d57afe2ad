-- ===== src/Invitations/Acceptance.antt =====
-- What an acceptance that succeeds has checked and done (`acceptTenantInvitation` of
-- src/tenant/tenant.service.ts).
use multitenancy.Prelude.{
  ℕ, ◌≤◌, true, false, some, List, ◌≡◌, refl, sym, ◌∙◌, eq_of_some_eq, arith, ◌==◌, eq_iff, ltb, In,
  All-In, and_parts,
}
use multitenancy.Enums.{InvitationStatus}
use multitenancy.Entities.{TenantInvitation, User}
use multitenancy.World.{World, ok}
use multitenancy.World.Runs.{
  Runs, Post, Runs-bind, Runs-pure, Runs-raise, Runs-gets, Runs-or_raise, Runs-raise_if, Runs-if,
  Runs-to, Runs-from,
}
use multitenancy.Platform.{Platform, Migration}
use multitenancy.Repository.{invitations_repository, users_repository}
use multitenancy.Repository.Runs.{Runs-find_one}
use multitenancy.Provisioning.{data_source}
use multitenancy.Provisioning.Isolation.{IsKeyed}
use multitenancy.Provisioning.Reuse.{Ready, get_data_source-Ready, any_state}
use multitenancy.Utils.{hash_password}
use multitenancy.Invitations.{
  AcceptInvitationDto, is_pending, has_open_token, join_tenant, refuse_expired,
  accept_tenant_invitation,
}
use multitenancy.Invitations.Joining.{AllAccepted, pending-of, Joined, stamp-Accepted, save-Joined}

module _ (sys : Platform) (ups : List Migration) where
  -- `i` was open under the token and had not expired at the instant `at`.
  abbrev Offered : List TenantInvitation → ℕ → AcceptInvitationDto → TenantInvitation → Type 0
  Offered rows at dto i =
      In i rows
      × (i.token ≡ dto.token)
      × (i.status ≡ InvitationStatus.pending)
      × (at ≤ i.expires_at)

  abbrev pub Accepted : List TenantInvitation → ℕ → AcceptInvitationDto → User → World → Type 0
  Accepted rows at dto out w =
      (i : TenantInvitation) × Offered rows at dto i
      × Joined sys ups i dto out w
      × ((after : List TenantInvitation) × (invitations_repository.rows w ≡ some after)
          × AllAccepted i.base.id after)

  module _ (rows : List TenantInvitation) (at : ℕ) (dto : AcceptInvitationDto) where
    abbrev Asked : World → Type 0
    Asked w = (invitations_repository.rows w ≡ some rows) × (at ≤ w.clock) × IsKeyed w

    join-Accepted :
        (i : TenantInvitation)
        → Offered rows at dto i
        → Runs IsKeyed (join_tenant sys ups dto i) (Accepted rows at dto) (λ _ _. Unit {0})
    unfolding join_tenant hash_password
    join-Accepted i offered =
        Runs-bind _ _ (λ ds w. ds ≡ data_source i.tenant_schema)
          (Runs-to _ (Ready i.tenant_schema) (λ _ _. Unit {0}) (λ ds w r. r.0) (λ x w r. r)
            (get_data_source-Ready sys ups i.tenant_schema))
          λ ds.
            Runs-bind _ _ (λ _ w. ds ≡ data_source i.tenant_schema)
              (Runs-find_one sys (users_repository ds) (λ x w p. tt) _ (λ w us p e. p))
              λ existing.
                Runs-bind _ _ (λ _ w. ds ≡ data_source i.tenant_schema)
                  (Runs-raise_if _ _ (λ e w p. tt) (λ e w p. p))
                  λ _.
                    Runs-bind _ _
                      (λ hash w.
                        (ds ≡ data_source i.tenant_schema)
                        × ((salt : ℕ) × (hash ≡ sys.hash salt dto.password)))
                      (record { at = λ w p. (p, (w.calls, refl)) })
                      λ hash.
                        Runs-bind _ _
                          (λ _ w.
                            (ds ≡ data_source i.tenant_schema)
                            × ((salt : ℕ) × (hash ≡ sys.hash salt dto.password)))
                          (Runs-gets _ (λ w p. p))
                          λ now.
                            Runs-bind _ _ (Joined sys ups i dto)
                              (record {
                                at = λ w (same, (salt, made)).
                                    rw made ((save-Joined sys ups i dto ds salt now same).at w tt);
                              })
                              λ out. Runs-bind _ _ _ (stamp-Accepted sys ups i dto out) λ _.
                                Runs-pure out (λ w (joined, marked). (i, offered, joined, marked))

    refuse-never :
        (i : TenantInvitation)
        → Runs IsKeyed (refuse_expired sys ups i) (Accepted rows at dto) (λ _ _. Unit {0})
    unfolding refuse_expired
    refuse-never i =
        Runs-bind _ _ (λ _ _. Unit {0})
          (Runs-to _ (λ _ _. Unit {0}) (λ _ _. Unit {0}) (λ a w p. tt) (λ x w p. tt)
            (Runs-from _ (λ w p. tt) (any_state sys ups _)))
          λ _. Runs-raise _ (λ w p. tt)

    open-Offered :
        (i : TenantInvitation) (now : ℕ)
        → ltb i.expires_at now ≡ false
        → at ≤ now
        → In i rows
        → has_open_token dto.token i ≡ true
        → Offered rows at dto i
    open-Offered i now early late member fits =
        let (same, open_row) = and_parts (i.token == dto.token) (is_pending i.status) fits in
        (member, (eq_iff i.token dto.token).0 same, pending-of i.status open_row, ground arith)

    accept-Accepted :
        Runs Asked (accept_tenant_invitation sys ups dto) (Accepted rows at dto) (λ _ _. Unit {0})
    unfolding accept_tenant_invitation
    accept-Accepted =
        Runs-bind _ _
          (λ found w.
            (at ≤ w.clock)
            × IsKeyed w
            × ((i : TenantInvitation)
                → found ≡ some i
                → In i rows × (has_open_token dto.token i ≡ true)))
          (Runs-find_one sys invitations_repository (λ x w p. tt) (has_open_token dto.token)
            λ w there (e, late, keyed) e'. (
              omega arith,
              keyed,
              λ i found.
                  let again : there ≡ rows = eq_of_some_eq there rows (sym e' ∙ e) in
                  let (fits, member) =
                    sys.find_one_sound TenantInvitation (has_open_token dto.token) (λ x. In x rows)
                      rows i (rw again at found) (All-In rows) in
                  (member, fits),
            ))
          λ found.
            Runs-bind _ _
              (λ i w.
                (at ≤ w.clock) × IsKeyed w × (In i rows × (has_open_token dto.token i ≡ true)))
              (Runs-or_raise found _ (λ e w p. tt) (λ i e w p. (p.0, p.1, p.2 i e)))
              λ i.
                Runs-bind _ _
                  (λ _ w.
                    (at ≤ w.clock) × IsKeyed w × (In i rows × (has_open_token dto.token i ≡ true)))
                  (Runs-raise_if _ _ (λ e w p. tt) (λ e w p. p))
                  λ _.
                    Runs-bind _ _
                      (λ now w.
                        (at ≤ now) × IsKeyed w × (In i rows × (has_open_token dto.token i ≡ true)))
                      (Runs-gets _ (λ w p. p))
                      λ now.
                        Runs-if (ltb i.expires_at now) _ _
                          (λ late. Runs-from _ (λ w p. p.1) (refuse-never i))
                          (λ early. record {
                            at = λ w (late, keyed, (member, fits)).
                                (join-Accepted i (open-Offered i now early late member fits)).at w
                                  keyed;
                          })

  -- An acceptance that succeeds, from connections keyed by their schemas, is one of an invitation that
  -- was in the table with that token, pending and not expired when the request came; it has made an
  -- activated user of the invitation's schema with the invitation's address and role and a hash of the
  -- password, and the invitation is accepted.
  pub accept_joins :
      (dto : AcceptInvitationDto) (w v : World) (rows : List TenantInvitation) (out : User)
      → IsKeyed w
      → invitations_repository.rows w ≡ some rows
      → accept_tenant_invitation sys ups dto w ≡ (ok out, v)
      → Accepted rows w.clock dto out v
  accept_joins dto w v rows out keyed e done =
      let posted : Post {A = User} (Accepted rows w.clock dto) (λ _ _. Unit {0})
          (accept_tenant_invitation sys ups dto w) =
        (accept-Accepted rows w.clock dto).at w (e, omega arith, keyed) in
      rw done at posted
