-- ===== src/Invitations/Single.antt =====
-- A tenant has one open invitation at most for an address, as long as requests do not overlap
-- (src/tenant/tenant.service.ts and src/tenant/tenant-invitation-cleanup.service.ts).
use multitenancy.Prelude.{
  String, false, none, some, List, [], ◌∷◌, ◌++◌, ◌≡◌, refl, sym, ap, ◌∙◌, arith, eq_iff, All, any,
  eq_of_some_eq,
}
use mathlib.Core.Path.{subst}
use multitenancy.Entities.{TenantInvitation}
use multitenancy.World.{World, Action}
use multitenancy.World.Evolves.{Evolves}
use multitenancy.World.Runs.{
  Runs, Runs-bind, Runs-gets, Runs-raise_if, Runs-of_Evolves, Runs-state, Runs-to,
}
use multitenancy.Platform.{Platform, Migration}
use multitenancy.Repository.{invitations_repository, sent, generated}
use multitenancy.Repository.Runs.{Runs-find_one, Runs-save}
use multitenancy.Repository.Rows.{Distinct, Distinct-concat}
use multitenancy.Provisioning.Isolation.{
  SamePublic, get_data_source-SamePublic, users_find-SamePublic,
}
use multitenancy.Invitations.{
  CreateInvitationDto, invitation_of, is_open_for, invite_user_to_tenant,
}
use multitenancy.Invitations.Lifecycle.{
  Step, invites, accepts, revokes, cleans, waits, Reach, start, then_step,
}
use multitenancy.Invitations.Repeats.{
  none-of, open_twice, open_twice_sym, OneOpen, Single, Single-of_same, invitations-write,
  expire-Single, accept-Single, revoke-Single,
}

module _ (sys : Platform) (ups : List Migration) where
  module _ (schema : String) (dto : CreateInvitationDto) where
    -- nobody with that address has an open invitation to the schema
    abbrev Free : World → Type 0
    Free w =
        (rows : List TenantInvitation)
        → invitations_repository.rows w ≡ some rows
        → All (λ x. is_open_for dto.email schema x ≡ false) rows

    abbrev FreeAndSingle : World → Type 0
    FreeAndSingle w = Free w × OneOpen w

    new_is_alone :
        (n : TenantInvitation) (rows : List TenantInvitation)
        → n.email ≡ dto.email
        → n.tenant_schema ≡ schema
        → All (λ x. is_open_for dto.email schema x ≡ false) rows
        → any (open_twice n) rows ≡ false
    new_is_alone n [] e t h = refl
    new_is_alone n (x ∷ xs) e t h = ground (
      arith,
      new_is_alone n xs e t,
      eq_iff n.email x.email,
      eq_iff x.email dto.email,
      eq_iff n.tenant_schema x.tenant_schema,
      eq_iff x.tenant_schema schema,
    )

    keep_both :
        {A : Type 0} (m : Action A)
        → Evolves SamePublic m
        → Runs FreeAndSingle m (λ _. FreeAndSingle) (λ _. OneOpen)
    keep_both m same =
        Runs-to m (λ _. FreeAndSingle) (λ _. FreeAndSingle) (λ a w h. h) (λ x w h. h.1)
          (Runs-of_Evolves FreeAndSingle m (record {
            at = λ w (free, one). (
              λ rows e. free rows (
                  sym (ap (λ p. elim p [ none ↦ none | some t ↦ some t.invitations ]) (same.at w))
                  ∙ e),
              Single-of_same w (m w).1 (same.at w) one,
            );
          }))

    invite-OneOpen :
        (inviter : String)
        → Runs OneOpen
            (invite_user_to_tenant sys ups schema inviter dto)
            (λ _. OneOpen)
            (λ _. OneOpen)
    unfolding invite_user_to_tenant
    invite-OneOpen inviter =
        Runs-bind _ _ (λ existing w. OneOpen w × (existing ≡ none → Free w))
          (Runs-find_one sys invitations_repository (λ x w h. h) (is_open_for dto.email schema)
            λ w rows one e. (
              one,
              λ nobody rows' e'.
                  let same : rows ≡ rows' = eq_of_some_eq rows rows' (sym e ∙ e') in
                  subst (All (λ x. is_open_for dto.email schema x ≡ false)) same (
                    sys.find_one_complete TenantInvitation (is_open_for dto.email schema) rows
                      nobody),
            ))
          λ existing.
            Runs-bind _ _ (λ _. FreeAndSingle)
              (Runs-raise_if _ _ (λ e w h. h.0) (λ e w h. (h.1 (none-of existing e), h.0)))
              λ _.
                Runs-bind _ _ (λ _. FreeAndSingle) (Runs-gets _ (λ w h. h))
                  λ token.
                    Runs-bind _ _ (λ _. FreeAndSingle)
                      (keep_both _ (get_data_source-SamePublic sys ups schema))
                      λ ds.
                        Runs-bind _ _ (λ _. FreeAndSingle)
                          (keep_both _ (users_find-SamePublic sys ds _))
                          λ user.
                            Runs-bind _ _ (λ _. FreeAndSingle)
                              (Runs-raise_if _ _ (λ e w h. h.1) (λ e w h. h))
                              λ _.
                                Runs-bind _ _ (λ _. FreeAndSingle) (Runs-gets _ (λ w h. h))
                                  λ now.
                                    Runs-save sys invitations_repository (λ x w h. h.1)
                                      (invitation_of schema inviter dto token now)
                                      λ w rows (free, one) e new rows' e'.
                                        let n : TenantInvitation =
                                          invitation_of schema inviter dto token now
                                            (generated sys (sent sys w)) in
                                        let same : (rows ++ n ∷ []) ≡ rows' =
                                          eq_of_some_eq (rows ++ n ∷ []) rows' (
                                            sym (
                                              invitations-write (rows ++ n ∷ []) rows (sent sys w)
                                                e)
                                            ∙ e') in
                                        subst (Distinct open_twice) same (
                                          Distinct-concat open_twice open_twice_sym rows n
                                            (one rows e)
                                            (new_is_alone n rows refl refl (free rows e)))

  Step-Single : {v w : World} → Step sys ups v w → Single v w
  Step-Single (invites schema inviter dto w) h =
      Runs-state OneOpen OneOpen (invite_user_to_tenant sys ups schema inviter dto) w
        (invite-OneOpen schema dto inviter) h
  Step-Single (accepts dto w) h = (accept-Single sys ups dto).at w h
  Step-Single (revokes dto w) h = (revoke-Single sys ups dto).at w h
  Step-Single (cleans w) h = (expire-Single sys ups).at w h
  Step-Single (waits w n) h = h

  -- From a table in which no two invitations are open in the same tenant for the same address, any
  -- sequence of invitations, acceptances, revocations, cleanups and waits, successful or not, leads to
  -- such a table again, when each request ends before the next begins.
  pub Reach-OneOpen : {u w : World} → Reach sys ups u w → OneOpen u → OneOpen w
  Reach-OneOpen start h = h
  Reach-OneOpen (then_step r s) h = Step-Single s (Reach-OneOpen r h)
