-- ===== src/Invitations/Lifetime.antt =====
-- How long an invitation that is made runs (`inviteUserToTenant` of src/tenant/tenant.service.ts).
use multitenancy.Prelude.{ℕ, ◌+◌, ◌≤◌, String, List, arith}
use multitenancy.World.{World, Action}
use multitenancy.World.Evolves.{Evolves, Evolves-raise_if, Evolves-gets}
use multitenancy.World.Runs.{Runs, Runs-bind, Runs-gets, Runs-to, Runs-of_Evolves}
use multitenancy.Platform.{Platform, Migration}
use multitenancy.Repository.{invitations_repository, users_repository}
use multitenancy.Repository.Runs.{Runs-save}
use multitenancy.Provisioning.Clock.{Passes, Passes-order, find_one-Passes, get_data_source-Passes}
use multitenancy.Invitations.{CreateInvitationDto, invitation_of, invite_user_to_tenant}

module _ (sys : Platform) (ups : List Migration) where
  -- the clock has not gone back
  abbrev Since : ℕ → World → Type 0
  Since start w = start ≤ w.clock

  since :
      {A : Type 0} (start : ℕ) (m : Action A)
      → Evolves Passes m
      → Runs (Since start) m (λ _. Since start) (λ _ _. Unit {0})
  since start m e =
      Runs-to m (λ _. Since start) (λ _. Since start) (λ a w h. h) (λ x w h. tt)
        (Runs-of_Evolves (Since start) m
          (record { at = λ w h. let step : w.clock ≤ (m w).1.clock = e.at w in omega arith }))

  pub invite-Late :
      (start : ℕ) (schema inviter : String) (dto : CreateInvitationDto)
      → Runs
          (Since start)
          (invite_user_to_tenant sys ups schema inviter dto)
          (λ out w. start + 86400000 ≤ out.expires_at)
          (λ _ _. Unit {0})
  unfolding invite_user_to_tenant
  invite-Late start schema inviter dto =
      Runs-bind _ _ (λ _. Since start)
        (since start _ (find_one-Passes sys invitations_repository _))
        λ existing.
          Runs-bind _ _ (λ _. Since start) (since start _ (Evolves-raise_if Passes-order _ _))
            λ _.
              Runs-bind _ _ (λ _. Since start) (since start _ (Evolves-gets Passes-order _))
                λ token.
                  Runs-bind _ _ (λ _. Since start)
                    (since start _ (get_data_source-Passes sys ups schema))
                    λ ds.
                      Runs-bind _ _ (λ _. Since start)
                        (since start _ (find_one-Passes sys (users_repository ds) _))
                        λ found.
                          Runs-bind _ _ (λ _. Since start)
                            (since start _ (Evolves-raise_if Passes-order _ _))
                            λ _.
                              Runs-bind _ _ (λ now w. start ≤ now) (Runs-gets _ (λ w h. h))
                                λ now.
                                  Runs-save sys invitations_repository (λ x w h. tt)
                                    (invitation_of schema inviter dto token now)
                                    λ w rows h e new. omega arith
