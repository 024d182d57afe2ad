-- ===== src/Races/Requests/Overlap.antt =====
-- Any number of requests and jobs on the invitations, under way at once: what their table keeps
-- (src/tenant/tenant.service.ts, src/tenant/tenant-invitation-cleanup.service.ts).
use multitenancy.Prelude.{ℕ, String, Bool, Option, some, List, [], ◌≡◌, refl, All, ◌==◌}
use multitenancy.Cache
use multitenancy.Entities.{BaseEntity, TenantInvitation, User}
use multitenancy.World.{World, DataSource, Action, modify}
use multitenancy.World.Evolves.{Evolves, evolves_rules}
use multitenancy.Platform.{Platform, Migration}
use multitenancy.Repository.{
  Repository, invitations_repository, users_repository, sent, generated, find_one, save, update,
}
use multitenancy.Repository.Evolves.{
  Evolves-execute, Evolves-find_one, Evolves-save, Evolves-update_where,
}
use multitenancy.Provisioning.{data_source, initialize, run_migrations, cached}
use multitenancy.Provisioning.Isolation.{
  SamePublic, run_migrations-SamePublic, cached-SamePublic, users_save-SamePublic,
}
use multitenancy.Utils.{hash_password}
use multitenancy.Invitations.{
  CreateInvitationDto, AcceptInvitationDto, RevokeInvitationDto, invitation_of, is_stale,
  mark_expired, stamp_invitation, expire_stale_invitations,
}
use multitenancy.Invitations.Progress.{IsDistinct}
use multitenancy.Invitations.Settling.{
  Settles, mark_expired-Settles, mark_accepted-Settles, mark_revoked-Settles,
}
use multitenancy.Races.{turn}
use multitenancy.Races.Keeps.{Keeps, keeps_rules, Keeps-turn}
use multitenancy.Races.Invariant.{Kept, Keep, Keep-order, Keep-of_same, Keep-update, Keep-insert}
use multitenancy.Races.Requests.{
  provision, get_data_source, invite_user_to_tenant, join_tenant, refuse_expired,
  accept_tenant_invitation, revoke_invitation, Request, process, Traffic, Next, Reach, invites,
  accepts, revokes, cleans, comes_in, takes_turn, time_passes, start, then_next,
}

module _ (sys : Platform) (ups : List Migration) where
  waits-Keep : (w : World) → Keep w (sent sys w)
  waits-Keep w = Keep-order.same w

  of_same : {A : Type 0} (m : Action A) → Evolves SamePublic m → Evolves Keep m
  of_same m same = record { at = λ w. Keep-of_same w (m w).1 (same.at w) }

  find_one-Keep :
      {E : Type 0} (repo : Repository E) (p : E → Bool) → Evolves Keep (find_one sys repo p)
  find_one-Keep repo p = Evolves-find_one sys waits-Keep repo p

  modify-Keep : (f : World → World) → ((w : World) → SamePublic w (f w)) → Evolves Keep (modify f)
  unfolding modify
  modify-Keep f same = record { at = λ w. Keep-of_same w (f w) (same w) }

  remember-Keep :
      (schema : String)
      → Evolves Keep (
          modify
            (λ w. record w { connections = Cache.set schema (data_source schema) w.connections }))
  remember-Keep schema = modify-Keep _ (λ w. refl)

  hash-Keep : (password : String) → Evolves Keep (hash_password sys password)
  unfolding hash_password
  hash-Keep password = record { at = λ w. Keep-order.same w }

  users_save-Keep :
      (ds : DataSource) (row : BaseEntity → User)
      → Evolves Keep (save sys (users_repository ds) row)
  users_save-Keep ds row = of_same _ (users_save-SamePublic sys ds row)

  save-Keep :
      (schema inviter : String) (dto : CreateInvitationDto) (token : String) (now : ℕ)
      → Evolves Keep (save sys invitations_repository (invitation_of schema inviter dto token now))
  save-Keep schema inviter dto token now =
      Evolves-save sys waits-Keep invitations_repository
        (invitation_of schema inviter dto token now)
        λ w rows e new.
          Keep-insert (sent sys w) rows
            (invitation_of schema inviter dto token now (generated sys (sent sys w))) e new

  update-Keep :
      (id : String) (f : TenantInvitation → TenantInvitation)
      → Settles f
      → Evolves Keep (update sys invitations_repository id f)
  unfolding update
  update-Keep id f settles =
      Evolves-update_where sys waits-Keep invitations_repository (λ x. x.base.id == id) f
        λ w rows e. Keep-update (λ x. x.base.id == id) f settles (sent sys w) rows e

  stamp-Keep :
      (id : String) (f : ℕ → TenantInvitation → TenantInvitation)
      → ((now : ℕ) → Settles (f now))
      → Evolves Keep (stamp_invitation sys ups id f)
  unfolding stamp_invitation
  stamp-Keep id f settles = record { at = λ w. (update-Keep id (f w.clock) (settles w.clock)).at w }

  expire-Keep : Evolves Keep (expire_stale_invitations sys ups)
  unfolding expire_stale_invitations
  expire-Keep = record {
    at = λ w.
        (Evolves-update_where sys {R = Keep} waits-Keep invitations_repository (is_stale w.clock)
            mark_expired
            λ v rows e.
              Keep-update (is_stale w.clock) mark_expired mark_expired-Settles (sent sys v) rows
                e).at
          w;
  }

  initialize-Keep : Evolves Keep (initialize sys ups)
  unfolding initialize
  initialize-Keep = Evolves-execute sys waits-Keep (λ w. w) waits-Keep

  run_migrations-Keep : (schema : String) → Evolves Keep (run_migrations sys ups schema)
  run_migrations-Keep schema = of_same _ (run_migrations-SamePublic sys ups schema)

  cached-Keep : (o : Option DataSource) → Evolves Keep (cached sys ups o)
  cached-Keep o = of_same _ (cached-SamePublic sys ups o)

  provision-Keeps : (schema : String) → Keeps Keep (provision sys ups schema)
  unfolding provision
  provision-Keeps schema =
      search (keeps_rules, initialize-Keep, run_migrations-Keep, remember-Keep) depth 12

  get_data_source-Keeps : (schema : String) → Keeps Keep (get_data_source sys ups schema)
  unfolding get_data_source
  get_data_source-Keeps schema =
      search (keeps_rules, Keep-order, cached-Keep, provision-Keeps) depth 8

  join_tenant-Keeps :
      (dto : AcceptInvitationDto) (i : TenantInvitation) → Keeps Keep (join_tenant sys ups dto i)
  unfolding join_tenant
  join_tenant-Keeps dto i =
      search
        (
          keeps_rules, evolves_rules, Keep-order, get_data_source-Keeps, find_one-Keep, hash-Keep,
          users_save-Keep, stamp-Keep, mark_accepted-Settles,
        )
        depth 20

  refuse_expired-Keeps : (i : TenantInvitation) → Keeps Keep (refuse_expired sys ups i)
  unfolding refuse_expired
  refuse_expired-Keeps i =
      search (keeps_rules, evolves_rules, Keep-order, update-Keep, mark_expired-Settles) depth 8

  invite-Keeps :
      (schema inviter : String) (dto : CreateInvitationDto)
      → Keeps Keep (invite_user_to_tenant sys ups schema inviter dto)
  unfolding invite_user_to_tenant
  invite-Keeps schema inviter dto =
      search
        (keeps_rules, evolves_rules, Keep-order, get_data_source-Keeps, find_one-Keep, save-Keep)
        depth 20

  accept-Keeps : (dto : AcceptInvitationDto) → Keeps Keep (accept_tenant_invitation sys ups dto)
  unfolding accept_tenant_invitation
  accept-Keeps dto =
      search
        (
          keeps_rules, evolves_rules, Keep-order, find_one-Keep, refuse_expired-Keeps,
          join_tenant-Keeps,
        )
        depth 20

  revoke-Keeps : (dto : RevokeInvitationDto) → Keeps Keep (revoke_invitation sys ups dto)
  unfolding revoke_invitation
  revoke-Keeps dto =
      search
        (keeps_rules, evolves_rules, Keep-order, find_one-Keep, stamp-Keep, mark_revoked-Settles)
        depth 12

  process-Keeps : (r : Request) → Keeps Keep (process sys ups r)
  unfolding process
  process-Keeps (invites schema inviter dto) = search (keeps_rules, invite-Keeps)
  process-Keeps (accepts dto) = search (keeps_rules, accept-Keeps)
  process-Keeps (revokes dto) = revoke-Keeps dto
  process-Keeps cleans = search (keeps_rules, expire-Keep)

  -- the processes under way keep the table, and it is kept since `u`
  abbrev Sound : World → Traffic → Type 0
  Sound u t = All (Keeps Keep) t.pool × Keep u t.world

  Next-Sound : {s t : Traffic} (u : World) → Next sys ups s t → Sound u s → Sound u t
  Next-Sound u (comes_in t r) (kept, since) = ((process-Keeps r, kept), since)
  Next-Sound u (takes_turn t i) (kept, since) =
      let (still, moved) = Keeps-turn Keep-order i t.pool t.world kept in
      (still, Keep-order.after u t.world (turn i t.pool t.world).1 since moved)
  Next-Sound u (time_passes t n) (kept, since) = (kept, since)

  Reach-Sound : {s t : Traffic} → Reach sys ups s t → s.pool ≡ [] → Sound s.world t
  Reach-Sound {s} start idle = (rw idle tt, Keep-order.same s.world)
  Reach-Sound {s} (then_next r n) idle = Next-Sound s.world n (Reach-Sound r idle)

  -- From a table of invitations without clashes and no request under way, however many invitations,
  -- acceptances, revocations and cleanups come in and however their steps alternate, failed ones
  -- included: the table keeps its rows in order and stays without clashes, and each row is as it was or
  -- has the same offer with a final status, dated if that is accepted or revoked. So no row that was
  -- settled is pending again.
  pub Reach-Kept :
      {s t : Traffic} (xs : List TenantInvitation)
      → Reach sys ups s t
      → s.pool ≡ []
      → invitations_repository.rows s.world ≡ some xs
      → IsDistinct xs
      → Kept xs t.world
  Reach-Kept xs reached idle there distinct = (Reach-Sound reached idle).1 xs there distinct
