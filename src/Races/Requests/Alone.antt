-- ===== src/Races/Requests/Alone.antt =====
-- A request whose steps nobody interrupts does what the service's function does
-- (src/tenant/tenant.service.ts, src/database/tenant-datasource.service.ts).
use multitenancy.Prelude.{String, Bool, true, false, List, ◌≡◌, refl, ◌∙◌, if◌then◌else◌}
use multitenancy.Entities.{TenantInvitation}
use multitenancy.World
use multitenancy.World.{World, Action, Result, ok, err, continue}
use multitenancy.Platform.{Platform, Migration}
use multitenancy.Cache
use multitenancy.Provisioning
use multitenancy.Provisioning.{cached}
use multitenancy.Invitations
use multitenancy.Invitations.{CreateInvitationDto, AcceptInvitationDto, RevokeInvitationDto}
use multitenancy.Races.{Process, done, step, once, run, finished, ◌>>=◌}
use multitenancy.Races.Requests.{
  provision, get_data_source, invite_user_to_tenant, join_tenant, refuse_expired,
  accept_tenant_invitation, revoke_invitation,
}

-- Run alone, the process `p` is the action `m`.
abbrev pub Refines : {A : Type 0} → Process A → Action A → Type 0
Refines p m = (w : World) → run p w ≡ m w

module _ {A : Type 0} where
  Refines-once : (m : Action A) → Refines (once m) m
  unfolding run
  Refines-once m w = refl

  Refines-finished : (a : A) → Refines (finished a) (World.pure a)
  unfolding run World.pure
  Refines-finished a w = refl

  if_at :
      (b : Bool) (m n : Action A) (w : World) → (if b then m else n) w ≡ (if b then m w else n w)
  if_at true m n w = refl
  if_at false m n w = refl

  Refines-if :
      (b : Bool) (p q : Process A) (m n : Action A)
      → Refines p m
      → Refines q n
      → Refines (if b then p else q) (if b then m else n)
  Refines-if true p q m n hp hq = hp
  Refines-if false p q m n hp hq = hq

module _ {A B : Type 0} where
  run-bind :
      (p : Process A) (f : A → Process B) (w : World)
      → run (p >>= f) w ≡ World.◌>>=◌ (run p) (λ a. run (f a)) w
  unfolding run ◌>>=◌ World.◌>>=◌
  run-bind (done (ok a)) f w = refl
  run-bind (done (err x)) f w = refl
  run-bind (step g rest) f w = run-bind (rest w) f (g w)

  continue-same :
      (r : Result A) (f g : A → Action B) (w : World)
      → ((a : A) (v : World) → f a v ≡ g a v)
      → continue r f w ≡ continue r g w
  unfolding continue
  continue-same (ok a) f g w h = h a w
  continue-same (err x) f g w h = refl

  Refines-bind :
      (p : Process A) (m : Action A) (f : A → Process B) (g : A → Action B)
      → Refines p m
      → ((a : A) → Refines (f a) (g a))
      → Refines (p >>= f) (World.◌>>=◌ m g)
  unfolding World.◌>>=◌
  Refines-bind p m f g hp hf w =
      rw (run-bind p f w, hp w) (continue-same (m w).0 (λ a. run (f a)) g (m w).1 hf)

ruleset refines_rules = (Refines-once, Refines-finished, Refines-if, Refines-bind)

module _ (sys : Platform) (ups : List Migration) where
  provision-Refines :
      (schema : String) → Refines (provision sys ups schema) (Provisioning.provision sys ups schema)
  unfolding provision Provisioning.provision
  provision-Refines schema = search refines_rules depth 12

  get_data_source-Refines :
      (schema : String)
      → Refines (get_data_source sys ups schema) (Provisioning.get_data_source sys ups schema)
  unfolding get_data_source Provisioning.get_data_source run
  get_data_source-Refines schema w =
      Refines-if (Cache.has schema w.connections)
        (once (cached sys ups (Cache.get schema w.connections))) (provision sys ups schema)
        (cached sys ups (Cache.get schema w.connections)) (Provisioning.provision sys ups schema)
        (Refines-once _) (provision-Refines schema) w
      ∙ if_at (Cache.has schema w.connections) (cached sys ups (Cache.get schema w.connections))
          (Provisioning.provision sys ups schema) w

  join_tenant-Refines :
      (dto : AcceptInvitationDto) (i : TenantInvitation)
      → Refines (join_tenant sys ups dto i) (Invitations.join_tenant sys ups dto i)
  unfolding join_tenant Invitations.join_tenant
  join_tenant-Refines dto i = search (refines_rules, get_data_source-Refines) depth 20

  refuse_expired-Refines :
      (i : TenantInvitation)
      → Refines (refuse_expired sys ups i) (Invitations.refuse_expired sys ups i)
  unfolding refuse_expired Invitations.refuse_expired
  refuse_expired-Refines i = search refines_rules depth 8

  invite-Refines :
      (schema inviter : String) (dto : CreateInvitationDto)
      → Refines
          (invite_user_to_tenant sys ups schema inviter dto)
          (Invitations.invite_user_to_tenant sys ups schema inviter dto)
  unfolding invite_user_to_tenant Invitations.invite_user_to_tenant
  invite-Refines schema inviter dto = search (refines_rules, get_data_source-Refines) depth 20

  accept-Refines :
      (dto : AcceptInvitationDto)
      → Refines
          (accept_tenant_invitation sys ups dto)
          (Invitations.accept_tenant_invitation sys ups dto)
  unfolding accept_tenant_invitation Invitations.accept_tenant_invitation
  accept-Refines dto = search (refines_rules, join_tenant-Refines, refuse_expired-Refines) depth 20

  revoke-Refines :
      (dto : RevokeInvitationDto)
      → Refines (revoke_invitation sys ups dto) (Invitations.revoke_invitation sys ups dto)
  unfolding revoke_invitation Invitations.revoke_invitation
  revoke-Refines dto = search refines_rules depth 12

  -- An invitation, an acceptance and a revocation whose steps nobody interrupts give the result and
  -- leave the state of the service's function, in every state and on every branch.
  pub requests_alone :
      (schema inviter : String) (offer : CreateInvitationDto) (reply : AcceptInvitationDto)
      (recall : RevokeInvitationDto) (w : World)
      → (run (invite_user_to_tenant sys ups schema inviter offer) w
          ≡ Invitations.invite_user_to_tenant sys ups schema inviter offer w)
        × (run (accept_tenant_invitation sys ups reply) w
            ≡ Invitations.accept_tenant_invitation sys ups reply w)
        × (run (revoke_invitation sys ups recall) w
            ≡ Invitations.revoke_invitation sys ups recall w)
  requests_alone schema inviter offer reply recall w =
      (invite-Refines schema inviter offer w, accept-Refines reply w, revoke-Refines recall w)
