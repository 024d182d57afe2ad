-- ===== src/Tests/MigrationWitnesses.antt =====
-- The theorems on migrations at concrete inputs.
use multitenancy.Prelude.{Option, none, some, List, [], ◌∷◌, ◌≡◌, refl, arith}
use multitenancy.World.{World}
use multitenancy.Migrations.{
  Statement, create_type, create_table, add_foreign_key, drop_type, drop_table, drop_constraint,
  tenant_acme, up, down,
}
use multitenancy.Migrations.Undone.{Server, undo, run, down_reverts_up}
use multitenancy.Migrations.Startup.{
  start_up, run_by_hand, found, compiled, all_files, Refuses, fresh_start-Refuses,
}
use multitenancy.Auth.{SignupDto, signup}
use multitenancy.Prelude.{String, ◌==◌, if◌then◌else◌}
use multitenancy.Migrations.Options.{application, public_command_line, tenant_command_line}
use multitenancy.Invitations.{
  CreateInvitationDto, AcceptInvitationDto, RevokeInvitationDto, invite_user_to_tenant,
  accept_tenant_invitation, revoke_invitation,
}
use multitenancy.Tests.Memory.{memory, empty_world}
use multitenancy.Tests.Acme.{ups}

-- A catalogue is what has been made, the last first; a drop takes the last.
abbrev taken : List Statement → Option (List Statement)
taken [] = none
taken (s ∷ c) = some c

abbrev exec : Statement → List Statement → Option (List Statement)
exec s c = elim (undo s) [ none ↦ taken c | some _ ↦ some (s ∷ c) ]

exec-undo :
    (made dropped : Statement) (c c' : List Statement)
    → undo made ≡ some dropped
    → exec made c ≡ some c'
    → exec dropped c' ≡ some c
exec-undo (create_type n labels) dropped c c' h k = ground arith
exec-undo (create_table n columns constraints) dropped c c' h k = ground arith
exec-undo (add_foreign_key n name column target rule) dropped c c' h k = ground arith
exec-undo (drop_type n) dropped c c' h k = cc h
exec-undo (drop_table n) dropped c c' h k = cc h
exec-undo (drop_constraint n name) dropped c c' h k = cc h

abbrev log : Server
log = record { Catalogue = List Statement; exec = exec; exec-undo = exec-undo }

abbrev after_up : List Statement
after_up = elim (run log (up tenant_acme) []) [ none ↦ [] | some c ↦ c ]

down_reverts_up_example : run log (down tenant_acme) after_up ≡ some []
unfolding run up
down_reverts_up_example = down_reverts_up log tenant_acme [] after_up refl

abbrev fresh_world : World
fresh_world = record empty_world { public = none }

abbrev settings : String → Option String
settings name = if name == "DB_PORT" then some "5432" else none

abbrev started : World
started = start_up (application settings) (
    run_by_hand (public_command_line settings)
      (run_by_hand (tenant_command_line settings) fresh_world))

fresh_start-Refuses_example :
    (started.public ≡ none)
    × ((dto : SignupDto) → Refuses memory ups (signup memory ups dto) started)
    × ((schema inviter : String) (dto : CreateInvitationDto)
        → Refuses memory ups (invite_user_to_tenant memory ups schema inviter dto) started)
    × ((dto : AcceptInvitationDto)
        → Refuses memory ups (accept_tenant_invitation memory ups dto) started)
    × ((dto : RevokeInvitationDto) → Refuses memory ups (revoke_invitation memory ups dto) started)
fresh_start-Refuses_example = fresh_start-Refuses memory ups settings fresh_world refl

-- the file of the tenants is found where the application looks for it
tenant_file :
    found compiled
      (record { folder = "dist/database/migrations/tenant"; extension = "js" } ∷ [])
      all_files
    ≡ tenant_acme ∷ []
unfolding found compiled
tenant_file = refl
