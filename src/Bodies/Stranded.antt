-- ===== src/Bodies/Stranded.antt =====
-- What a signup that passes the pipe of src/app.create.ts comes to with the migration that is checked in
-- (src/auth/dto/index.dto.ts, src/auth/auth.service.ts and src/database/migrations/tenant).
use multitenancy.Prelude.{String, true, some, ◌≡◌, ◌≢◌, sym, ◌∙◌, eq_of_some_eq, and_parts, leb}
use mathlib.Core.Path.{ap}
use multitenancy.Json.{Fields}
use multitenancy.Validation.{slug_code, all_slug_chars, valid_slug, valid_signup, chars}
use multitenancy.Entities.{User}
use multitenancy.World.{World, ok}
use multitenancy.Platform.{Platform}
use multitenancy.Provisioning.{checked_in}
use multitenancy.Auth.{SignupDto, signup}
use multitenancy.Auth.Bare.{Bare}
use multitenancy.Auth.Unmigrated.{signup_needs_tables}
use multitenancy.Bodies.{Pipe, validation_options}
use multitenancy.Bodies.Classes.{signup_class}
use multitenancy.Bodies.Readers.{signup_of}
use multitenancy.Bodies.Signups.{email_test, signup_gate}

-- The slug of the checked-in migration has a character that the pattern excludes.
not_tenant_acme : (slug : String) → valid_slug slug ≡ true → "tenant_acme" ≢ slug
unfolding valid_slug all_slug_chars slug_code
not_tenant_acme slug h e = cc (sym (ap valid_slug e), h)

module _ (pipe : Pipe) (sys : Platform) where
  slug_is_valid :
      (dto : SignupDto) → valid_signup (email_test pipe) dto ≡ true → valid_slug dto.slug ≡ true
  unfolding valid_signup
  slug_is_valid dto h =
      let (most, _) = and_parts _ (leb 3 (chars dto.tenant_owner_password)) h in
      let (both, _) = and_parts _ (email_test pipe dto.tenant_owner_email) most in
      (and_parts (leb 3 (chars dto.name)) (valid_slug dto.slug) both).1

  -- No body that the pipe lets through signs a tenant up, in any state whose schema of that slug holds
  -- no tables yet, whatever the server does: the pipe refuses the one slug, tenant_acme, whose tables
  -- the checked-in migration creates.
  pub signup_stranded :
      (body : Fields) (dto : SignupDto) (w : World) (out : User)
      → pipe.accepts validation_options signup_class body ≡ true
      → signup_of body ≡ some dto
      → Bare dto.slug w
      → (signup sys checked_in dto w).0 ≢ ok out
  signup_stranded body dto w out passes read bare =
      let (_, (other, e, valid)) = (signup_gate pipe body).0 passes in
      let same : other ≡ dto = eq_of_some_eq other dto (sym e ∙ read) in
      signup_needs_tables sys dto w out
        (not_tenant_acme dto.slug (slug_is_valid dto (rw same at valid))) bare
