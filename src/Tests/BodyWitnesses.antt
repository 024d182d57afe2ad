-- ===== src/Tests/BodyWitnesses.antt =====
-- The theorems on bodies at concrete inputs.
use multitenancy.Prelude.{
  String, Bool, true, false, Option, none, some, List, [], ◌∷◌, ◌≡◌, refl, ◌≢◌, ◌↔◌, ◌==◌, ◌&&◌,
  ◌||◌, not, any, leb,
}
use multitenancy.Json.{Json, null, num, str, Fields, end, field}
use multitenancy.Validation.{valid_signup}
use multitenancy.Auth.{SignupDto, signup}
use multitenancy.Bodies.Stranded.{signup_stranded}
use multitenancy.Entities.{User}
use multitenancy.Enums.{owner}
use multitenancy.World.{ok}
use multitenancy.Provisioning.{checked_in}
use multitenancy.Tests.Memory.{memory, empty_world}
use multitenancy.Invitations.{AcceptInvitationDto}
use multitenancy.Changelogs.{CreateChangelogDto}
use multitenancy.Bodies.{
  Decorator, is_string, is_email, is_number, is_date, min_length, matches, is_enum, PipeOptions,
  Property, validation_options, is_text, is_num, every, declared, holds, Pipe,
}
use multitenancy.Bodies.Classes.{
  signup_class, create_changelog_class, create_invitation_class, accept_invitation_class,
}
use multitenancy.Bodies.Readers.{signup_of, create_changelog_of, create_invitation_of}
use multitenancy.Bodies.Signups.{email_test, signup_gate}
use multitenancy.Bodies.Changelogs.{changelog_typed}
use multitenancy.Bodies.Invitations.{invitation_body, acceptance_body, invitation_unchecked}
use multitenancy.Validation.{chars}
use multitenancy.Tests.Pipe.{accepts, pipe}

abbrev signup_body : Fields
signup_body = field "name" (str "Acme") (
    field "slug" (str "acme-1") (
      field "tenantOwnerEmail" (str "ann@acme.com")
        (field "tenantOwnerPassword" (str "secret") end)))

signup_gate_example : (accepts validation_options signup_class signup_body ≡ true) ↔ (
    (declared signup_class signup_body ≡ true)
    × ((dto : SignupDto) × (signup_of signup_body ≡ some dto)
        × (valid_signup (email_test pipe) dto ≡ true)))
signup_gate_example = signup_gate pipe signup_body

accepted_body : accepts validation_options signup_class signup_body ≡ true
unfolding declared holds multitenancy.Bodies.at multitenancy.Json.member chars
    multitenancy.Validation.all_slug_chars multitenancy.Validation.slug_code
accepted_body = refl

-- A property that the class does not have is refused.
refused_body :
    accepts validation_options signup_class (field "plan" (str "PRO") signup_body) ≡ false
unfolding declared
refused_body = refl

abbrev changelog_body : Fields
changelog_body = field "productId" (str "p1") (
    field "title" (str "First") (
      field "content" (str "All of it")
        (field "type" (str "feature") (field "status" (str "draft") end))))

changelog_accepted : accepts validation_options create_changelog_class changelog_body ≡ true
unfolding declared holds multitenancy.Bodies.at multitenancy.Json.member
changelog_accepted = refl

changelog_typed_example :
    (dto : CreateChangelogDto) × (create_changelog_of changelog_body ≡ some dto)
    × (dto.published_at ≡ none)
changelog_typed_example = changelog_typed pipe changelog_body changelog_accepted

-- The same body with a date is refused.
dated_body :
    accepts validation_options create_changelog_class
      (field "publishedAt" (str "2026-01-31T00:00:00Z") changelog_body)
    ≡ false
unfolding declared holds multitenancy.Bodies.at multitenancy.Json.member
dated_body = refl

abbrev no_password : AcceptInvitationDto
no_password = record { token = "token-1"; password = ""; display_name = "Bob" }

invitation_unchecked_example :
    ((accepts validation_options create_invitation_class
          (invitation_body "bob@acme.com" (str "superuser"))
        ≡ true)
      × (create_invitation_of (invitation_body "bob@acme.com" (str "superuser")) ≡ none))
    × ((accepts validation_options create_invitation_class (invitation_body "bob@acme.com" null)
          ≡ true)
        × (create_invitation_of (invitation_body "bob@acme.com" null) ≡ none))
    × (accepts validation_options accept_invitation_class (acceptance_body no_password) ≡ true)
unfolding multitenancy.Prelude.Assoc.find
invitation_unchecked_example =
    invitation_unchecked pipe "bob@acme.com" "superuser" no_password refl refl

abbrev nobody : User
nobody = record {
  base = record { id = ""; created_at = 0; updated_at = 0 };
  email = "";
  role = owner;
  password_hash = none;
  display_name = "";
  avatar_url = none;
  activated_at = none;
  password_changed_at = none;
  last_login_date = none;
}

abbrev acme_signup : SignupDto
acme_signup = record {
  name = "Acme";
  slug = "acme-1";
  tenant_owner_email = "ann@acme.com";
  tenant_owner_password = "secret";
}

signup_stranded_example : (signup memory checked_in acme_signup empty_world).0 ≢ ok nobody
unfolding signup_of multitenancy.Bodies.at multitenancy.Json.member multitenancy.Prelude.Assoc.find
    multitenancy.World.tables_of
signup_stranded_example =
    signup_stranded pipe memory signup_body acme_signup empty_world nobody accepted_body refl refl
