-- ===== src/Bodies/Invitations.antt =====
-- What the pipe lets through as an invitation and as its acceptance (`CreateInvitationDto` and
-- `AcceptInvitationDto` of src/tenant/dto/index.dto.ts).
use multitenancy.Prelude.{String, true, none, ◌≡◌, refl}
use multitenancy.Prelude.Assoc.{find}
use multitenancy.Json.{Json, null, str, Fields, end, field, member}
use multitenancy.Invitations.{AcceptInvitationDto}
use multitenancy.Bodies.{is_email, Pipe, validation_options, at, declared, holds}
use multitenancy.Bodies.Classes.{create_invitation_class, accept_invitation_class}
use multitenancy.Bodies.Readers.{roles, create_invitation_of}

-- the body of an invitation
abbrev pub invitation_body : String → Json → Fields
invitation_body email role = field "email" (str email) (field "role" role end)

-- the body of an acceptance
abbrev pub acceptance_body : AcceptInvitationDto → Fields
acceptance_body dto =
    field "token" (str dto.token)
      (field "password" (str dto.password) (field "displayName" (str dto.display_name) end))

module _ (pipe : Pipe) where
  unchecked_text :
      (email role : String)
      → pipe.meets is_email (str email) ≡ true
      → find role roles ≡ none
      → (pipe.accepts validation_options create_invitation_class (invitation_body email (str role))
          ≡ true)
        × (create_invitation_of (invitation_body email (str role)) ≡ none)
  unfolding declared holds at member create_invitation_of
  unchecked_text email role valid unknown =
      (rw (pipe.accepts_lem, valid, pipe.meets_string (str role)) refl, rw unknown refl)

  unchecked_null :
      (email : String)
      → pipe.meets is_email (str email) ≡ true
      → (pipe.accepts validation_options create_invitation_class (invitation_body email null)
          ≡ true)
        × (create_invitation_of (invitation_body email null) ≡ none)
  unfolding declared holds at member create_invitation_of
  unchecked_null email valid = (rw (pipe.accepts_lem, valid) refl, refl)

  any_password :
      (dto : AcceptInvitationDto)
      → pipe.accepts validation_options accept_invitation_class (acceptance_body dto) ≡ true
  unfolding declared holds at member
  any_password dto =
      rw
        (
          pipe.accepts_lem,
          pipe.meets_string (str dto.token),
          pipe.meets_string (str dto.password),
          pipe.meets_string (str dto.display_name),
        )
        refl

  -- An address that is one to the validator may be invited with a role that is any text, or null, and
  -- where that is none of the enumeration's values the body is let through and is no invitation of
  -- its class; and an acceptance is let through whatever its texts are, so with an empty password.
  pub invitation_unchecked :
      (email role : String) (dto : AcceptInvitationDto)
      → pipe.meets is_email (str email) ≡ true
      → find role roles ≡ none
      → ((pipe.accepts validation_options create_invitation_class (invitation_body email (str role))
            ≡ true)
          × (create_invitation_of (invitation_body email (str role)) ≡ none))
        × ((pipe.accepts validation_options create_invitation_class (invitation_body email null)
              ≡ true)
            × (create_invitation_of (invitation_body email null) ≡ none))
        × (pipe.accepts validation_options accept_invitation_class (acceptance_body dto) ≡ true)
  invitation_unchecked email role dto valid unknown =
      (unchecked_text email role valid unknown, unchecked_null email valid, any_password dto)
