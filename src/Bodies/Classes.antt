-- ===== src/Bodies/Classes.antt =====
-- The classes of src/auth/dto, src/tenant/dto, src/products/dto, src/changelogs/dto and
-- src/feedback/dto, property by property.
use multitenancy.Prelude.{String, Bool, true, false, List, [], ◌∷◌, ◌&&◌, leb}
use multitenancy.Validation.{chars, all_slug_chars}
use multitenancy.Prelude.Assoc.{Assoc}
use multitenancy.Bodies.Readers.{changelog_types, changelog_statuses}
use multitenancy.Bodies.{
  Decorator, is_string, is_email, is_number, is_date, min_length, matches, is_enum, Property,
}

abbrev pub required : String → List Decorator → Property
required name decorators = record { name = name; optional = false; decorators = decorators }

-- `@IsOptional()`
abbrev pub optional : String → List Decorator → Property
optional name decorators = record { name = name; optional = true; decorators = decorators }

-- `/^[a-z0-9-]+$/`
abbrev pub slug_pattern : String → Bool
slug_pattern s = leb 1 (chars s) && all_slug_chars s

abbrev pub signup_class : List Property
signup_class =
    required "name" (is_string ∷ min_length 3 ∷ [])
    ∷ required "slug" (is_string ∷ min_length 3 ∷ matches slug_pattern ∷ [])
    ∷ required "tenantOwnerEmail" (is_email ∷ [])
    ∷ required "tenantOwnerPassword" (is_string ∷ min_length 3 ∷ [])
    ∷ []

abbrev pub login_class : List Property
login_class = required "email" (is_email ∷ []) ∷ required "password" (is_string ∷ []) ∷ []

abbrev pub create_invitation_class : List Property
create_invitation_class = required "email" (is_email ∷ []) ∷ optional "role" (is_string ∷ []) ∷ []

abbrev pub accept_invitation_class : List Property
accept_invitation_class =
    required "token" (is_string ∷ [])
    ∷ required "password" (is_string ∷ [])
    ∷ required "displayName" (is_string ∷ [])
    ∷ []

abbrev pub revoke_invitation_class : List Property
revoke_invitation_class = required "email" (is_email ∷ []) ∷ []

abbrev pub create_product_class : List Property
create_product_class =
    required "title" (is_string ∷ []) ∷ optional "description" (is_string ∷ []) ∷ []

-- the values of an enumeration
abbrev pub labels {ℓ} : {A : Type ℓ} → Assoc A → List String
labels [] = []
labels ((l, a) ∷ rest) = l ∷ labels rest

abbrev pub create_changelog_class : List Property
create_changelog_class =
    required "productId" (is_string ∷ [])
    ∷ required "title" (is_string ∷ [])
    ∷ required "content" (is_string ∷ [])
    ∷ required "type" (is_enum (labels changelog_types) ∷ [])
    ∷ required "status" (is_enum (labels changelog_statuses) ∷ [])
    ∷ optional "version" (is_string ∷ [])
    ∷ optional "publishedAt" (is_date ∷ [])
    ∷ []

abbrev pub create_feedback_class : List Property
create_feedback_class =
    optional "content" (is_string ∷ [])
    ∷ optional "priority" (is_enum ("LOW" ∷ "MEDIUM" ∷ "HIGH" ∷ []) ∷ [])
    ∷ optional "type" (is_enum ("BUG" ∷ "FEATURE_REQUEST" ∷ "IMPROVEMENT" ∷ []) ∷ [])
    ∷ optional "status" (is_enum ("OPEN" ∷ "UNDER_REVIEW" ∷ "IN_PROGRESS" ∷ "RESOLVED" ∷ []) ∷ [])
    ∷ required "productId" (is_string ∷ [])
    ∷ optional "feedbackId" (is_string ∷ [])
    ∷ optional "changelogId" (is_string ∷ [])
    ∷ optional "voteCount" (is_number ∷ [])
    ∷ []

-- No route takes it.
abbrev pub create_feedback_comment_class : List Property
create_feedback_comment_class = required "comment" (is_string ∷ []) ∷ []
