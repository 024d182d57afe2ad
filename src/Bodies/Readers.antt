-- ===== src/Bodies/Readers.antt =====
-- How the services read an accepted body as an object of its class: src/auth/dto/index.dto.ts,
-- src/tenant/dto/index.dto.ts and src/changelogs/dto/create-changelog.dto.ts. `none` is a body whose
-- values are not of the types that the class gives its properties.
use multitenancy.Prelude.{ℕ, String, Option, none, some, [], ◌∷◌, ◌≡◌, refl}
use multitenancy.Prelude.Assoc.{Assoc, find}
use multitenancy.Json.{Json, undefined, null, str, Fields}
use multitenancy.Enums.{Role, ChangelogType, ChangelogStatus}
use multitenancy.Auth.{SignupDto}
use multitenancy.Invitations.{CreateInvitationDto}
use multitenancy.Changelogs.{CreateChangelogDto}
use multitenancy.Bodies.{at}

abbrev ◌>>=◌ {ℓ κ} : {A : Type ℓ} {B : Type κ} → Option A → (A → Option B) → Option B
◌>>=◌ none f = none
◌>>=◌ (some a) f = f a

infixl 5 ◌>>=◌
-- A chain that gives something had something at its first step.
pub >>=-some {ℓ κ} :
    {A : Type ℓ} {B : Type κ} (o : Option A) (f : A → Option B) (b : B)
    → (o >>= f) ≡ some b
    → (a : A) × (o ≡ some a) × (f a ≡ some b)
>>=-some none f b h = cc h
>>=-some (some a) f b h = (a, refl, h)

abbrev pub text_of : Json → Option String
text_of (str s) = some s
text_of _ = none

-- a property that is marked with `?`, in a column that also takes null
abbrev pub maybe_text_of : Json → Option (Option String)
maybe_text_of undefined = some none
maybe_text_of null = some none
maybe_text_of (str s) = some (some s)
maybe_text_of _ = none

-- the enumerations of src/common/enums/index.enum.ts, their values first
abbrev pub roles : Assoc Role
roles = ("owner", Role.owner) ∷ ("admin", Role.admin) ∷ ("member", Role.member) ∷ []

abbrev pub changelog_types : Assoc ChangelogType
changelog_types =
    ("feature", ChangelogType.feature)
    ∷ ("improvement", ChangelogType.improvement)
    ∷ ("bugfix", ChangelogType.bugfix)
    ∷ ("breaking", ChangelogType.breaking)
    ∷ ("security", ChangelogType.security)
    ∷ []

abbrev pub changelog_statuses : Assoc ChangelogStatus
changelog_statuses =
    ("draft", ChangelogStatus.draft)
    ∷ ("published", ChangelogStatus.published)
    ∷ ("archived", ChangelogStatus.archived)
    ∷ []

-- A role may be left out; null is no value of its column.
abbrev pub maybe_role_of : Json → Option (Option Role)
maybe_role_of undefined = some none
maybe_role_of (str s) = do r ← find s roles; some (some r)
maybe_role_of _ = none

unfoldable pub signup_of : Fields → Option SignupDto
signup_of body = do
  name ← text_of (at "name" body)
  slug ← text_of (at "slug" body)
  email ← text_of (at "tenantOwnerEmail" body)
  password ← text_of (at "tenantOwnerPassword" body)
  some (record {
    name = name;
    slug = slug;
    tenant_owner_email = email;
    tenant_owner_password = password;
  })

unfoldable pub create_invitation_of : Fields → Option CreateInvitationDto
create_invitation_of body = do
  email ← text_of (at "email" body)
  role ← maybe_role_of (at "role" body)
  some (record { email = email; role = role })

-- No value of a body is a date, so a publication date can only be absent.
abbrev pub maybe_date_of : Json → Option (Option ℕ)
maybe_date_of undefined = some none
maybe_date_of null = some none
maybe_date_of _ = none

unfoldable pub create_changelog_of : Fields → Option CreateChangelogDto
create_changelog_of body = do
  product_id ← text_of (at "productId" body)
  title ← text_of (at "title" body)
  content ← text_of (at "content" body)
  label ← text_of (at "type" body)
  type ← find label changelog_types
  state ← text_of (at "status" body)
  status ← find state changelog_statuses
  version ← maybe_text_of (at "version" body)
  date ← maybe_date_of (at "publishedAt" body)
  some (record {
    product_id = product_id;
    title = title;
    content = content;
    type = type;
    status = status;
    version = version;
    published_at = date;
  })
