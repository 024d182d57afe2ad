-- ===== src/Requests.antt =====
-- A request on its way to a controller: `TenantMiddleware` of src/common/middleware/tenant.middleware.ts
-- and `JwtAuthGuard.handleRequest` of src/auth/guard/jwt.guard.ts.
pub mod Tenants
pub mod Tokens
pub mod Evolves
use Prim.Native.Char.{code}
use multitenancy.Prelude.{
  String, Bool, Option, none, some, List, [], ◌∷◌, any, ◌||◌, eqb, ◌==◌, if◌then◌else◌,
}
use multitenancy.Exceptions.{Exception, framework, type_error, resource_not_found}
use multitenancy.Entities.{Tenant}
use multitenancy.World.{Result, ok, err, Action, pure, or_raise, ◌>>=◌}
use multitenancy.Platform.{Platform, TokenPayload}
use multitenancy.Repository.{tenants_repository, find_one}

pub record Request : Type 0 where
  pub hostname : String
  -- the header `x-tenant-slug`
  pub slug_header : Option String
  pub tenant : Option Tenant
  pub user : Option TokenPayload

abbrev non_tenant_paths : List String
non_tenant_paths = "localhost" ∷ "www" ∷ "app" ∷ "127" ∷ []

-- `hostname.split('.')[0]`
unfoldable pub first_label : String → String
first_label String.[] = String.[]
first_label (String.◌∷◌ c s) =
    let rest = first_label s in if eqb (code c) 46 then String.[] else String.◌∷◌ c rest

-- `!slug || NON_TENANT_PATHS.includes(slug)`
abbrev pub names_no_tenant : String → Bool
names_no_tenant slug = slug == "" || any (λ path. path == slug) non_tenant_paths

-- the slug, by `process.env.NODE_ENV === 'production'`
unfoldable pub slug_of : Bool → Request → Option String
slug_of production req = if production then some (first_label req.hostname) else req.slug_header

module _ (sys : Platform) where
  -- the rest of `use` for a slug that is a text
  resolve : Request → String → Action Request
  resolve req slug = if names_no_tenant slug then pure req else do
    found ← find_one sys tenants_repository (λ t. t.slug == slug)
    tenant ← or_raise found (resource_not_found "TENANT" slug)
    pure (record req { tenant = some tenant })

  resolve_if : Request → Option String → Action Request
  unfolding resolve
  resolve_if req none = pure req
  resolve_if req (some slug) = resolve req slug

  -- `use`, which hands the request on
  unfoldable pub use_tenant : Bool → Request → Action Request
  unfolding resolve_if
  use_tenant production req = resolve_if req (slug_of production req)

-- what passport says of the token
pub data Info : Type 0 where
  token_expired json_web_token_error other : Info

abbrev expired_message : String
expired_message = "Your session has expired. Please log in again."

abbrev invalid_message : String
invalid_message = "Invalid token. Please log in again."

-- `throw err ?? new UnauthorizedException(…)`
abbrev error_or_required : Option Exception → Exception
error_or_required none = framework 401 "Authentication required."
error_or_required (some x) = x

-- `AccessJwtStrategy.validate`, for a payload whose signature and date have been checked
abbrev validate : TokenPayload → TokenPayload
validate payload = payload

unfoldable pub handle_request : Option Exception → Option TokenPayload → Info → Result TokenPayload
handle_request error user token_expired = err (framework 401 expired_message)
handle_request error user json_web_token_error = err (framework 401 invalid_message)
handle_request (some x) user other = err x
handle_request none none other = err (error_or_required none)
handle_request none (some user) other = ok user

-- `tenant.schemaName` of a controller, where the middleware may have left no tenant
unfoldable pub schema_name_of : Option Tenant → Action String
schema_name_of none w =
    (err (type_error "Cannot read properties of undefined (reading 'schemaName')"), w)
schema_name_of (some tenant) w = (ok tenant.schema_name, w)

-- `user.sub`
unfoldable pub sub_of : Option TokenPayload → Action String
sub_of none w = (err (type_error "Cannot read properties of undefined (reading 'sub')"), w)
sub_of (some user) w = (ok user.sub, w)
