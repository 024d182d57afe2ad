-- ===== src/Auth.antt =====
-- `AuthService` of src/auth/auth.service.ts: the signup of a tenant with its compensation, and the
-- login of a user of a tenant.
pub mod Rollback
pub mod Compensation
pub mod Takeover
pub mod Unmigrated
pub mod Established
pub mod Session
pub mod Welcome
pub mod Bare
pub mod Issuing
pub mod Refused
use Prim.Native.String.{◌++◌}
use multitenancy.Prelude.{
  ℕ, String, Bool, true, false, Option, none, some, List, not, ◌==◌, if◌then◌else◌,
}
use multitenancy.Prelude.Assoc.{find, put, remove}
use multitenancy.Enums.{TenantStatus, active, free, Role, owner, admin, member}
use multitenancy.Exceptions.{
  Exception, database, type_error, bad_request, duplicate_resource, invalid_credentials,
  unauthorized_access,
}
use multitenancy.Entities.{BaseEntity, Tenant, User}
use multitenancy.World.{
  World, Schema, Schemas, Action, pure, raise, catch, gets, raise_if, or_raise, is_some, ◌>>=◌,
  ◌>>◌,
}
use multitenancy.Platform.{Platform, Migration}
use multitenancy.Repository.{
  statement, execute, tenants_repository, users_repository, find_one, save, delete,
}
use multitenancy.Provisioning.{data_source, get_data_source, provision, delete_connection}
use multitenancy.Utils.{hash_password}
use multitenancy.Token.{Tokens, issue_token}

-- src/auth/dto/index.dto.ts
pub record SignupDto : Type 0 where
  pub name : String
  pub slug : String
  pub tenant_owner_email : String
  pub tenant_owner_password : String

pub record LoginDto : Type 0 where
  pub email : String
  pub password : String

abbrev pub tenant_of : SignupDto → BaseEntity → Tenant
tenant_of dto base = record {
  base = base;
  name = dto.name;
  slug = dto.slug;
  tenant_owner_email = dto.tenant_owner_email;
  schema_name = dto.slug;
  status = active;
  plan = free;
}

abbrev pub owner_of : SignupDto → String → ℕ → BaseEntity → User
owner_of dto password_hash now base = record {
  base = base;
  email = dto.tenant_owner_email;
  role = owner;
  password_hash = some password_hash;
  display_name = dto.name;
  avatar_url = none;
  activated_at = some now;
  password_changed_at = none;
  last_login_date = none;
}

abbrev pub empty_schema : Schema
empty_schema = record { migrated = false; tables = none }

-- `CREATE SCHEMA IF NOT EXISTS "name"`
unfoldable pub create_schema : String → Schemas → Schemas
create_schema name s = elim (find name s) [ none ↦ put name empty_schema s | some _ ↦ s ]

-- `DROP SCHEMA IF EXISTS "name" CASCADE`; the schema `public` takes the platform's tables with it.
unfoldable pub drop_schema : String → World → World
drop_schema name w = record w {
  public = if name == "public" then none else w.public;
  schemas = remove name w.schemas;
}

module _ (sys : Platform) (ups : List Migration) where
  -- the `try` block once the tenant is saved
  unfoldable pub provision_owner : SignupDto → String → Action User
  provision_owner dto password_hash = do
    execute sys (λ w. record w { schemas = create_schema dto.slug w.schemas })
    tenant_db ← provision sys ups dto.slug
    now ← gets (λ w. w.clock)
    save sys (users_repository tenant_db) (owner_of dto password_hash now)

  -- `if (tenant?.id) …`
  unfoldable pub delete_tenant : Option Tenant → Action (Unit {0})
  delete_tenant none = pure tt
  delete_tenant (some tenant) = delete sys tenants_repository tenant.base.id

  -- the `catch` block
  unfoldable pub rollback : {A : Type 0} → String → Option Tenant → Exception → Action A
  rollback schema tenant error = do
    execute sys (drop_schema schema)
    delete_tenant tenant
    delete_connection sys ups schema
    raise error

  -- `signup` after its check that the slug is free; `tenant` is still undefined in the handler where
  -- the save is what fails.
  unfoldable pub signup_checked : SignupDto → Action User
  signup_checked dto = do
    password_hash ← hash_password sys dto.tenant_owner_password
    tenant ← catch (save sys tenants_repository (tenant_of dto)) (rollback dto.slug none)
    catch (provision_owner dto password_hash) (rollback dto.slug (some tenant))

  unfoldable pub signup : SignupDto → Action User
  signup dto = do
    existing ← find_one sys tenants_repository (λ t. t.slug == dto.slug)
    raise_if (is_some existing) (duplicate_resource "TENANT_SLUG" dto.slug)
    signup_checked dto

-- `tenant.schemaName || \`tenant_${tenant.slug}\``
unfoldable pub schema_of : Tenant → String
schema_of tenant = if tenant.schema_name == "" then "tenant_" ++ tenant.slug else tenant.schema_name

abbrev pub is_active : TenantStatus → Bool
is_active TenantStatus.active = true
is_active _ = false

-- the text of a role in the database
abbrev pub role_text : Role → String
role_text owner = "owner"
role_text admin = "admin"
role_text member = "member"

abbrev no_such_column : Exception
no_such_column = database "column \"last_login_at\" does not exist"

-- The row of the query, with what `login` adds to it.
pub record LoginRow : Type 0 where
  pub id : String
  pub email : String
  pub password_hash : Option String
  pub role : Role
  pub activated_at : Option ℕ
  pub last_login_date : Option ℕ
  pub tenant : Option String

pub record LoggedIn : Type 0 where
  pub user : LoginRow
  pub tokens : Tokens

-- `SELECT id, email, password_hash, role, activated_at, last_login_date`
abbrev pub login_row : User → LoginRow
login_row u = record {
  id = u.base.id;
  email = u.email;
  password_hash = u.password_hash;
  role = u.role;
  activated_at = u.activated_at;
  last_login_date = u.last_login_date;
  tenant = none;
}

module _ (sys : Platform) (ups : List Migration) where
  -- The update that is sent and not awaited; its failure is only logged. The table has no column
  -- `last_login_at`, so it changes nothing.
  unfoldable pub touch_last_login : Action (Unit {0})
  unfolding statement
  touch_last_login = catch (statement sys (raise {A = Unit {0}} no_such_column)) (λ _. pure tt)

  -- `argon2.verify`, which throws where the column is null
  pub verify_password : Option String → String → Action Bool
  verify_password none password = raise (type_error "pchstr must be a non-empty string")
  verify_password (some hash) password = pure (sys.verify hash password)

  unfoldable pub login : Option Tenant → LoginDto → Action LoggedIn
  unfolding touch_last_login verify_password
  login context dto = do
    tenant ← or_raise context (bad_request "Tenant context is required.")
    raise_if (not (is_active tenant.status)) (unauthorized_access "Workspace is not active")
    let schema_name = schema_of tenant
    get_data_source sys ups schema_name
    result ← find_one sys (users_repository (data_source schema_name)) (λ u. u.email == dto.email)
    row ← or_raise result invalid_credentials
    let user = login_row row
    raise_if (not (is_some user.activated_at))
        (unauthorized_access "Please verify your email before logging in")
    is_password_valid ← verify_password user.password_hash dto.password
    raise_if (not is_password_valid) invalid_credentials
    touch_last_login
    tokens ← issue_token sys user.id (role_text user.role) schema_name
    pure (record {
      user = record user { password_hash = none; tenant = some schema_name };
      tokens = tokens;
    })
