-- ===== src/Tests/AuthWitnesses.antt =====
-- The theorems on signups, logins and connections at concrete inputs.
use multitenancy.Prelude.{
  ℕ, ne_of_==, eq_iff, String, Bool, true, false, Option, none, some, List, [], ◌∷◌, ◌++◌, ◌≡◌, ◌≢◌,
  refl, not, ◌&&◌, ◌==◌, if◌then◌else◌, arith,
}
use multitenancy.Prelude.Assoc.{find}
use multitenancy.Enums.{owner}
use multitenancy.Entities.{Tenant, User}
use multitenancy.Cache
use multitenancy.World.{World, Schema, DataSource, PublicTables, TenantTables, Result, ok, err}
use multitenancy.World.Runs.{Post}
use multitenancy.Platform.{Migration}
use multitenancy.Repository.{missing_relation, tenants_repository, save, sent}
use multitenancy.Provisioning.{
  data_source, no_rows, create_tables, checked_in, get_data_source, delete_connection,
}
use multitenancy.Provisioning.Isolation.{IsKeyed, Isolated, get_data_source-Isolated}
use multitenancy.Auth.{
  SignupDto, LoginDto, LoggedIn, LoginRow, signup, signup_checked, provision_owner, tenant_of,
  login,
}
use multitenancy.Token.{Tokens}
use multitenancy.Auth.Compensation.{signup_compensates}
use multitenancy.Auth.Established.{Established, signup_establishes}
use multitenancy.Auth.Takeover.{Destroyed, signup_checked_drops}
use multitenancy.Auth.Unmigrated.{signup_needs_tables}
use multitenancy.Prelude.{inl}
use multitenancy.Auth.Welcome.{login_welcomes}
use multitenancy.Auth.Session.{Authenticated, login_authenticates}
use multitenancy.Tests.Memory.{memory, empty_world, value_or}

abbrev acme_signup : SignupDto
acme_signup = record {
  name = "Acme";
  slug = "acme";
  tenant_owner_email = "ann@acme.io";
  tenant_owner_password = "s3cret";
}

abbrev no_tables : PublicTables
no_tables = record { tenants = []; invitations = [] }

empty-IsKeyed : IsKeyed empty_world
unfolding Cache.get find
empty-IsKeyed k ds e = cc e

abbrev ups : List Migration
ups = create_tables "acme" ∷ []

get_data_source-Isolated_example :
    Post (Isolated memory ups "acme") (λ _. IsKeyed) (get_data_source memory ups "acme" empty_world)
get_data_source-Isolated_example =
    get_data_source-Isolated memory ups "acme" empty_world empty-IsKeyed

abbrev connected_world : World
connected_world = record empty_world {
  connections = record { cache = ("acme", data_source "acme") ∷ [] };
}

abbrev saved_world : World
saved_world = (save memory tenants_repository (tenant_of acme_signup) empty_world).1

abbrev nobody : Tenant
nobody = tenant_of acme_signup (record { id = ""; created_at = 0; updated_at = 0 })

abbrev saved_tenant : Tenant
saved_tenant =
    value_or nobody (save memory tenants_repository (tenant_of acme_signup) empty_world).0

abbrev failed_world : World
failed_world = (provision_owner memory [] acme_signup "hash:s3cret" saved_world).1

signup_compensates_example :
    let (r, v) = signup_checked memory [] acme_signup empty_world in
    (r ≡ err missing_relation)
    × (v.public ≡ some no_tables)
    × ((k : String)
        → find k v.schemas ≡ (if "acme" == k then none else find k failed_world.schemas))
    × (Cache.get "acme" v.connections ≡ none)
unfolding save provision_owner multitenancy.World.◌>>=◌ multitenancy.Repository.execute
    multitenancy.Provisioning.provision multitenancy.Platform.run_pending find
    multitenancy.Auth.create_schema multitenancy.Prelude.Assoc.put multitenancy.Platform.run_all
    multitenancy.World.tables_of multitenancy.Platform.record_migrated
signup_compensates_example =
    signup_compensates memory [] acme_signup empty_world saved_world failed_world no_tables
      saved_tenant missing_relation (ne_of_== "acme" "public" refl) refl empty-IsKeyed refl refl
      (λ m h. refl)

-- the slug that the checked-in migration names
abbrev named_signup : SignupDto
named_signup = record acme_signup { slug = "tenant_acme" }

signup_establishes_example :
    Established memory named_signup empty_world no_tables
      (signup memory checked_in named_signup empty_world)
unfolding find multitenancy.Provisioning.add_index_to_products
signup_establishes_example =
    signup_establishes memory named_signup empty_world no_tables refl (λ m h. refl) tt refl refl

-- another tenant with the same owner
abbrev beta : Tenant
beta = record nobody { slug = "beta"; schema_name = "beta" }

abbrev taken_tables : PublicTables
taken_tables = record { tenants = beta ∷ []; invitations = [] }

abbrev taken_world : World
taken_world = record empty_world {
  public = some taken_tables;
  schemas = ("acme", record { migrated = true; tables = some no_rows }) ∷ [];
}

taken-IsKeyed : IsKeyed taken_world
unfolding Cache.get find
taken-IsKeyed k ds e = cc e

signup_checked_drops_example :
    Destroyed "acme" taken_world (signup_checked memory [] acme_signup taken_world)
signup_checked_drops_example =
    signup_checked_drops memory [] acme_signup taken_world taken_tables
      (ne_of_== "acme" "public" refl) refl taken-IsKeyed (λ m h. refl) refl

abbrev some_user : User
some_user = record {
  base = record { id = "u1"; created_at = 0; updated_at = 0 };
  email = "ann@acme.io";
  role = owner;
  password_hash = some "hash:s3cret";
  display_name = "Ann";
  avatar_url = none;
  activated_at = some 0;
  password_changed_at = none;
  last_login_date = none;
}

signup_needs_tables_example : (signup memory checked_in acme_signup empty_world).0 ≢ ok some_user
unfolding find multitenancy.World.tables_of
signup_needs_tables_example =
    signup_needs_tables memory acme_signup empty_world some_user
      (ne_of_== "tenant_acme" "acme" refl) refl

abbrev login_world : World
login_world = record connected_world {
  schemas =
      (
        "acme",
        record { migrated = true; tables = some (record no_rows { users = some_user ∷ [] }) },
      )
      ∷ [];
}

abbrev acme : Tenant
acme = nobody

abbrev ann : LoginDto
ann = record { email = "ann@acme.io"; password = "s3cret" }

abbrev no_login : LoggedIn
no_login = record {
  user = record {
    id = "";
    email = "";
    password_hash = none;
    role = owner;
    activated_at = none;
    last_login_date = none;
    tenant = none;
  };
  tokens = record { access_token = ""; refresh_token = "" };
}

abbrev after_login : Result LoggedIn × World
after_login = login memory ups (some acme) ann login_world

login_authenticates_example :
    Authenticated memory ups (some acme) ann (value_or no_login after_login.0) after_login.1
unfolding login multitenancy.World.◌>>=◌ get_data_source Cache.has find multitenancy.Auth.schema_of
    Cache.get multitenancy.Repository.find_one multitenancy.World.tables_of
    multitenancy.Token.issue_token
login_authenticates_example =
    login_authenticates memory ups (some acme) ann login_world after_login.1
      (value_or no_login after_login.0) refl

login_welcomes_example :
    let (r, v) = login memory ups (some acme) ann login_world in
    ((out : LoggedIn) × (r ≡ ok out) × (out.user.id ≡ "u1"))
    × (v.public ≡ login_world.public)
    × (v.schemas ≡ login_world.schemas)
unfolding find Cache.get multitenancy.Auth.schema_of multitenancy.World.tables_of
login_welcomes_example =
    login_welcomes memory ups acme ann login_world (data_source "acme") (some_user ∷ []) some_user
      "hash:s3cret" 0 refl refl refl (inl refl) refl ((λ e. refl), tt) refl refl refl (λ m h. refl)

abbrev mistyped : LoginDto
mistyped = record { email = "ann@acme.io"; password = "secret" }

abbrev after_refusal : World
after_refusal = (login memory ups (some acme) mistyped login_world).1
