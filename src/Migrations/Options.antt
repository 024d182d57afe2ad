-- ===== src/Migrations/Options.antt =====
-- The options of the data sources: the one of the application (src/database/database.module.ts) and those
-- of the command line (src/database/datasources). Settings are texts, as `process.env` has them.
use multitenancy.Prelude.{ℕ, String, Bool, true, false, Option, none, some, List, [], ◌∷◌}

-- `folder/*.extension`
pub record Pattern : Type 0 where
  pub folder : String
  pub extension : String

pub record DataSourceOptions : Type 0 where
  pub type : String
  pub host : Option String
  pub port : Option String
  pub username : Option String
  pub password : Option String
  pub database : Option String
  pub schema : String
  pub synchronize : Bool
  pub entities : List String
  pub migrations : List Pattern
  pub migrations_run : Bool
  pub reject_unauthorized : Bool
  pub max : Option ℕ
  pub min : Option ℕ
  pub idle_timeout_millis : ℕ
  pub connection_timeout_millis : ℕ

-- `a ?? b`
abbrev or_text : Option String → String → String
or_text none b = b
or_text (some a) b = a

module _ (env : String → Option String) where
  -- `useFactory` of `DatabaseModule`
  abbrev pub application : DataSourceOptions
  application = record {
    type = "postgres";
    host = env "DB_HOST";
    port = env "DB_PORT";
    username = env "DB_USER";
    password = env "DB_PASSWORD";
    database = env "DB_NAME";
    schema = "public";
    synchronize = false;
    entities = "Tenant" ∷ "TenantInvitation" ∷ [];
    migrations = record { folder = "dist/database/migrations/public"; extension = "js" } ∷ [];
    migrations_run = true;
    reject_unauthorized = false;
    max = none;
    min = none;
    idle_timeout_millis = 60000;
    connection_timeout_millis = 5000;
  }

  -- `AppDataSource` of public.datasource.ts
  abbrev pub public_command_line : DataSourceOptions
  public_command_line = record {
    type = "postgres";
    host = env "DB_HOST";
    port = some (or_text (env "DB_PORT") "5432");
    username = env "DB_USER";
    password = env "DB_PASSWORD";
    database = env "DB_NAME";
    schema = "public";
    synchronize = false;
    entities = "Tenant" ∷ "TenantInvitation" ∷ [];
    migrations =
        record { folder = "src/database/migrations/public"; extension = "ts" }
        ∷ record { folder = "src/database/migrations/public"; extension = "js" }
        ∷ [];
    migrations_run = false;
    reject_unauthorized = false;
    max = some 20;
    min = some 5;
    idle_timeout_millis = 30000;
    connection_timeout_millis = 5000;
  }

  -- tenant.datasource.ts
  abbrev pub tenant_command_line : DataSourceOptions
  tenant_command_line = record {
    type = "postgres";
    host = env "DB_HOST";
    port = env "DB_PORT";
    username = env "DB_USER";
    password = env "DB_PASSWORD";
    database = env "DB_NAME";
    schema = or_text (env "TENANT_SCHEMA") "tenant_acme";
    synchronize = false;
    entities = "User" ∷ "Product" ∷ "Feedback" ∷ "Changelog" ∷ [];
    migrations = record { folder = "src/database/migrations/tenant"; extension = "ts" } ∷ [];
    migrations_run = false;
    reject_unauthorized = false;
    max = some 20;
    min = some 5;
    idle_timeout_millis = 30000;
    connection_timeout_millis = 5000;
  }
