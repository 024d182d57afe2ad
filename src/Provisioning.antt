-- ===== src/Provisioning.antt =====
-- `TenantProvisioningService` of src/database/tenant-datasource.service.ts, and the tenant migration
-- that is checked in under src/database/migrations/tenant. The files that the pattern
-- migrations/tenant/*.js matches at run time are the argument `ups`.
pub mod Isolation
pub mod Reuse
pub mod Silence
pub mod Clock
use multitenancy.Prelude.{
  String, Bool, true, false, Option, none, some, List, [], ◌∷◌, if◌then◌else◌,
}
use multitenancy.Prelude.Assoc.{find, put}
use multitenancy.Exceptions.{Exception, database, type_error}
use multitenancy.Cache
use multitenancy.World.{
  World, DataSource, TenantTables, Schema, Schemas, ok, err, Action, pure, raise, ◌>>=◌, ◌>>◌,
  modify,
}
use multitenancy.Platform.{Platform, Migration}
use multitenancy.Repository.{statement, execute}

abbrev pub no_rows : TenantTables
no_rows = record { users = []; products = []; feedback = []; change_logs = [] }

-- `CREATE TABLE "name"."products" …` and the rest: refused without the schema, and where the tables
-- are there.
unfoldable pub create_tables : String → Migration
create_tables name s = elim (find name s) [
  | none ↦ none
  | some sch ↦ elim sch.tables [
    | none ↦ some (put name (record sch { tables = some no_rows }) s)
    | some _ ↦ none
  ]
]

-- `AddIndexToProducts1781867683948.up`: its statements all name the schema "tenant_acme".
unfoldable pub add_index_to_products : Migration
unfolding create_tables
add_index_to_products = create_tables "tenant_acme"

abbrev pub checked_in : List Migration
checked_in = add_index_to_products ∷ []

abbrev pub data_source : String → DataSource
data_source name = record { schema = name; is_initialized = true }

module _ (sys : Platform) (ups : List Migration) where
  -- `ds.runMigrations()`
  unfoldable pub run_migrations : String → Action (Unit {0})
  unfolding statement
  run_migrations name = statement sys λ w. elim (sys.run_migrations ups name w.schemas) [
    | none ↦ (err (database "migration failed"), w)
    | some s ↦ (ok tt, record w { schemas = s })
  ]

  -- `ds.initialize()` and `connection.destroy()`, which only talk to the server
  unfoldable pub initialize : Action (Unit {0})
  unfolding execute
  initialize = execute sys (λ w. w)

  unfoldable pub destroy : Action (Unit {0})
  unfolding execute
  destroy = execute sys (λ w. w)

  unfoldable pub provision : String → Action DataSource
  unfolding initialize run_migrations
  provision schema_name = do
    initialize
    run_migrations schema_name
    modify (λ w. record w {
      connections = Cache.set schema_name (data_source schema_name) w.connections;
    })
    pure (data_source schema_name)

  -- What the cache holds is handed out as it is, `undefined` too.
  unfoldable pub cached : Option DataSource → Action DataSource
  cached none = raise (type_error "Cannot read properties of undefined (reading 'getRepository')")
  cached (some ds) = pure ds

  unfoldable pub get_data_source : String → Action DataSource
  unfolding cached
  get_data_source schema_name w =
      if Cache.has schema_name w.connections
      then cached (Cache.get schema_name w.connections) w
      else provision schema_name w

  drop_connection : String → Option DataSource → Action (Unit {0})
  unfolding destroy
  drop_connection schema_name none = pure tt
  drop_connection schema_name (some connection) =
      if connection.is_initialized
      then destroy
        >> modify (λ w. record w { connections = Cache.delete schema_name w.connections })
      else pure tt

  unfoldable pub delete_connection : String → Action (Unit {0})
  unfolding drop_connection
  delete_connection schema_name w =
      drop_connection schema_name (Cache.get schema_name w.connections) w
