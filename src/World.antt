-- ===== src/World.antt =====
-- The state that the services read and write, and the actions on it. An action gives back the state
-- beside its result also when it throws: what was written before the exception stays written.
pub mod Evolves
pub mod Runs
pub mod Tables
use multitenancy.Prelude.{ℕ, String, Bool, true, false, Option, none, some, List, if◌then◌else◌}
use multitenancy.Prelude.Assoc.{Assoc, find, put}
use multitenancy.Exceptions.{Exception}
use multitenancy.Entities.{Tenant, TenantInvitation, User, Product, Changelog, Feedback}
use multitenancy.Cache.{CacheWrapper}
use multitenancy.Redis.{Command}

-- `DataSource` of TypeORM, as far as the code looks at it
pub record DataSource : Type 0 where
  pub schema : String
  pub is_initialized : Bool

-- The tables of the public data source (`entities: [Tenant, TenantInvitation]`).
pub record PublicTables : Type 0 where
  pub tenants : List Tenant
  pub invitations : List TenantInvitation

-- The tables of a tenant (`entities: [User, Product, Feedback, Changelog]`).
pub record TenantTables : Type 0 where
  pub users : List User
  pub products : List Product
  pub feedback : List Feedback
  pub change_logs : List Changelog

-- A schema of the database: whether the tenant migrations are recorded in it, and the tenant tables
-- that it holds, if any.
pub record Schema : Type 0 where
  pub migrated : Bool
  pub tables : Option TenantTables

abbrev pub Schemas : Type 0
Schemas = Assoc Schema

-- `public` is `none` once the public schema has been dropped. `calls` counts the statements sent.
pub record World : Type 0 where
  pub public : Option PublicTables
  pub schemas : Schemas
  pub connections : CacheWrapper DataSource
  pub redis : List Command
  pub clock : ℕ
  pub calls : ℕ

pub data Result (A : Type 0) : Type 0 where
  ok : A → Result A
  err : Exception → Result A

abbrev pub Action : Type 0 → Type 0
Action A = World → Result A × World

module _ {A : Type 0} where
  unfoldable pub pure : A → Action A
  pure a w = (ok a, w)

  unfoldable pub raise : Exception → Action A
  raise x w = (err x, w)

  unfoldable pub gets : (World → A) → Action A
  gets f w = (ok (f w), w)

  -- `if (!value) throw x`
  unfoldable pub or_raise : Option A → Exception → Action A
  or_raise none x w = (err x, w)
  or_raise (some a) x w = (ok a, w)

  unfoldable pub recover : Result A → (Exception → Action A) → Action A
  recover (ok a) handler w = (ok a, w)
  recover (err x) handler w = handler x w

  -- `try { m } catch (error) { handler(error) }`
  unfoldable pub catch : Action A → (Exception → Action A) → Action A
  unfolding recover
  catch m handler w = let (r, w') = m w in recover r handler w'

unfoldable pub raise_if : Bool → Exception → Action (Unit {0})
raise_if c x w = (if c then err x else ok tt, w)

unfoldable pub modify : (World → World) → Action (Unit {0})
modify f w = (ok tt, f w)

module _ {A B : Type 0} where
  unfoldable pub continue : Result A → (A → Action B) → Action B
  continue (ok a) f w = f a w
  continue (err x) f w = (err x, w)

  infixl 5 ◌>>=◌ ◌>>◌
  -- opening this opens the actions above
  unfoldable pub ◌>>=◌ : Action A → (A → Action B) → Action B
  unfolding continue pure raise gets or_raise catch raise_if modify
  ◌>>=◌ m f w = let (r, w') = m w in continue r f w'

  abbrev pub ◌>>◌ : Action A → Action B → Action B
  m >> k = m >>= λ _. k

abbrev pub is_some {ℓ} : {A : Type ℓ} → Option A → Bool
is_some none = false
is_some (some _) = true

-- The tenant tables of a schema; `none` if the schema or its tables are missing.
unfoldable pub tables_of : String → Schemas → Option TenantTables
tables_of s schemas = elim (find s schemas) [ none ↦ none | some sch ↦ sch.tables ]

unfoldable pub set_tables : String → TenantTables → Schemas → Schemas
set_tables s t schemas = elim (find s schemas) [
  | none ↦ schemas
  | some sch ↦ put s (record sch { tables = some t }) schemas
]
