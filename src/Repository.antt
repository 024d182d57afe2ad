-- ===== src/Repository.antt =====
-- The repositories that the services work with, `getRepository(Entity)` of the public data source and
-- of a tenant's, and the calls they make of them. Each call is one statement: it may be rejected, it
-- takes time, and the result of one is what the platform's operation gives on the table.
pub mod Evolves
pub mod Runs
pub mod Rows
pub mod Accepted
use multitenancy.Prelude.{ℕ, ◌+◌, String, Bool, not, Option, none, some, List, ◌==◌, if◌then◌else◌}
use multitenancy.Exceptions.{Exception, database}
use multitenancy.Entities.{BaseEntity, Tenant, TenantInvitation, User, Product, Changelog, Feedback}
use multitenancy.Entities.Clash
use multitenancy.World.{
  World, DataSource, PublicTables, TenantTables, Result, ok, err, Action, tables_of, set_tables,
}
use multitenancy.Platform.{Platform}

pub record Repository (E : Type 0) : Type 0 where
  -- `none` where the table is missing
  pub rows : World → Option (List E)
  pub write : List E → World → World
  pub clash : E → E → Bool
  base_of : E → BaseEntity
  -- the column `updated_at` of an update
  pub touch : ℕ → E → E

abbrev pub connection_lost : Exception
connection_lost = database "Connection terminated"

abbrev pub missing_relation : Exception
missing_relation = database "relation does not exist"

abbrev pub unique_violation : Exception
unique_violation = database "duplicate key value violates unique constraint"

abbrev touch_base : ℕ → BaseEntity → BaseEntity
touch_base now b = record b { updated_at = now }

abbrev on_public : (PublicTables → PublicTables) → World → World
on_public f w = elim w.public [ none ↦ w | some t ↦ record w { public = some (f t) } ]

abbrev pub tenants_repository : Repository Tenant
tenants_repository = record {
  rows = λ w. elim w.public [ none ↦ none | some t ↦ some t.tenants ];
  write = λ rows. on_public (λ t. record t { tenants = rows });
  clash = Clash.tenant;
  base_of = λ x. x.base;
  touch = λ now x. record x { base = touch_base now x.base };
}

abbrev pub invitations_repository : Repository TenantInvitation
invitations_repository = record {
  rows = λ w. elim w.public [ none ↦ none | some t ↦ some t.invitations ];
  write = λ rows. on_public (λ t. record t { invitations = rows });
  clash = Clash.invitation;
  base_of = λ x. x.base;
  touch = λ now x. record x { base = touch_base now x.base };
}

abbrev on_tenant : String → (TenantTables → TenantTables) → World → World
on_tenant s f w = elim (tables_of s w.schemas) [
  | none ↦ w
  | some t ↦ record w { schemas = set_tables s (f t) w.schemas }
]

abbrev pub users_repository : DataSource → Repository User
users_repository ds = record {
  rows = λ w. elim (tables_of ds.schema w.schemas) [ none ↦ none | some t ↦ some t.users ];
  write = λ rows. on_tenant ds.schema (λ t. record t { users = rows });
  clash = Clash.user;
  base_of = λ x. x.base;
  touch = λ now x. record x { base = touch_base now x.base };
}

abbrev pub products_repository : DataSource → Repository Product
products_repository ds = record {
  rows = λ w. elim (tables_of ds.schema w.schemas) [ none ↦ none | some t ↦ some t.products ];
  write = λ rows. on_tenant ds.schema (λ t. record t { products = rows });
  clash = Clash.product;
  base_of = λ x. x.base;
  touch = λ now x. record x { base = touch_base now x.base };
}

abbrev pub changelogs_repository : DataSource → Repository Changelog
changelogs_repository ds = record {
  rows = λ w. elim (tables_of ds.schema w.schemas) [ none ↦ none | some t ↦ some t.change_logs ];
  write = λ rows. on_tenant ds.schema (λ t. record t { change_logs = rows });
  clash = Clash.changelog;
  base_of = λ x. x.base;
  touch = λ now x. record x { base = touch_base now x.base };
}

abbrev pub feedback_repository : DataSource → Repository Feedback
feedback_repository ds = record {
  rows = λ w. elim (tables_of ds.schema w.schemas) [ none ↦ none | some t ↦ some t.feedback ];
  write = λ rows. on_tenant ds.schema (λ t. record t { feedback = rows });
  clash = Clash.feedback;
  base_of = λ x. x.base;
  touch = λ now x. record x { base = touch_base now x.base };
}

abbrev pub has_other_id : {E : Type 0} → Repository E → String → E → Bool
has_other_id repo id x = not ((repo.base_of x).id == id)

module _ (sys : Platform) where
  -- the world as a statement finds it
  abbrev pub sent : World → World
  sent w = record w { clock = w.clock + sys.latency w.calls; calls = w.calls + 1 }

  unfoldable pub statement : {A : Type 0} → (World → Result A × World) → Action A
  statement body w = if sys.rejects w.calls then (err connection_lost, sent w) else body (sent w)

  -- a statement that only writes
  unfoldable pub execute : (World → World) → Action (Unit {0})
  unfolding statement
  execute f = statement (λ w. (ok tt, f w))

  -- the generated columns of the row that a statement inserts
  abbrev pub generated : World → BaseEntity
  generated w = record { id = sys.row_id w.calls; created_at = w.clock; updated_at = w.clock }

  module _ {E : Type 0} (repo : Repository E) where
    -- a statement on the table of the repository
    unfoldable pub on_rows : {A : Type 0} → (List E → World → Result A × World) → Action A
    unfolding statement
    on_rows body =
        statement
          λ w. elim (repo.rows w) [ none ↦ (err missing_relation, w) | some rows ↦ body rows w ]

    abbrev found_row : (E → Bool) → List E → World → Result (Option E) × World
    found_row p rows w = (ok (sys.find_one E p rows), w)

    -- `findOne({ where })`
    unfoldable pub find_one : (E → Bool) → Action (Option E)
    unfolding on_rows
    find_one p = on_rows (found_row p)

    abbrev insert_row : (BaseEntity → E) → List E → World → Result E × World
    insert_row row rows w = elim (sys.insert E repo.clash (row (generated w)) rows) [
      | none ↦ (err unique_violation, w)
      | some rows' ↦ (ok (row (generated w)), repo.write rows' w)
    ]

    -- `save` of an entity with no id: an insert, with the generated columns
    unfoldable pub save : (BaseEntity → E) → Action E
    unfolding on_rows
    save row = on_rows (insert_row row)

    abbrev update_rows : (E → Bool) → (E → E) → List E → World → Result (Unit {0}) × World
    update_rows p f rows w =
        (ok tt, repo.write (sys.update E p (λ x. repo.touch w.clock (f x)) rows) w)

    -- an update of the rows that pass `p`
    unfoldable pub update_where : (E → Bool) → (E → E) → Action (Unit {0})
    unfolding on_rows
    update_where p f = on_rows (update_rows p f)

    -- `update(id, { … })`
    unfoldable pub update : String → (E → E) → Action (Unit {0})
    update id f = update_where (λ x. (repo.base_of x).id == id) f

    abbrev delete_row : String → List E → World → Result (Unit {0}) × World
    delete_row id rows w = (ok tt, repo.write (sys.delete E (has_other_id repo id) rows) w)

    -- `delete(id)`
    unfoldable pub delete : String → Action (Unit {0})
    unfolding on_rows
    delete id = on_rows (delete_row id)
