-- ===== src/Auth/Bare.antt =====
-- The migration that is checked in (src/database/migrations/tenant) and `CREATE SCHEMA` leave a schema
-- other than "tenant_acme" without tenant tables.
use multitenancy.Prelude.{
  String, true, none, some, ◌≡◌, ◌≢◌, refl, arith, eq_iff, Option-cases, inl, inr,
}
use multitenancy.Prelude.Assoc.{find, find-put}
use multitenancy.World.{World, Schemas, tables_of}
use multitenancy.Platform.{run_pending, run_all, record_migrated}
use multitenancy.Provisioning.{no_rows, checked_in, create_tables, add_index_to_products}
use multitenancy.Auth.{create_schema, empty_schema}

-- The schema holds no tenant tables.
abbrev pub Bare : String → World → Type 0
Bare slug w = tables_of slug w.schemas ≡ none

abbrev pub StaysBare : String → World → World → Type 0
StaysBare slug u v = Bare slug u → Bare slug v

pub create_schema-bare :
    (slug : String) (s : Schemas)
    → tables_of slug s ≡ none
    → tables_of slug (create_schema slug s) ≡ none
unfolding tables_of create_schema
create_schema-bare slug s h = elim (Option-cases (find slug s)) [
  | inl absent ↦
      rw (create_schema, absent) (ground (arith, find-put slug slug empty_schema s, absent))
  | inr (sch, there) ↦ ground arith
]

-- the tables of a schema are not changed by creating those of another, nor by recording a migration
create_tables-other :
    (name slug : String) (s s' : Schemas)
    → name ≢ slug
    → create_tables name s ≡ some s'
    → tables_of slug s' ≡ tables_of slug s
unfolding create_tables tables_of
create_tables-other name slug s s' ne e = elim (Option-cases (find name s)) [
  | inl absent ↦ ground (arith, absent)
  | inr (sch, there) ↦
      ground (
        arith,
        there,
        find-put name slug (record sch { tables = some no_rows }) s,
        eq_iff name slug,
      )
]

record_migrated-tables :
    (name slug : String) (s : Schemas) → tables_of slug (record_migrated name s) ≡ tables_of slug s
unfolding record_migrated tables_of
record_migrated-tables name slug s = elim (Option-cases (find name s)) [
  | inl absent ↦ rw (record_migrated, absent) refl
  | inr (sch, there) ↦
      rw (record_migrated, there)
        (ground
          (arith, there, find-put name slug (record sch { migrated = true }) s, eq_iff name slug))
]

pub migrated-bare :
    (slug : String) (s s' : Schemas)
    → "tenant_acme" ≢ slug
    → tables_of slug s ≡ none
    → run_pending checked_in slug s ≡ some s'
    → tables_of slug s' ≡ none
unfolding run_pending run_all add_index_to_products
migrated-bare slug s s' ne h e = elim (Option-cases (create_tables "tenant_acme" s)) [
  | inl refused ↦ ground (arith, refused)
  | inr (made, created) ↦ ground (
    arith,
    created,
    create_tables-other "tenant_acme" slug s made ne created,
    record_migrated-tables slug slug made,
  )
]
