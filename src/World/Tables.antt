-- ===== src/World/Tables.antt =====
-- Tenant tables that are read after they have been written, in the same schema and in another.
use multitenancy.Prelude.{String, some, ◌≡◌, ◌==◌, arith, if◌then◌else◌, Option-cases, inl, inr}
use multitenancy.Prelude.Assoc.{find, find-put}
use multitenancy.World.{Schemas, TenantTables, tables_of, set_tables}

-- A write to the tables of `s` is read back from `s`, and from no other schema.
pub tables_of-set_tables :
    (s k : String) (t old : TenantTables) (schemas : Schemas)
    → tables_of s schemas ≡ some old
    → tables_of k (set_tables s t schemas) ≡ (if s == k then some t else tables_of k schemas)
unfolding tables_of set_tables
tables_of-set_tables s k t old schemas e = elim (Option-cases (find s schemas)) [
  | inl absent ↦ ground (arith, absent)
  | inr (sch, there) ↦
      rw (set_tables, there)
        (ground (arith, find-put s k (record sch { tables = some t }) schemas, there))
]
