-- ===== src/Entities/Clash.antt =====
-- The columns that a decorator of an entity makes unique (`unique: true`), and the primary key of
-- `BaseEntity`: when two rows clash.
use multitenancy.Prelude.{Bool, ◌==◌, ◌||◌}
use multitenancy.Entities.{BaseEntity, Tenant, TenantInvitation, User, Product, Changelog, Feedback}

-- the primary key
abbrev pub same_id : BaseEntity → BaseEntity → Bool
same_id a b = a.id == b.id

abbrev pub tenant : Tenant → Tenant → Bool
tenant a b =
    same_id a.base b.base
    || a.slug == b.slug
    || a.tenant_owner_email == b.tenant_owner_email
    || a.schema_name == b.schema_name

abbrev pub invitation : TenantInvitation → TenantInvitation → Bool
invitation a b = same_id a.base b.base || a.token == b.token

abbrev pub user : User → User → Bool
user a b = same_id a.base b.base || a.email == b.email

abbrev pub product : Product → Product → Bool
product a b = same_id a.base b.base || a.tenant_schema == b.tenant_schema

abbrev pub changelog : Changelog → Changelog → Bool
changelog a b = same_id a.base b.base

abbrev pub feedback : Feedback → Feedback → Bool
feedback a b = same_id a.base b.base
