-- ===== src/Tests/Acme.antt =====
-- A tenant with its schema, a product and a pending invitation, for the runs at concrete inputs.

use multitenancy.Prelude.{true, none, some, List, [], ◌∷◌, eq_iff, arith}
use multitenancy.Prelude.Assoc.{find}
use multitenancy.Enums.{TenantStatus, free, member, InvitationStatus}
use multitenancy.Entities.{BaseEntity, Tenant, TenantInvitation, Product}
use multitenancy.Cache
use multitenancy.World.{World, PublicTables}
use multitenancy.Platform.{Migration}
use multitenancy.Provisioning.{data_source, no_rows, create_tables}
use multitenancy.Provisioning.Isolation.{IsKeyed}
use multitenancy.Tests.Memory.{empty_world}

abbrev pub row_base : BaseEntity
row_base = record { id = "x1"; created_at = 0; updated_at = 0 }

abbrev pub acme : Tenant
acme = record {
  base = row_base;
  name = "Acme";
  slug = "acme";
  tenant_owner_email = "ann@acme.io";
  schema_name = "acme";
  status = TenantStatus.active;
  plan = free;
}

abbrev pub widget : Product
widget = record { base = row_base; title = "Widget"; description = none; tenant_schema = "acme" }

abbrev pub invitation : TenantInvitation
invitation = record {
  base = row_base;
  tenant_schema = "acme";
  status = InvitationStatus.pending;
  email = "bob@acme.io";
  role = member;
  token = "t1";
  invited_by_user_id = "u1";
  expires_at = 86400000;
  accepted_at = none;
  revoked_at = none;
}

abbrev pub public_tables : PublicTables
public_tables = record { tenants = acme ∷ []; invitations = invitation ∷ [] }

abbrev pub acme_world : World
acme_world = record empty_world {
  public = some public_tables;
  schemas = ("acme", record { migrated = true; tables = some no_rows }) ∷ [];
  connections = record { cache = ("acme", data_source "acme") ∷ [] };
}

pub acme-IsKeyed : IsKeyed acme_world
unfolding Cache.get find
acme-IsKeyed k ds e = ground (arith, eq_iff "acme" k)

abbrev pub ups : List Migration
ups = create_tables "acme" ∷ []

abbrev pub stocked_world : World
stocked_world = record acme_world {
  schemas =
      (
        "acme",
        record { migrated = true; tables = some (record no_rows { products = widget ∷ [] }) },
      )
      ∷ [];
}
