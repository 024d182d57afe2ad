-- ===== src/Auth/Rollback.antt =====
-- What the `catch` block of `AuthService.signup` undoes (src/auth/auth.service.ts, lines 69 to 80).
use multitenancy.Prelude.{
  ◌≤◌, String, false, Option, none, some, List, ◌≡◌, ◌≢◌, refl, ◌∙◌, arith, ◌==◌, if◌then◌else◌,
  ==_ne,
}
use multitenancy.Prelude.Assoc.{find, find-remove}
use multitenancy.Exceptions.{Exception}
use multitenancy.Entities.{Tenant}
use multitenancy.Cache
use multitenancy.Cache.{get-delete}
use multitenancy.World.{World, PublicTables, ok, err, continue, ◌>>=◌}
use multitenancy.Platform.{Platform, Migration, Calm, keep}
use multitenancy.Repository.{tenants_repository, has_other_id, sent, execute, delete}
use multitenancy.Provisioning.Isolation.{IsKeyed, delete_connection-Calm}
use multitenancy.Auth.{drop_schema, delete_tenant, rollback}

-- the tenants without the one that was saved
abbrev without_tenant : Option Tenant → PublicTables → PublicTables
without_tenant none t = t
without_tenant (some tenant) t = record t {
  tenants = keep (has_other_id tenants_repository tenant.base.id) t.tenants;
}

module _ (sys : Platform) (ups : List Migration) where
  delete_tenant_lem :
      (tenant : Option Tenant) (w : World) (t : PublicTables) (calm : Calm sys w.calls)
      → w.public ≡ some t
      → let (r, v) = delete_tenant sys ups tenant w in
        (r ≡ ok tt)
        × (v.public ≡ some (without_tenant tenant t))
        × (v.schemas ≡ w.schemas)
        × (v.connections ≡ w.connections)
        × (w.calls ≤ v.calls)
  unfolding delete_tenant delete ◌>>=◌
  delete_tenant_lem none w t calm e = (refl, e, refl, refl, omega arith)
  delete_tenant_lem (some tenant) w t calm e = ground (
    arith,
    calm w.calls (omega arith),
    sys.delete_lem Tenant (has_other_id tenants_repository tenant.base.id) t.tenants,
  )

  -- In a state with the platform's tables, with connections keyed by their schemas and from a statement
  -- on from which the server rejects none, the handler of a signup of any schema but `public` throws
  -- the error that it was given, and leaves no such schema, the others as they were, the tenants without the one that had
  -- been saved, and no connection of that schema.
  pub rollback_undoes :
      {A : Type 0} (schema : String) (tenant : Option Tenant) (x : Exception) (w : World)
      (t : PublicTables)
      → schema ≢ "public"
      → w.public ≡ some t
      → IsKeyed w
      → Calm sys w.calls
      → let (r, v) = rollback sys ups {A = A} schema tenant x w in
        (r ≡ err x)
        × (v.public ≡ some (without_tenant tenant t))
        × ((k : String) → find k v.schemas ≡ (if schema == k then none else find k w.schemas))
        × (Cache.get schema v.connections ≡ none)
  unfolding rollback execute drop_schema ◌>>=◌
  rollback_undoes schema tenant x w t ne e keyed calm =
      let sent_ok : sys.rejects w.calls ≡ false = calm w.calls (omega arith) in
      let w1 : World = drop_schema schema (sent sys w) in
      let (r1, p1, s1, c1, n1) =
        delete_tenant_lem tenant w1 t (λ m h. calm m (omega arith))
          (rw (==_ne schema "public" ne) e) in
      let w2 : World = (delete_tenant sys ups tenant w1).1 in
      let (r2, p2, s2, c2) =
        delete_connection-Calm sys ups schema w2 (λ m h. calm m (omega arith))
          (λ k ds e'. keyed k ds (rw c1 at e')) in
      rw (sent_ok, r1, r2, continue)
        (refl, p2 ∙ p1, λ k. rw (s2, s1) (find-remove schema k w.schemas), c2)
