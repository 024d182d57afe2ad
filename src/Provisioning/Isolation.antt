-- ===== src/Provisioning/Isolation.antt =====
-- The cache of connections gives every schema its own data source, and handing one out leaves the
-- platform's tables alone (src/database/tenant-datasource.service.ts).
use multitenancy.Prelude.{
  [], ◌∷◌, ◌++◌, Bool, ==_refl, String, Option, none, some, List, ◌≡◌, refl, ◌∙◌, ◌&&◌, not, ◌==◌,
  arith, eq_iff, if◌then◌else◌, Option-cases, inl, inr,
}
use multitenancy.Entities.{BaseEntity, User}
use multitenancy.Repository.{users_repository, sent, generated, find_one, save}
use multitenancy.Repository.Evolves.{Evolves-find_one, Evolves-save}
use multitenancy.Cache
use multitenancy.Cache.{get-set, get-delete, has-eq-get}
use multitenancy.World.{ok, World, DataSource, Action, pure, modify, ◌>>=◌, ◌>>◌}
use multitenancy.World.Evolves.{Preorder, Evolves}
use multitenancy.World.Runs.{
  Runs, Post, Runs-bind, Runs-of_Evolves, Runs-state, Runs-to, Runs-state, Runs-to,
}
use multitenancy.Platform.{Platform, Migration, Calm}
use multitenancy.Repository.{execute}
use multitenancy.Provisioning.{
  data_source, initialize, destroy, run_migrations, provision, cached, get_data_source,
  drop_connection, delete_connection,
}

-- The platform's own tables are as they were.
abbrev pub SamePublic : World → World → Type 0
SamePublic u v = v.public ≡ u.public

pub SamePublic-order : Preorder SamePublic
SamePublic-order = record { same = λ w. refl; after = λ u v w p q. q ∙ p }

-- Under each key stands a live data source of that schema.
abbrev pub IsKeyed : World → Type 0
IsKeyed w =
    (k : String) (ds : DataSource) → Cache.get k w.connections ≡ some ds → ds ≡ data_source k

-- The connections stay keyed by their schemas.
abbrev pub KeepsKeyed : World → World → Type 0
KeepsKeyed u v = IsKeyed u → IsKeyed v

pub KeepsKeyed-order : Preorder KeepsKeyed
KeepsKeyed-order = record { same = λ w h. h; after = λ u v w p q h. q (p h) }

pub KeepsKeyed-of_same : (u v : World) → v.connections ≡ u.connections → KeepsKeyed u v
KeepsKeyed-of_same u v same h k ds e = h k ds (rw same at e)

module _ (sys : Platform) where
  pub users_save-KeepsKeyed :
      (ds : DataSource) (row : BaseEntity → User)
      → Evolves KeepsKeyed (save sys (users_repository ds) row)
  users_save-KeepsKeyed ds row =
      Evolves-save sys (λ w h. h) (users_repository ds) row
        (λ w rows e new.
          KeepsKeyed-of_same w
            ((users_repository ds).write (rows ++ row (generated sys (sent sys w)) ∷ [])
              (sent sys w))
            (ground arith))

  pub users_find-SamePublic :
      (ds : DataSource) (p : User → Bool)
      → Evolves SamePublic (find_one sys (users_repository ds) p)
  users_find-SamePublic ds p = Evolves-find_one sys (λ w. refl) (users_repository ds) p

  pub users_save-SamePublic :
      (ds : DataSource) (row : BaseEntity → User)
      → Evolves SamePublic (save sys (users_repository ds) row)
  users_save-SamePublic ds row =
      Evolves-save sys (λ w. refl) (users_repository ds) row (λ w rows e new. ground arith)

module _ (sys : Platform) (ups : List Migration) where
  pub run_migrations-SamePublic : (name : String) → Evolves SamePublic (run_migrations sys ups name)
  unfolding run_migrations
  run_migrations-SamePublic name = record { at = λ w. ground arith }

  pub provision-SamePublic : (name : String) → Evolves SamePublic (provision sys ups name)
  unfolding provision initialize execute ◌>>=◌
  provision-SamePublic name = record { at = λ w. ground arith }

  pub cached-SamePublic : (o : Option DataSource) → Evolves SamePublic (cached sys ups o)
  unfolding cached ◌>>=◌
  cached-SamePublic none = record { at = λ w. refl }
  cached-SamePublic (some ds) = record { at = λ w. refl }

  pub get_data_source-SamePublic :
      (name : String) → Evolves SamePublic (get_data_source sys ups name)
  unfolding get_data_source
  get_data_source-SamePublic name = record {
    at = λ w. ground (
      arith,
      (provision-SamePublic name).at w,
      (cached-SamePublic (Cache.get name w.connections)).at w,
    );
  }

  set-IsKeyed :
      (name : String) (w : World)
      → IsKeyed w
      → IsKeyed (record w { connections = Cache.set name (data_source name) w.connections })
  set-IsKeyed name w h k ds e =
      ground (arith, get-set name k (data_source name) w.connections, eq_iff name k, h k ds)

  delete-IsKeyed :
      (name : String) (w : World)
      → IsKeyed w
      → IsKeyed (record w { connections = Cache.delete name w.connections })
  delete-IsKeyed name w h k ds e = ground (arith, get-delete name k w.connections, h k ds)

  -- the two ends of a call: what it hands out, and the cache that it leaves
  abbrev pub Isolated : String → DataSource → World → Type 0
  Isolated name ds w = (ds ≡ data_source name) × IsKeyed w

  connections-initialize : (w : World) → (initialize sys ups w).1.connections ≡ w.connections
  unfolding initialize execute
  connections-initialize w = ground arith

  connections-run_migrations :
      (name : String) (w : World) → (run_migrations sys ups name w).1.connections ≡ w.connections
  unfolding run_migrations
  connections-run_migrations name w = ground arith

  keep-IsKeyed :
      {A : Type 0} (m : Action A)
      → ((w : World) → (m w).1.connections ≡ w.connections)
      → Runs IsKeyed m (λ _. IsKeyed) (λ _. IsKeyed)
  keep-IsKeyed m same =
      Runs-of_Evolves IsKeyed m (record { at = λ w h k ds e. h k ds (rw (same w) at e) })

  remember-IsKeyed :
      (name : String)
      → Runs IsKeyed
          (modify (λ w. record w { connections = Cache.set name (data_source name) w.connections })
            >> pure (data_source name))
          (Isolated name)
          (λ _. IsKeyed)
  unfolding ◌>>=◌
  remember-IsKeyed name = record { at = λ w h. (refl, set-IsKeyed name w h) }

  provision-IsKeyed :
      (name : String) → Runs IsKeyed (provision sys ups name) (Isolated name) (λ _. IsKeyed)
  unfolding provision
  provision-IsKeyed name =
      Runs-bind (initialize sys ups) _ (λ _. IsKeyed)
        (keep-IsKeyed (initialize sys ups) connections-initialize)
        λ _.
          Runs-bind (run_migrations sys ups name) _ (λ _. IsKeyed)
            (keep-IsKeyed (run_migrations sys ups name) (connections-run_migrations name))
            λ _. remember-IsKeyed name

  pub provision-KeepsKeyed : (name : String) → Evolves KeepsKeyed (provision sys ups name)
  provision-KeepsKeyed name = record {
    at = λ w h.
        Runs-state IsKeyed IsKeyed (provision sys ups name) w
          (Runs-to (provision sys ups name) (Isolated name) (λ _. IsKeyed) (λ ds v k. k.1)
            (λ x v k. k) (provision-IsKeyed name))
          h;
  }

  -- In a state whose connections are keyed by their schemas, `getDataSource` either throws or hands out
  -- the live data source of the schema that it was asked for, never another tenant's; either way the
  -- connections stay keyed by their schemas.
  pub get_data_source-Isolated :
      (name : String) (w : World)
      → IsKeyed w
      → Post (Isolated name) (λ _. IsKeyed) (get_data_source sys ups name w)
  unfolding get_data_source cached ◌>>=◌
  get_data_source-Isolated name w h = elim (Option-cases (Cache.get name w.connections)) [
    | inl fresh ↦ rw (has-eq-get, fresh) ((provision-IsKeyed name).at w h)
    | inr (ds, known) ↦ rw (has-eq-get, known) (h name ds known, h)
  ]

  -- `deleteConnection` of a schema, when its statement is not rejected, leaves no connection under
  -- that schema, and keeps those of the other schemas; a rejected one keeps them all.
  pub delete_connection_forgets :
      (name k : String) (w : World)
      → IsKeyed w
      → Cache.get k (delete_connection sys ups name w).1.connections
        ≡ (if name == k && not (sys.rejects w.calls) then none else Cache.get k w.connections)
  unfolding delete_connection drop_connection destroy execute ◌>>=◌
  delete_connection_forgets name k w h = elim (Option-cases (Cache.get name w.connections)) [
    | inl absent ↦ rw absent (ground (arith, eq_iff name k))
    | inr (ds, known) ↦
        rw known (ground (arith, h name ds known, eq_iff name k, get-delete name k w.connections))
  ]

  pub delete_connection-Calm :
      (name : String) (w : World) (calm : Calm sys w.calls) (keyed : IsKeyed w)
      → let (r, v) = delete_connection sys ups name w in
        (r ≡ ok tt)
        × (v.public ≡ w.public)
        × (v.schemas ≡ w.schemas)
        × (Cache.get name v.connections ≡ none)
  unfolding delete_connection drop_connection destroy execute ◌>>=◌
  delete_connection-Calm name w calm keyed = elim (Option-cases (Cache.get name w.connections)) [
    | inl absent ↦ rw absent (refl, refl, refl, absent)
    | inr (ds, known) ↦ rw known (
        ground (
          arith,
          keyed name ds known,
          calm w.calls (omega arith),
          get-delete name name w.connections,
          ==_refl name,
        ))
  ]
