-- ===== src/Provisioning/Clock.antt =====
-- The clock over the calls of src/database/tenant-datasource.service.ts: it does not go back.
use multitenancy.Prelude.{◌≤◌, Bool, String, Option, none, some, List, arith}
use multitenancy.Cache
use multitenancy.World.{World, DataSource, raise, pure, ◌>>=◌}
use multitenancy.World.Evolves.{Preorder, Evolves}
use multitenancy.Platform.{Platform, Migration}
use multitenancy.Repository.{Repository, find_one}
use multitenancy.Repository.Evolves.{Evolves-find_one}
use multitenancy.Provisioning.{get_data_source, provision, initialize, run_migrations, cached}

abbrev pub Passes : World → World → Type 0
Passes u v = u.clock ≤ v.clock

pub Passes-order : Preorder Passes
Passes-order = record { same = λ w. omega arith; after = λ u v w h k. omega arith }

module _ (sys : Platform) where
  pub find_one-Passes :
      {E : Type 0} (repo : Repository E) (p : E → Bool) → Evolves Passes (find_one sys repo p)
  find_one-Passes repo p = Evolves-find_one sys (λ w. omega arith) repo p

module _ (sys : Platform) (ups : List Migration) where
  run_migrations-clock :
      (name : String) (w : World) → w.clock ≤ (run_migrations sys ups name w).1.clock
  unfolding run_migrations
  run_migrations-clock name w = ground arith

  provision-clock : (name : String) (w : World) → w.clock ≤ (provision sys ups name w).1.clock
  unfolding provision initialize ◌>>=◌
  provision-clock name w = ground arith

  cached-clock : (o : Option DataSource) (w : World) → w.clock ≤ (cached sys ups o w).1.clock
  unfolding cached raise pure
  cached-clock none w = omega arith
  cached-clock (some ds) w = omega arith

  pub get_data_source-Passes : (name : String) → Evolves Passes (get_data_source sys ups name)
  unfolding get_data_source
  get_data_source-Passes name = record {
    at = λ w. ground (arith, provision-clock name w, cached-clock (Cache.get name w.connections) w);
  }
