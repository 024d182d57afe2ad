-- ===== src/Provisioning/Silence.antt =====
-- The calls of src/database/tenant-datasource.service.ts send nothing to Redis.
use multitenancy.Prelude.{List, String, Option, none, some, ◌≡◌, refl, arith}
use multitenancy.Cache
use multitenancy.World.{World, DataSource, pure, raise, ◌>>=◌}
use multitenancy.Platform.{Platform, Migration}
use multitenancy.Repository.{execute}
use multitenancy.Provisioning.{get_data_source, provision, initialize, run_migrations, cached}

module _ (sys : Platform) (ups : List Migration) where
  run_migrations-redis :
      (name : String) (w : World) → (run_migrations sys ups name w).1.redis ≡ w.redis
  unfolding run_migrations
  run_migrations-redis name w = ground arith

  provision-redis : (name : String) (w : World) → (provision sys ups name w).1.redis ≡ w.redis
  unfolding provision initialize execute ◌>>=◌
  provision-redis name w = ground arith

  cached-redis : (o : Option DataSource) (w : World) → (cached sys ups o w).1.redis ≡ w.redis
  unfolding cached raise pure
  cached-redis none w = refl
  cached-redis (some ds) w = refl

  pub get_data_source-redis :
      (name : String) (w : World) → (get_data_source sys ups name w).1.redis ≡ w.redis
  unfolding get_data_source
  get_data_source-redis name w =
      ground (arith, provision-redis name w, cached-redis (Cache.get name w.connections) w)
