-- ===== src/Provisioning/Reuse.antt =====
-- A data source that `getDataSource` has handed out once is handed out again, with no statement sent
-- (src/database/tenant-datasource.service.ts).
use multitenancy.Prelude.{List, String, some, ◌≡◌, refl, ==_refl, Option-cases, inl, inr, ◌∙◌}
use multitenancy.Cache
use multitenancy.Cache.{get-set, has-eq-get}
use multitenancy.World.{World, DataSource, Action, ok, pure, modify, ◌>>=◌, ◌>>◌}
use multitenancy.World.Runs.{Runs, Runs-bind, Runs-of_Evolves}
use multitenancy.Platform.{Platform, Migration}
use multitenancy.Provisioning.{
  data_source, initialize, run_migrations, provision, cached, get_data_source,
}
use multitenancy.Provisioning.Isolation.{IsKeyed}

abbrev pub Ready : String → DataSource → World → Type 0
Ready name ds w = (ds ≡ data_source name) × (Cache.get name w.connections ≡ some (data_source name))

module _ (sys : Platform) (ups : List Migration) where
  pub any_state :
      {A : Type 0} (m : Action A) → Runs (λ w. Unit {0}) m (λ _ _. Unit {0}) (λ _ _. Unit {0})
  any_state m = Runs-of_Evolves (λ _. Unit {0}) m (record { at = λ w _. tt })

  remember-Ready :
      (name : String)
      → Runs
          (λ w. Unit {0})
          (modify (λ w. record w { connections = Cache.set name (data_source name) w.connections })
            >> pure (data_source name))
          (Ready name)
          (λ _ _. Unit {0})
  unfolding ◌>>=◌
  remember-Ready name = record {
    at = λ w h. (refl, get-set name name (data_source name) w.connections ∙ rw (==_refl name) refl);
  }

  provision-Ready :
      (name : String) → Runs (λ w. Unit {0}) (provision sys ups name) (Ready name) (λ _ _. Unit {0})
  unfolding provision
  provision-Ready name =
      Runs-bind (initialize sys ups) _ (λ _ _. Unit {0}) (any_state (initialize sys ups))
        λ _.
          Runs-bind (run_migrations sys ups name) _ (λ _ _. Unit {0})
            (any_state (run_migrations sys ups name)) λ _. remember-Ready name

  pub get_data_source-Ready :
      (name : String) → Runs IsKeyed (get_data_source sys ups name) (Ready name) (λ _ _. Unit {0})
  unfolding get_data_source cached ◌>>=◌
  get_data_source-Ready name = record {
    at = λ w h. elim (Option-cases (Cache.get name w.connections)) [
      | inl fresh ↦ rw (has-eq-get, fresh) ((provision-Ready name).at w tt)
      | inr (ds, known) ↦ rw (has-eq-get, known) (h name ds known, rw (h name ds known) at known)
    ];
  }

  -- a cached data source is handed out, and nothing else happens
  pub get_data_source-cached :
      (name : String) (w : World) (ds : DataSource)
      → Cache.get name w.connections ≡ some ds
      → get_data_source sys ups name w ≡ (ok ds, w)
  unfolding get_data_source cached ◌>>=◌
  get_data_source-cached name w ds known = rw (has-eq-get, known) refl

  -- From connections keyed by their schemas: when `getDataSource` has handed out a data source, asking
  -- for the same schema again hands out the same one, sends no statement and changes nothing.
  pub get_data_source_again :
      (name : String) (w v : World) (ds : DataSource)
      → IsKeyed w
      → get_data_source sys ups name w ≡ (ok ds, v)
      → get_data_source sys ups name v ≡ (ok ds, v)
  get_data_source_again name w v ds h e =
      let (same, known) : Ready name ds v = rw e at ((get_data_source-Ready name).at w h) in
      get_data_source-cached name v ds (rw same known)
