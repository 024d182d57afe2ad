-- ===== src/Races/Unnoticed.antt =====
-- What an acceptance does not notice once it has read its invitation
-- (`acceptTenantInvitation` of src/tenant/tenant.service.ts).
use multitenancy.Prelude.{
  String, Bool, true, false, Option, none, some, List, ◌≡◌, refl, arith, Bool-cases, Option-cases,
  inl, inr, if◌then◌else◌,
}
use multitenancy.Exceptions.{Exception}
use multitenancy.Entities.{BaseEntity, TenantInvitation, User}
use multitenancy.Cache
use multitenancy.World.{
  World, DataSource, PublicTables, TenantTables, Result, ok, err, Action, pure, raise, raise_if,
  gets, modify, continue, ◌>>=◌, tables_of,
}
use multitenancy.Platform.{Platform, Migration}
use multitenancy.Repository.{
  users_repository, sent, generated, unique_violation, statement, execute, on_rows, find_one, save,
  update, update_where,
}
use multitenancy.Provisioning.{
  data_source, initialize, run_migrations, provision, cached, get_data_source,
}
use multitenancy.Utils.{hash_password}
use multitenancy.Invitations.{AcceptInvitationDto, mark_accepted, stamp_invitation, join_tenant}

-- the state with these tenants and invitations
abbrev pub with_public : PublicTables → World → World
with_public t w = record w { public = some t }

-- From two states that differ in the tenants and invitations only, the action gives the same result, in
-- two such states.
pub record IsBlind {A : Type 0} (m : Action A) : Type 0 where
  pub at :
      (s t : PublicTables) (w : World)
      → (s' : PublicTables) × (t' : PublicTables) × (w' : World) × (r : Result A) × (m
            (with_public s w)
          ≡ (r, with_public s' w'))
        × (m (with_public t w) ≡ (r, with_public t' w'))

module _ {A : Type 0} where
  IsBlind-pure : (a : A) → IsBlind (pure a)
  unfolding pure
  IsBlind-pure a = record { at = λ s t w. (s, t, w, ok a, refl, refl) }

  IsBlind-gets :
      (f : World → A)
      → ((s t : PublicTables) (w : World) → f (with_public s w) ≡ f (with_public t w))
      → IsBlind (gets f)
  unfolding gets
  IsBlind-gets f h = record {
    at = λ s t w. (s, t, w, ok (f (with_public t w)), rw (h s t w) refl, refl);
  }

  IsBlind-if : (b : Bool) (m n : Action A) → IsBlind m → IsBlind n → IsBlind (if b then m else n)
  IsBlind-if true m n hm hn = hm
  IsBlind-if false m n hm hn = hn

IsBlind-raise_if : (b : Bool) (x : Exception) → IsBlind (raise_if b x)
unfolding raise_if
IsBlind-raise_if b x = record { at = λ s t w. (s, t, w, (if b then err x else ok tt), refl, refl) }

module _ {A B : Type 0} where
  IsBlind-bind :
      (m : Action A) (f : A → Action B) → IsBlind m → ((a : A) → IsBlind (f a)) → IsBlind (m >>= f)
  unfolding ◌>>=◌ continue
  IsBlind-bind m f hm hf = record {
    at = λ s t w. let (s', t', w', r, e, e') = hm.at s t w in rw (e, e') (go r s' t' w');
  }
    where
      go :
          (r : Result A) (s' t' : PublicTables) (w' : World)
          → (s'' : PublicTables) × (t'' : PublicTables) × (w'' : World) × (r' : Result B)
            × (continue r f (with_public s' w') ≡ (r', with_public s'' w''))
            × (continue r f (with_public t' w') ≡ (r', with_public t'' w''))
      go (ok a) s' t' w' = (hf a).at s' t' w'
      go (err x) s' t' w' = (s', t', w', err x, refl, refl)

module _ (sys : Platform) where
  IsBlind-initialize : (ups : List Migration) → IsBlind (initialize sys ups)
  unfolding initialize execute statement
  IsBlind-initialize ups = record {
    at = λ s t w. elim (Bool-cases (sys.rejects w.calls)) [
      | inl lost ↦ rw lost (s, t, sent sys w, err _, refl, refl)
      | inr sends ↦ rw sends (s, t, sent sys w, ok tt, refl, refl)
    ];
  }

  IsBlind-run_migrations :
      (ups : List Migration) (name : String) → IsBlind (run_migrations sys ups name)
  unfolding run_migrations statement
  IsBlind-run_migrations ups name = record {
    at = λ s t w. elim (Bool-cases (sys.rejects w.calls)) [
      | inl lost ↦ rw lost (s, t, sent sys w, err _, refl, refl)
      | inr sends ↦ rw sends (elim (Option-cases (sys.run_migrations ups name w.schemas)) [
        | inl refused ↦ rw refused (s, t, sent sys w, err _, refl, refl)
        | inr (made, e) ↦ rw e (s, t, record (sent sys w) { schemas = made }, ok tt, refl, refl)
      ])
    ];
  }

  IsBlind-hash : (password : String) → IsBlind (hash_password sys password)
  unfolding hash_password
  IsBlind-hash password = record {
    at = λ s t w. (s, t, w, ok (sys.hash w.calls password), refl, refl);
  }

  IsBlind-users_find :
      (ds : DataSource) (p : User → Bool) → IsBlind (find_one sys (users_repository ds) p)
  unfolding find_one on_rows statement
  IsBlind-users_find ds p = record {
    at = λ s t w. elim (Bool-cases (sys.rejects w.calls)) [
      | inl lost ↦ rw lost (s, t, sent sys w, err _, refl, refl)
      | inr sends ↦ rw sends (elim (Option-cases (tables_of ds.schema w.schemas)) [
        | inl missing ↦ rw missing (s, t, sent sys w, err _, refl, refl)
        | inr (tables, e) ↦ rw e (s, t, sent sys w, ok _, refl, refl)
      ])
    ];
  }

  -- what the server answers to an insert of a user
  inserted :
      (s t : PublicTables) (answer : Option (List User)) (new : User) (ds : DataSource)
      (tables : TenantTables) (w : World)
      → tables_of ds.schema w.schemas ≡ some tables
      → let after = λ (p : PublicTables). elim answer as (λ _. Result User × World) [
        | none ↦ (err unique_violation, with_public p w)
        | some rows ↦ (ok new, (users_repository ds).write rows (with_public p w))
      ] in
        (s' : PublicTables) × (t' : PublicTables) × (w' : World) × (r : Result User) × (after s
          ≡ (r, with_public s' w'))
        × (after t ≡ (r, with_public t' w'))
  inserted s t none new ds tables w e = (s, t, w, err _, refl, refl)
  inserted s t (some rows) new ds tables w e =
      (s, t, (users_repository ds).write rows w, ok new, ground (arith, e), ground (arith, e))

  IsBlind-users_save :
      (ds : DataSource) (row : BaseEntity → User) → IsBlind (save sys (users_repository ds) row)
  unfolding save on_rows statement
  IsBlind-users_save ds row = record {
    at = λ s t w. elim (Bool-cases (sys.rejects w.calls)) [
      | inl lost ↦ rw lost (s, t, sent sys w, err _, refl, refl)
      | inr sends ↦ rw sends (elim (Option-cases (tables_of ds.schema w.schemas)) [
        | inl missing ↦ rw missing (s, t, sent sys w, err _, refl, refl)
        | inr (tables, e) ↦ rw e (
            inserted s t
              (sys.insert User (users_repository ds).clash (row (generated sys (sent sys w)))
                tables.users)
              (row (generated sys (sent sys w))) ds tables (sent sys w) e)
      ])
    ];
  }

module _ (sys : Platform) (ups : List Migration) where
  IsBlind-remember :
      (name : String)
      → IsBlind
          (modify (λ w. record w { connections = Cache.set name (data_source name) w.connections }))
  unfolding modify
  IsBlind-remember name = record {
    at = λ s t w. (
      s,
      t,
      record w { connections = Cache.set name (data_source name) w.connections },
      ok tt,
      refl,
      refl,
    );
  }

  IsBlind-provision : (name : String) → IsBlind (provision sys ups name)
  unfolding provision
  IsBlind-provision name =
      search
        (IsBlind-bind, IsBlind-pure, IsBlind-initialize, IsBlind-run_migrations, IsBlind-remember)
        depth 10

  IsBlind-cached : (o : Option DataSource) → IsBlind (cached sys ups o)
  unfolding cached raise
  IsBlind-cached none = record { at = λ s t w. (s, t, w, err _, refl, refl) }
  IsBlind-cached (some ds) = IsBlind-pure ds

  IsBlind-get_data_source : (name : String) → IsBlind (get_data_source sys ups name)
  unfolding get_data_source
  IsBlind-get_data_source name = record {
    at = λ s t w. elim (Bool-cases (Cache.has name w.connections)) [
      | inl known ↦ rw known ((IsBlind-cached (Cache.get name w.connections)).at s t w)
      | inr fresh ↦ rw fresh ((IsBlind-provision name).at s t w)
    ];
  }

  IsBlind-stamp : (id : String) → IsBlind (stamp_invitation sys ups id mark_accepted)
  unfolding stamp_invitation update update_where on_rows statement
  IsBlind-stamp id = record {
    at = λ s t w. elim (Bool-cases (sys.rejects w.calls)) [
      | inl lost ↦ rw lost (s, t, sent sys w, err _, refl, refl)
      | inr sends ↦ rw sends (_, _, sent sys w, ok tt, refl, refl)
    ];
  }

  IsBlind-join :
      (dto : AcceptInvitationDto) (i : TenantInvitation) → IsBlind (join_tenant sys ups dto i)
  unfolding join_tenant
  IsBlind-join dto i =
      search
        (
          IsBlind-bind, IsBlind-pure, IsBlind-gets, IsBlind-raise_if, IsBlind-get_data_source,
          IsBlind-users_find, IsBlind-users_save, IsBlind-hash, IsBlind-stamp,
        )
        depth 20

  -- Once an acceptance has found its invitation, its answer is the same whatever has become of the
  -- tenants and the invitations in the meantime: it does not notice that the invitation was revoked, has
  -- been accepted by another request or is gone.
  pub join_tenant_blind :
      (dto : AcceptInvitationDto) (i : TenantInvitation) (s t : PublicTables) (w : World)
      → (join_tenant sys ups dto i (with_public s w)).0
        ≡ (join_tenant sys ups dto i (with_public t w)).0
  join_tenant_blind dto i s t w =
      let (s', t', w', r, e, e') = (IsBlind-join dto i).at s t w in rw (e, e') refl
