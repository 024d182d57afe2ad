-- ===== src/Auth/Welcome.antt =====
-- A login with the right credentials succeeds (`AuthService.login` of src/auth/auth.service.ts).
use multitenancy.Prelude.{
  ℕ, ◌+◌, String, true, false, Option, some, List, ◌≡◌, refl, ◌∙◌, ap, arith, ◌==◌, eq_iff, All, In,
  All-at, Option-cases, inl, inr,
}
use multitenancy.Enums.{TenantStatus}
use multitenancy.Entities.{Tenant, User}
use multitenancy.Cache
use multitenancy.World.{
  World, DataSource, ok, pure, raise, catch, recover, continue, is_some, ◌>>=◌,
}
use multitenancy.Platform.{Platform, Migration, Calm}
use multitenancy.Repository.{users_repository, statement, execute}
use multitenancy.Repository.Accepted.{find_one_accepted}
use multitenancy.Provisioning.{data_source}
use multitenancy.Provisioning.Reuse.{get_data_source-cached}
use multitenancy.Token.{redis_set, create_token, issue_token}
use multitenancy.Auth.{
  LoginDto, LoggedIn, schema_of, is_active, touch_last_login, verify_password, login,
}

module _ (sys : Platform) (ups : List Migration) where
  -- `u` is the user with that address
  only_user :
      (email : String) (u : User) (rows : List User)
      → In u rows
      → u.email ≡ email
      → All (λ x. (x.email == email) ≡ true → x ≡ u) rows
      → sys.find_one User (λ x. x.email == email) rows ≡ some u
  only_user email u rows member named only =
      elim (Option-cases (sys.find_one User (λ x. x.email == email) rows)) [
        | inl nobody ↦
            let other =
              All-at (λ x. (x.email == email) ≡ false) rows u
                (sys.find_one_complete User (λ x. x.email == email) rows nobody) member in
            absurd (cc ((eq_iff u.email email).1 named, other))
        | inr (x, found) ↦
            let (fits, same) =
              sys.find_one_sound User (λ x. x.email == email)
                (λ x. (x.email == email) ≡ true → x ≡ u) rows x found only in
            found ∙ ap (λ (y : User). some y) (same fits)
      ]

  verifies :
      (stored : Option String) (password hash : String)
      → stored ≡ some hash
      → sys.verify hash password ≡ true
      → verify_password sys ups stored password ≡ pure true
  unfolding verify_password
  verifies stored password hash e verified = rw (e, verify_password, verified) refl

  -- For an active tenant whose connection is cached, the one user of its schema with that address, who
  -- is activated and whose hash verifies the password, is logged in by a server that rejects no
  -- statement, and the login changes no table.
  pub login_welcomes :
      (tenant : Tenant) (dto : LoginDto) (w : World) (ds : DataSource) (rows : List User) (u : User)
      (hash : String) (since : ℕ)
      → tenant.status ≡ TenantStatus.active
      → Cache.get (schema_of tenant) w.connections ≡ some ds
      → (users_repository (data_source (schema_of tenant))).rows w ≡ some rows
      → In u rows
      → u.email ≡ dto.email
      → All (λ x. (x.email == dto.email) ≡ true → x ≡ u) rows
      → u.activated_at ≡ some since
      → u.password_hash ≡ some hash
      → sys.verify hash dto.password ≡ true
      → Calm sys w.calls
      → let (r, v) = login sys ups (some tenant) dto w in
        ((out : LoggedIn) × (r ≡ ok out) × (out.user.id ≡ u.base.id))
        × (v.public ≡ w.public)
        × (v.schemas ≡ w.schemas)
  unfolding login touch_last_login verify_password issue_token create_token redis_set statement
      execute catch recover raise pure ◌>>=◌
  login_welcomes tenant dto w ds rows u hash since active known there member named only activated
        stored verified calm =
      let asked =
        find_one_accepted sys w (calm w.calls (omega arith))
          (users_repository (data_source (schema_of tenant))) rows there
          (λ x. x.email == dto.email) in
      let got = get_data_source-cached sys ups (schema_of tenant) w ds known in
      let running : is_active tenant.status ≡ true = rw active refl in
      let woken : is_some u.activated_at ≡ true = rw activated refl in
      let checked = verifies u.password_hash dto.password hash stored verified in
      rw
        (
          running,
          got,
          continue,
          asked,
          only_user dto.email u rows member named only,
          woken,
          checked,
          calm (w.calls + 1) (omega arith),
          calm (w.calls + 1 + 1) (omega arith),
        )
        ((_, refl, refl), refl, refl)
