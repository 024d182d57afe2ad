-- ===== src/Auth/Session.antt =====
-- What a login that succeeds has checked, and what it issues (`AuthService.login` of
-- src/auth/auth.service.ts with `TokenService` of src/token/token.service.ts).
use multitenancy.Prelude.{
  Bool, true, false, not, Option, none, some, List, ◌≡◌, refl, ◌==◌, eq_iff, In, All-In,
}
use multitenancy.Enums.{TenantStatus}
use multitenancy.Exceptions.{unauthorized_access, invalid_credentials}
use multitenancy.Entities.{Tenant, User}
use multitenancy.World.{World, ok, pure, raise_if, is_some, ◌>>=◌, ◌>>◌}
use multitenancy.World.Runs.{Runs, Post, Runs-bind, Runs-pure, Runs-or_raise, Runs-raise_if}
use multitenancy.Platform.{Platform, Migration}
use multitenancy.Repository.{users_repository}
use multitenancy.Repository.Runs.{Runs-find_one}
use multitenancy.Provisioning.{data_source, get_data_source}
use multitenancy.Token.{issue_token}
use multitenancy.Auth.{
  LoginDto, LoggedIn, login_row, schema_of, is_active, role_text, touch_last_login, verify_password,
  login,
}
use multitenancy.Auth.Issuing.{
  IsUser, HasPassword, Issued, keep, touch-IsUser, issue-Issued, verify-HasPassword,
}

module _ (sys : Platform) (ups : List Migration) where
  abbrev pub Authenticated : Option Tenant → LoginDto → LoggedIn → World → Type 0
  Authenticated context dto out w =
      (tenant : Tenant) × (u : User) × (context ≡ some tenant)
      × (tenant.status ≡ TenantStatus.active)
      × IsUser sys ups (schema_of tenant) dto.email u w
      × (is_some u.activated_at ≡ true)
      × HasPassword sys ups u dto.password
      × (out.user.id ≡ u.base.id)
      × (out.user.password_hash ≡ none)
      × (out.user.tenant ≡ some (schema_of tenant))
      × Issued sys ups u.base.id (role_text u.role) (schema_of tenant) out.tokens w

  active-of : (s : TenantStatus) → not (is_active s) ≡ false → s ≡ TenantStatus.active
  active-of TenantStatus.active e = refl
  active-of TenantStatus.pending e = cc e
  active-of TenantStatus.inactive e = cc e
  active-of TenantStatus.suspended e = cc e

  not-false : (b : Bool) → not b ≡ false → b ≡ true
  not-false true e = refl
  not-false false e = cc e

  abbrev Welcome : Option Tenant → Tenant → Type 0
  Welcome context tenant = (context ≡ some tenant) × (tenant.status ≡ TenantStatus.active)

  abbrev Activated : Option Tenant → LoginDto → Tenant → User → World → Type 0
  Activated context dto tenant u w =
      Welcome context tenant
      × IsUser sys ups (schema_of tenant) dto.email u w
      × (is_some u.activated_at ≡ true)

  -- the rest of `login` once the row is found
  admit-Authenticated :
      (context : Option Tenant) (dto : LoginDto) (tenant : Tenant) (u : User)
      → Runs
          (λ w. Welcome context tenant × IsUser sys ups (schema_of tenant) dto.email u w)
          (do
            raise_if
                (not (is_some (login_row u).activated_at))
                (unauthorized_access "Please verify your email before logging in")
            is_password_valid ← verify_password sys ups (login_row u).password_hash dto.password
            raise_if (not is_password_valid) invalid_credentials
            touch_last_login sys ups
            tokens ←
                issue_token sys (login_row u).id (role_text (login_row u).role) (schema_of tenant)
            pure (record {
              user = record (login_row u) {
                password_hash = none;
                tenant = some (schema_of tenant);
              };
              tokens = tokens;
            }))
          (Authenticated context dto)
          (λ _ _. Unit {0})
  admit-Authenticated context dto tenant u =
      Runs-bind _ _ (λ _. Activated context dto tenant u)
        (Runs-raise_if _ _ (λ e w p. tt) (λ e w p. (p.0, p.1, not-false _ e)))
        λ _.
          Runs-bind _ _
            (λ valid w.
              (valid ≡ true → HasPassword sys ups u dto.password)
              × Activated context dto tenant u w)
            (verify-HasPassword sys ups u.password_hash dto.password
              (Activated context dto tenant u))
            λ valid.
              Runs-bind _ _
                (λ _ w. HasPassword sys ups u dto.password × Activated context dto tenant u w)
                (Runs-raise_if _ _ (λ e w p. tt) (λ e w p. (p.0 (not-false valid e), p.1)))
                λ _.
                  Runs-bind _ _
                    (λ _ w. HasPassword sys ups u dto.password × Activated context dto tenant u w)
                    (keep sys ups _ (touch_last_login sys ups) (λ w (h, a).
                      (h, (a.0, touch-IsUser sys ups (schema_of tenant) dto.email u w a.1, a.2))))
                    λ _.
                      Runs-bind _ _
                        (λ tokens w.
                          Issued sys ups u.base.id (role_text u.role) (schema_of tenant) tokens w
                          × (HasPassword sys ups u dto.password × Activated context dto tenant u w))
                        (issue-Issued sys ups u.base.id (role_text u.role) (schema_of tenant) _
                          (λ w c p. p))
                        λ tokens. Runs-pure _ λ w (issued, (h, a)).
                          (tenant, u, a.0.0, a.0.1, a.1, a.2, h, refl, refl, refl, issued)

  login-Authenticated :
      (context : Option Tenant) (dto : LoginDto)
      → Runs
          (λ _. Unit {0})
          (login sys ups context dto)
          (Authenticated context dto)
          (λ _ _. Unit {0})
  unfolding login
  login-Authenticated context dto =
      Runs-bind _ _ (λ tenant w. context ≡ some tenant)
        (Runs-or_raise context _ (λ e w p. tt) (λ tenant e w p. e))
        λ tenant.
          Runs-bind _ _ (λ _ w. Welcome context tenant)
            (Runs-raise_if _ _ (λ e w p. tt) (λ e w p. (p, active-of tenant.status e)))
            λ _.
              Runs-bind _ _ (λ _ w. Welcome context tenant)
                (keep sys ups (λ _. Welcome context tenant)
                  (get_data_source sys ups (schema_of tenant)) (λ w p. p))
                λ ds.
                  Runs-bind _ _
                    (λ found w.
                      Welcome context tenant
                      × ((u : User)
                          → found ≡ some u
                          → IsUser sys ups (schema_of tenant) dto.email u w))
                    (Runs-find_one sys (users_repository (data_source (schema_of tenant)))
                      (λ x w p. tt) _
                      λ w rows p e. (
                        p,
                        λ u found.
                            let (fits, member) =
                              sys.find_one_sound User (λ x. x.email == dto.email) (λ x. In x rows)
                                rows u found (All-In rows) in
                            (rows, e, member, (eq_iff u.email dto.email).0 fits),
                      ))
                    λ found.
                      Runs-bind _ _
                        (λ u w.
                          Welcome context tenant × IsUser sys ups (schema_of tenant) dto.email u w)
                        (Runs-or_raise found _ (λ e w p. tt) (λ u e w p. (p.0, p.1 u e)))
                        λ u. admit-Authenticated context dto tenant u

  -- A login that succeeds is one of an active tenant and of a user of that tenant's own schema with
  -- that address, who is activated and whose stored hash verifies the password; the answer has the
  -- user's id, no hash and the schema, both tokens are signed for the id, the role and the schema, and
  -- the hash of the refresh token is what Redis was last told to keep for the user, for seven days.
  pub login_authenticates :
      (context : Option Tenant) (dto : LoginDto) (w v : World) (out : LoggedIn)
      → login sys ups context dto w ≡ (ok out, v)
      → Authenticated context dto out v
  login_authenticates context dto w v out e =
      let posted : Post {A = LoggedIn} (Authenticated context dto) (λ _ _. Unit {0})
          (login sys ups context dto w) =
        (login-Authenticated context dto).at w tt in
      rw e at posted
