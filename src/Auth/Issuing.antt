-- ===== src/Auth/Issuing.antt =====
-- The steps of a login: the password that is verified, the last login that is noted and the tokens
-- that are issued (src/auth/auth.service.ts, src/token/token.service.ts).
use multitenancy.Prelude.{
  ℕ, String, true, Option, none, some, List, [], ◌∷◌, ◌++◌, ◌≡◌, refl, arith, In, Bool-cases, inl,
  inr,
}
use multitenancy.Entities.{User}
use multitenancy.Redis
use multitenancy.Redis.{Command}
use multitenancy.World.{World, Action, pure, raise, catch, recover, ◌>>=◌}
use multitenancy.World.Runs.{Runs, Runs-pure, Runs-raise, Runs-of_Evolves, Runs-to}
use multitenancy.Platform.{Platform, Migration}
use multitenancy.Repository.{users_repository, sent, statement, execute}
use multitenancy.Provisioning.{data_source}
use multitenancy.Utils.{hash_token}
use multitenancy.Token.{
  Tokens, payload_of, refresh_record, access_token_of, refresh_token_of, redis_set, create_token,
  issue_token,
}
use multitenancy.Auth.{touch_last_login, verify_password}

module _ (sys : Platform) (ups : List Migration) where
  -- `u` is a row of the users of the tenant's schema with that address.
  abbrev pub IsUser : String → String → User → World → Type 0
  IsUser schema email u w =
      (rows : List User) × ((users_repository (data_source schema)).rows w ≡ some rows)
      × In u rows
      × (u.email ≡ email)

  -- The password was verified against the row's hash.
  abbrev pub HasPassword : User → String → Type 0
  HasPassword u password =
      (hash : String) × (u.password_hash ≡ some hash) × (sys.verify hash password ≡ true)

  -- The tokens are signed for this user, role and schema, and the last command to Redis has left the
  -- hash of the refresh token under the user's key, for seven days.
  abbrev pub Issued : String → String → String → Tokens → World → Type 0
  Issued user_id role schema tokens w =
      (now : ℕ) × (earlier : List Command) × (tokens.access_token
        ≡ access_token_of sys (payload_of user_id role schema) now)
      × (tokens.refresh_token ≡ refresh_token_of sys (payload_of user_id role schema) now)
      × (w.redis
          ≡ earlier
            ++ Redis.set (Redis.refresh_token user_id)
                (refresh_record (hash_token sys tokens.refresh_token) now) (some 604800)
              ∷ [])

  pub keep :
      {A : Type 0} (P : World → Type 0) (m : Action A)
      → ((w : World) → P w → P (m w).1)
      → Runs P m (λ _. P) (λ _ _. Unit {0})
  keep P m h =
      Runs-to m (λ _. P) (λ _. P) (λ a w p. p) (λ x w p. tt)
        (Runs-of_Evolves P m (record { at = h }))

  touch-schemas : (w : World) → (touch_last_login sys ups w).1.schemas ≡ w.schemas
  unfolding touch_last_login statement catch raise recover pure
  touch-schemas w = elim (Bool-cases (sys.rejects w.calls)) [
    | inl lost ↦ rw lost refl
    | inr sends ↦ rw sends refl
  ]

  pub touch-IsUser :
      (schema email : String) (u : User) (w : World)
      → IsUser schema email u w
      → IsUser schema email u (touch_last_login sys ups w).1
  touch-IsUser schema email u w (rows, there, member, same) =
      (rows, ground (arith, there, touch-schemas w), member, same)

  pub issue-Issued :
      (user_id role schema : String) (P : World → Type 0)
      → ((w : World) (c : List Command) → P w → P (record (sent sys w) { redis = c }))
      → Runs P
          (issue_token sys user_id role schema)
          (λ tokens w. Issued user_id role schema tokens w × P w)
          (λ _ _. Unit {0})
  unfolding issue_token create_token redis_set execute statement ◌>>=◌ Redis.set_command
  issue-Issued user_id role schema P stays = record {
    at = λ w p. elim (Bool-cases (sys.rejects w.calls)) [
      | inl lost ↦ rw lost tt
      | inr sends ↦ rw sends ((w.clock, w.redis, refl, refl, refl), stays w _ p)
    ];
  }

  pub verify-HasPassword :
      (stored : Option String) (password : String) (P : World → Type 0)
      → Runs P
          (verify_password sys ups stored password)
          (λ valid w.
            (valid ≡ true
              → (hash : String) × (stored ≡ some hash) × (sys.verify hash password ≡ true))
            × P w)
          (λ _ _. Unit {0})
  unfolding verify_password
  verify-HasPassword none password P = Runs-raise _ (λ w p. tt)
  verify-HasPassword (some hash) password P = Runs-pure _ (λ w p. ((λ e. (hash, refl, e)), p))
