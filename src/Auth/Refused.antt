-- ===== src/Auth/Refused.antt =====
-- What a login that is refused leaves (`AuthService.login` of src/auth/auth.service.ts).
use multitenancy.Prelude.{List, String, some, ◌≡◌, ℕ, ◌⊎◌, ◌++◌, [], ◌∷◌, true}
use multitenancy.Exceptions.{Exception}
use multitenancy.Entities.{User}
use multitenancy.Json.{Json}
use multitenancy.Redis
use multitenancy.World.{World, Action, is_some}
use multitenancy.World.Runs.{Runs}
use multitenancy.Platform.{Platform, Migration, TokenPayload}
use multitenancy.Repository.{connection_lost}
use multitenancy.Utils.{hash_token}
use multitenancy.Token.{refresh_record, refresh_token_of, payload_of}
use multitenancy.Auth.{LoginDto}

-- From `u` to `v` no command went to Redis, and the platform's tables are the same.
abbrev pub Quiet : World → World → Type 0
Quiet u v = (v.redis ≡ u.redis) × (v.public ≡ u.public)

module _ (sys : Platform) (ups : List Migration) where
  module _ (w : World) where
    -- a user with the credentials of the login
    abbrev pub Checked : LoginDto → User → Type 0
    Checked dto u =
        (u.email ≡ dto.email)
        × (is_some u.activated_at ≡ true)
        × ((hash : String) × (u.password_hash ≡ some hash) × (sys.verify hash dto.password ≡ true))

    -- what is kept of the refresh token
    abbrev pub kept : TokenPayload → ℕ → Json
    kept payload now = refresh_record (hash_token sys (refresh_token_of sys payload now)) now

    -- the command that leaves the hash of a refresh token that is signed for the user
    abbrev pub Replaced : String → World → Type 0
    Replaced user_id v =
        (role : String) × (schema : String) × (now : ℕ) × (v.redis
          ≡ w.redis
            ++ Redis.set_command (Redis.refresh_token user_id)
                (kept (payload_of user_id role schema) now) (some Redis.refresh_token_ttl)
              ∷ [])

    -- what a refused login may have sent to Redis
    abbrev pub Denied : LoginDto → Exception → World → Type 0
    Denied dto x v =
        (v.public ≡ w.public)
        × ((v.redis ≡ w.redis)
            ⊎ ((x ≡ connection_lost) × ((u : User) × Checked dto u × Replaced u.base.id v)))

    -- a step that sends nothing to Redis
    abbrev Silent : {A : Type 0} → LoginDto → Action A → Type 0
    Silent dto m = Runs (Quiet w) m (λ _. Quiet w) (Denied dto)

    -- the row that the query gives, as far as it has been checked
    abbrev Found : LoginDto → User → World → Type 0
    Found dto u v = Quiet w v × (u.email ≡ dto.email)

    abbrev Awake : LoginDto → User → World → Type 0
    Awake dto u v = Found dto u v × (is_some u.activated_at ≡ true)

    abbrev LetIn : LoginDto → User → World → Type 0
    LetIn dto u v = Quiet w v × Checked dto u
