-- ===== src/Token.antt =====
-- `TokenService` of src/token/token.service.ts: the two tokens of a session, and the hash of the
-- refresh token that is left in Redis.
use multitenancy.Prelude.{ℕ, String, Option, some, [], ◌∷◌, ◌++◌, if◌then◌else◌}
use multitenancy.Json.{Json, str, num, obj, end, field}
use multitenancy.Redis
use multitenancy.World.{ok, err, Action, pure, gets, ◌>>=◌, ◌>>◌}
use multitenancy.Platform.{Platform, TokenPayload}
use multitenancy.Repository.{sent, connection_lost}
use multitenancy.Utils.{hash_token}

pub record Tokens : Type 0 where
  pub access_token : String
  pub refresh_token : String

abbrev pub payload_of : String → String → String → TokenPayload
payload_of user_id role schema_name = record {
  sub = user_id;
  role = role;
  schema_name = schema_name;
}

-- `{ tokenHash, createdAt }`; the instant stands for its ISO text.
abbrev pub refresh_record : String → ℕ → Json
refresh_record token_hash created_at =
    obj (field "tokenHash" (str token_hash) (field "createdAt" (num created_at) end))

module _ (sys : Platform) where
  -- `RedisService.set`: the command is sent, and the connection may be lost before its answer comes.
  unfoldable pub redis_set : String → Json → Option ℕ → Action (Unit {0})
  redis_set key value ttl w = (
    if sys.rejects w.calls then err connection_lost else ok tt,
    record (sent sys w) { redis = w.redis ++ Redis.set_command key value ttl ∷ [] },
  )

  abbrev pub access_token_of : TokenPayload → ℕ → String
  access_token_of payload now =
      sys.sign payload (sys.config "JWT_SECRET_KEY") (sys.config "JWT_ACCESS_EXPIRES") now

  abbrev pub refresh_token_of : TokenPayload → ℕ → String
  refresh_token_of payload now =
      sys.sign payload (sys.config "JWT_REFRESH_SECRET_KEY") (sys.config "JWT_REFRESH_EXPIRES") now

  unfoldable pub create_token : String → String → String → Action Tokens
  unfolding redis_set
  create_token user_id role schema_name = do
    now ← gets (λ w. w.clock)
    let access_token = access_token_of (payload_of user_id role schema_name) now
    let refresh_token = refresh_token_of (payload_of user_id role schema_name) now
    let token_hash = hash_token sys refresh_token
    redis_set (Redis.refresh_token user_id) (refresh_record token_hash now)
        (some Redis.refresh_token_ttl)
    pure (record { access_token = access_token; refresh_token = refresh_token })

  unfoldable pub issue_token : String → String → String → Action Tokens
  unfolding create_token
  issue_token user_id role schema_name = create_token user_id role schema_name
