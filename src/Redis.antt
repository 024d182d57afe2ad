-- ===== src/Redis.antt =====
-- src/redis: the keys and lifetimes of redis.constant.ts, the calls that `RedisService` makes of the
-- client, and the reconnection delays of redis.module.ts.
pub mod Keys
pub mod Delays
pub mod Service
use Prim.Native.String.{◌++◌}
use multitenancy.Prelude.{
  Bool, true, false, ℕ, ◌*◌, String, Option, none, some, List, [], ◌∷◌, ltb, eqb, min,
  if◌then◌else◌,
}
use multitenancy.Json.{Json}

-- One command sent to the server; the value is what `JSON.stringify` is given.
pub data Command : Type 0 where
  set : String → Json → Option ℕ → Command
  del : List String → Command

-- `REDIS_KEYS`
module _ where
  unfoldable pub otp_register : String → String
  otp_register email = "otp:register:" ++ email

  unfoldable pub otp_reset : String → String
  otp_reset email = "otp:reset:" ++ email

  unfoldable pub session : String → String
  session session_id = "session:" ++ session_id

  unfoldable pub user_sessions : String → String
  user_sessions user_id = "sessions:" ++ user_id

  unfoldable pub verify_email_token : String → String
  verify_email_token token = "verify:email:token:" ++ token

  unfoldable pub refresh_token : String → String
  refresh_token user_id = "refresh-token:" ++ user_id

-- `REDIS_TTL`, in seconds
abbrev otp_ttl : ℕ
otp_ttl = 60 * 10

abbrev session_ttl : ℕ
session_ttl = 60 * 60 * 24 * 7

abbrev pub refresh_token_ttl : ℕ
refresh_token_ttl = 60 * 60 * 24 * 7

-- `ttlSeconds ? … : …`: no lifetime where it is absent or 0
unfoldable pub set_command : String → Json → Option ℕ → Command
set_command key value none = set key value none
set_command key value (some ttl) =
    if eqb ttl 0 then set key value none else set key value (some ttl)

-- `del` sends nothing for no keys.
unfoldable pub del_commands : List String → List Command
del_commands [] = []
del_commands (k ∷ ks) = del (k ∷ ks) ∷ []

-- `retryStrategy`: the delay in milliseconds before the attempt, `none` to give up
unfoldable pub retry_strategy : ℕ → Option ℕ
retry_strategy times = if ltb 10 times then none else some (min (times * 100) 3000)

-- the options of the client, beside `retryStrategy`
pub record RedisOptions : Type 0 where
  pub host : Option String
  pub port : Option String
  pub password : Option String
  pub db : Option String
  pub lazy_connect : Bool
  pub enable_ready_check : Bool
  pub max_retries_per_request : ℕ

abbrev redis_options : (String → Option String) → RedisOptions
redis_options env = record {
  host = env "redis.host";
  port = env "redis.port";
  password = env "redis.password";
  db = env "redis.db";
  lazy_connect = false;
  enable_ready_check = true;
  max_retries_per_request = 3;
}
