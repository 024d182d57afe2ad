-- ===== src/Requests/Tokens.antt =====
-- Who gets past `JwtAuthGuard` (src/auth/guard/jwt.guard.ts).
use multitenancy.Prelude.{Option, none, some, ◌≡◌, ◌↔◌, arith}
use multitenancy.Exceptions.{Exception}
use multitenancy.World.{ok}
use multitenancy.Platform.{TokenPayload}
use multitenancy.Requests.{Info, token_expired, json_web_token_error, other, handle_request}

-- The guard lets a request pass exactly when the strategy reported no error and no problem with the
-- token and found its user, and it passes that user on.
pub handle_request_lem :
    (error : Option Exception) (user : Option TokenPayload) (info : Info) (u : TokenPayload)
    → (handle_request error user info ≡ ok u) ↔ ((error ≡ none) × (user ≡ some u) × (info ≡ other))
unfolding handle_request
handle_request_lem error user token_expired u = ground arith
handle_request_lem error user json_web_token_error u = ground arith
handle_request_lem (some x) user other u = ground arith
handle_request_lem none none other u = ground arith
handle_request_lem none (some v) other u = ground arith
