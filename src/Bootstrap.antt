-- ===== src/Bootstrap.antt =====
-- src/main.ts and src/app.create.ts: the port, the prefix of the routes, and which origins CORS lets
-- through; src/app.service.ts.
pub mod Origins
use Prim.Native.Char.{code}
use Prim.Native.String.{◌++◌}
use multitenancy.Prelude.{
  String, Bool, true, false, Option, none, some, List, [], ◌∷◌, ◌==◌, ◌||◌, any, eqb, if◌then◌else◌,
}

-- `configService.get('PORT') || 3000`, as text
unfoldable pub port : Option String → String
port none = "3000"
port (some p) = if p == "" then "3000" else p

-- The global prefix and the version of a route of a controller.
abbrev pub url_of : String → String
url_of route = "/api/v1/" ++ route

-- `getHello`
abbrev pub get_hello : String
get_hello = "Hello World!"

abbrev to_first : String → List String → List String
to_first s [] = s ∷ []
to_first s (p ∷ ps) = (s ++ p) ∷ ps

-- `text.split(',')`
unfoldable pub split : String → List String
split String.[] = "" ∷ []
split (String.◌∷◌ c s) =
    let rest = split s in if eqb (code c) 44 then "" ∷ rest else to_first (String.◌∷◌ c "") rest

-- `configService.get('ALLOWED_ORIGINS')?.split(',') || []`
unfoldable pub allowed_origins : Option String → List String
unfolding split
allowed_origins none = []
allowed_origins (some text) = split text

-- What the callback is given: no error, or the message of one.
unfoldable pub cors_error : List String → Option String → Option String
cors_error allowed none = none
cors_error allowed (some origin) =
    if origin == "" || any (λ o. o == origin) allowed
    then none
    else some ("Blocked by CORS: " ++ origin)

-- the other options of `enableCors`
pub record CorsOptions : Type 0 where
  pub credentials : Bool
  pub methods : List String
  pub allowed_headers : List String

abbrev cors_options : CorsOptions
cors_options = record {
  credentials = true;
  methods = "GET" ∷ "POST" ∷ "PUT" ∷ "PATCH" ∷ "DELETE" ∷ "OPTIONS" ∷ [];
  allowed_headers = "Content-Type" ∷ "Authorization" ∷ "Accept" ∷ "Origin" ∷ "User-Agent" ∷ [];
}
