-- ===== src/Serving.antt =====
-- What stands around a route's handler: `consumer.apply(TenantMiddleware).forRoutes('*')` of
-- src/app.module.ts, the guard that a controller names in `@UseGuards`, and the global pipe of
-- src/app.create.ts, in the order of the framework: the middleware and the guard are outside the
-- interceptors, the pipe and the handler are inside.
pub mod Refusals
pub mod Replays
use multitenancy.Prelude.{String, Bool, true, false, not, Option, none, some, List, if◌then◌else◌}
use multitenancy.Exceptions.{Exception, framework}
use multitenancy.Json.{Json, Fields}
use multitenancy.Interceptors.{Server, Call, Handler, handle}
use multitenancy.World.{Result, ok, err, Action, pure, raise, raise_if, ◌>>=◌, ◌>>◌}
use multitenancy.Platform.{Platform, TokenPayload}
use multitenancy.Requests.{Request, Info, use_tenant, handle_request}
use multitenancy.Bodies.{Property, Pipe, validation_options}
use multitenancy.Bodies.Classes.{
  signup_class, login_class, create_invitation_class, accept_invitation_class,
  revoke_invitation_class, create_product_class, create_changelog_class, create_feedback_class,
}

-- the routes of the controllers
pub data Route : Type 0 where
  get_hello : Route
  signup login : Route
  invite accept_invitation revoke_invitation : Route
  create_product get_products : Route
  create_changelog get_changelogs : Route
  create_feedback update_feedback : Route

-- `@UseGuards(JwtAuthGuard)` stands on the controllers of tenants, products, changelogs and feedback,
-- for all their routes.
abbrev pub guarded : Route → Bool
guarded get_hello = false
guarded signup = false
guarded login = false
guarded _ = true

-- The type of the parameter `@Body()`, where it is a class. `Partial<CreateFeedbackDto>` of the update
-- is none: the pipe checks nothing of it.
abbrev pub class_of : Route → Option (List Property)
class_of signup = some signup_class
class_of login = some login_class
class_of invite = some create_invitation_class
class_of accept_invitation = some accept_invitation_class
class_of revoke_invitation = some revoke_invitation_class
class_of create_product = some create_product_class
class_of create_changelog = some create_changelog_class
class_of create_feedback = some create_feedback_class
class_of _ = none

-- a request as it comes in, with what passport says of its token
pub record Incoming : Type 0 where
  pub request : Request
  pub body : Fields
  pub error : Option Exception
  pub user : Option TokenPayload
  pub info : Info

-- the guard's verdict; passport sets `request.user`
admitted : Request → Result TokenPayload → Action Request
admitted req (ok user) = pure (record req { user = some user })
admitted req (err x) = raise x

unfoldable pub guard : Route → Incoming → Request → Action Request
unfolding admitted
guard route inc req =
    if guarded route then admitted req (handle_request inc.error inc.user inc.info) else pure req

-- a step of the services as one of the server
abbrev pub on_world : {A : Type 0} → Action A → Server → Result A × Server
on_world m s = let (r, w) = m s.world in (r, record s { world = w })

-- the middleware and the guard
unfoldable pub admit : Platform → Bool → Route → Incoming → Action Request
admit sys production route inc = do req ← use_tenant sys production inc.request; guard route inc req

-- `complaint` is the message of the pipe's exception.
module _ (pipe : Pipe) (complaint : List Property → Fields → String) where
  unfoldable pub validated : Option (List Property) → Fields → Action (Unit {0})
  validated none body = pure tt
  validated (some class) body =
      raise_if (not (pipe.accepts validation_options class body))
        (framework 400 (complaint class body))

  -- inside the interceptors
  abbrev pub checked : Route → Incoming → (Request → Action Json) → Request → Handler
  checked route inc handler req = on_world (validated (class_of route) inc.body >> handler req)

  abbrev pub entered :
      Route
      → Call
      → Incoming
      → (Request → Action Json)
      → Result Request × Server
      → Result Json × Server
  entered route call inc handler (ok req, s) = handle call (checked route inc handler req) s
  entered route call inc handler (err x, s) = (err x, s)

  -- A handler answers with a value that the interceptors make the response of.
  unfoldable pub serve :
      Platform → Bool → Route → Call → Incoming → (Request → Action Json) → Handler
  serve sys production route call inc handler s =
      entered route call inc handler (on_world (admit sys production route inc) s)
