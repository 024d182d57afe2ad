-- ===== src/Interceptors.antt =====
-- The global interceptors of src/common/interceptors, in the order in which src/app.create.ts lists them:
-- logging, cache, error, success, timeout, and then the route's handler.

pub mod Replay
pub mod Inside
pub mod Outcomes
use Prim.Native.String.{◌++◌}
use multitenancy.Prelude.{
  ℕ, zero, suc, ◌/◌, ◌%◌, String, true, Option, none, some, List, [], ◌∷◌, ◌==◌, eqb, ltb,
  if◌then◌else◌,
}
use multitenancy.Prelude.{◌++◌ as append}
use multitenancy.Prelude.Int.{ℤ, pos, negsuc, sub_ℕ}
use multitenancy.Exceptions.{Exception, app, framework, database, type_error}
use multitenancy.Json.{Json, undefined, bool, num, str, obj, Fields, end, field, member}
use multitenancy.Cache
use multitenancy.Cache.{CacheWrapper}
use multitenancy.World.{World, Result, ok, err}

-- what an interceptor sends itself
pub record Response : Type 0 where
  pub status_code : ℕ
  pub message : String
  pub path : String

-- one request for a route: what the interceptors read of it
pub record Call : Type 0 where
  pub url : String
  pub method : String
  -- the names of the class and of the method that handle it
  pub controller : String
  pub pattern : String
  -- the metadata 'success_message' and 'request_timeout'; the latter may be NaN
  pub success_message : Option String
  pub request_timeout : Option (Option ℤ)
  pub status_code : ℕ
  -- how long the handler takes
  pub duration : ℕ

-- what the logger prints: of a success the request and its handler, of an error the handler and the
-- error with its stack, and the milliseconds that went by
pub data Line : Type 0 where
  success : String → String → String → String → ℤ → Line
  error : String → String → Exception → ℤ → Line

pub record Server : Type 0 where
  pub world : World
  -- the field `cache` of the one `CacheInterceptor`
  pub cache : CacheWrapper Json
  pub responses : List Response
  -- the console
  pub log : List Line

abbrev pub Handler : Type 0
Handler = Server → Result Json × Server

-- logger.interceptor.ts: values and errors go on as they are.
abbrev pub success_line : Call → ℕ → ℕ → Line
success_line call start now =
    success call.method call.url call.controller call.pattern (sub_ℕ now start)

abbrev pub error_line : Call → Exception → ℕ → ℕ → Line
error_line call x start now = error call.controller call.pattern x (sub_ℕ now start)

abbrev pub line_of : Call → Result Json → ℕ → ℕ → Line
line_of call (ok value) start now = success_line call start now
line_of call (err x) start now = error_line call x start now

abbrev pub print : Line → Server → Server
print line s = record s { log = append s.log (line ∷ []) }

printed : Call → ℕ → Result Json × Server → Result Json × Server
printed call start (r, s) = (r, print (line_of call r start s.world.clock) s)

unfoldable pub logging : Call → Handler → Handler
unfolding printed
logging call next s = printed call s.world.clock (next s)

-- cache.interceptor.ts
remember : String → Result Json × Server → Result Json × Server
remember url (ok value, s) = (ok value, record s { cache = Cache.set url value s.cache })
remember url (err x, s) = (err x, s)

abbrev or_undefined : Option Json → Json
or_undefined none = undefined
or_undefined (some value) = value

unfoldable pub caching : Call → Handler → Handler
unfolding remember
caching call next s =
    if Cache.has call.url s.cache
    then (ok (or_undefined (Cache.get call.url s.cache)), s)
    else remember call.url (next s)

-- error.reponse.interceptor.ts: `typeof null` is 'object', so for an error that is no `HttpException`
-- the message is read from null.
abbrev pub or_internal : String → String
or_internal message = if message == "" then "Internal Server Error" else message

abbrev respond : Call → ℕ → String → Server → Server
respond call status message s = record s {
  responses =
      append s.responses
        (record { status_code = status; message = or_internal message; path = call.url } ∷ []);
}

abbrev null_message : Exception
null_message = type_error "Cannot read properties of null (reading 'message')"

report : Call → Result Json × Server → Result Json × Server
report call (ok value, s) = (ok value, s)
report call (err (app x), s) = (
  err (framework 400 x.message),
  respond call (if eqb x.status 0 then 500 else x.status) x.message s,
)
report call (err (framework status message), s) =
    (err (framework 400 message), respond call (if eqb status 0 then 500 else status) message s)
report call (err (database message), s) = (err null_message, s)
report call (err (type_error message), s) = (err null_message, s)

unfoldable pub error_response : Call → Handler → Handler
unfolding report
error_response call next s = report call (next s)

-- success.response.interceptor.ts
unfoldable pub paginated : Json → Option (Json × Json)
unfolding member
paginated (obj fs) = elim (member "data" fs) [
  | none ↦ none
  | some content ↦ elim (member "meta" fs) [ none ↦ none | some meta ↦ some (content, meta) ]
]
paginated _ = none

abbrev or_successful : Option String → String
or_successful none = "Request successful"
or_successful (some message) = message

abbrev pub base : Call → ℕ → Fields → Json
base call now rest = obj (
    field "success" (bool true) (
      field "statusCode" (num call.status_code) (
        field "message" (str (or_successful call.success_message))
          (field "timestamp" (num now) (field "path" (str call.url) rest)))))

unfoldable pub envelope : Call → ℕ → Json → Json
unfolding paginated
envelope call now value = elim (paginated value) [
  | none ↦ base call now (field "data" value end)
  | some (content, meta) ↦ base call now (field "data" content (field "meta" meta end))
]

wrap : Call → Result Json × Server → Result Json × Server
unfolding envelope
wrap call (ok value, s) = (ok (envelope call s.world.clock value), s)
wrap call (err x, s) = (err x, s)

unfoldable pub success_response : Call → Handler → Handler
unfolding wrap
success_response call next s = wrap call (next s)

-- timeout.interceptor.ts
abbrev default_timeout_ms : ℕ
default_timeout_ms = 20000

-- the limit in force; `none` where the interceptor steps aside, for a limit of 0 or less or NaN
unfoldable pub limit_of : Option (Option ℤ) → Option ℕ
limit_of none = some default_timeout_ms
limit_of (some none) = none
limit_of (some (some (pos n))) = if eqb n 0 then none else some n
limit_of (some (some (negsuc n))) = none

abbrev digit : ℕ → String
digit n =
    if eqb n 0
    then "0"
    else if eqb n 1
    then "1"
    else if eqb n 2
    then "2"
    else if eqb n 3
    then "3"
    else if eqb n 4
    then "4"
    else if eqb n 5
    then "5"
    else if eqb n 6
    then "6"
    else if eqb n 7
    then "7"
    else if eqb n 8
    then "8"
    else "9"

-- a number in a template text; `n` is fuel enough for its digits
decimal : ℕ → ℕ → String
decimal zero n = ""
decimal (suc fuel) n =
    let rest = decimal fuel (n / 10) in if ltb n 10 then digit n else rest ++ digit (n % 10)

unfoldable pub timed_out : ℕ → Exception
unfolding decimal
timed_out limit = framework 408 ("Request timed out after " ++ decimal (suc limit) limit ++ "ms")

-- The handler is not stopped: what it does to the server stays.
cut_off : Call → Option ℕ → Result Json × Server → Result Json × Server
cut_off call none r = r
cut_off call (some limit) (r, s) = (if ltb limit call.duration then err (timed_out limit) else r, s)

unfoldable pub timeout : Call → Handler → Handler
unfolding cut_off limit_of
timeout call next s = cut_off call (limit_of call.request_timeout) (next s)

-- all of them around the handler
unfoldable pub handle : Call → Handler → Handler
unfolding logging caching error_response success_response timeout
handle call handler =
    logging call (caching call (error_response call (success_response call (timeout call handler))))
