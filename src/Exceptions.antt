-- ===== src/Exceptions.antt =====
-- What the code throws: src/common/exceptions/base.exceptions.ts and domain.exceptions.ts, the
-- framework's own HTTP exceptions, and errors that are no `HttpException` (a statement that the
-- database refuses, a property read from `undefined`).
use Prim.Native.String.{◌++◌}
use multitenancy.Prelude.Assoc.{put}
use multitenancy.Prelude.{ℕ, String, Option, none, some, List, [], ◌∷◌}

-- `AppException`: the message, the HTTP status, the code and the `meta` record.
pub record AppException : Type 0 where
  pub message : String
  pub status : ℕ
  pub code : String
  pub meta : Option (List (String × String))

pub data Exception : Type 0 where
  app : AppException → Exception
  -- an `HttpException` of the framework, by its status and message
  framework : ℕ → String → Exception
  -- an error that the database or its driver reports
  database : String → Exception
  -- a `TypeError` of the runtime
  type_error : String → Exception

abbrev pub resource_not_found : String → String → Exception
resource_not_found resource id = app (record {
  message = resource ++ " with " ++ id ++ " not found";
  status = 404;
  code = "RESOURCE_NOT_FOUND";
  meta = some (("resource", resource) ∷ ("id", id) ∷ []);
})

abbrev pub duplicate_resource : String → String → Exception
duplicate_resource resource id = app (record {
  message = resource ++ " with " ++ id ++ " already exists";
  status = 409;
  code = "DUPLICATE_RESOURCE";
  meta = some (("resource", resource) ∷ ("value", id) ∷ []);
})

-- The constructor is only called with a message.
abbrev pub unauthorized_access : String → Exception
unauthorized_access message =
    app (record { message = message; status = 403; code = "UNAUTHORIZED_ACCESS"; meta = none })

-- `type` has its default, 'BAD_REQUEST', in every call.
abbrev pub bad_request : String → Exception
bad_request message =
    app (record { message = message; status = 400; code = "BAD_REQUEST"; meta = none })

abbrev pub invalid_credentials : Exception
invalid_credentials = app (record {
  message = "Invalid credentials provided";
  status = 401;
  code = "INVALID_CREDENTIALS";
  meta = none;
})

-- The classes below are declared and thrown nowhere.
abbrev business_rule : String → Option (List (String × String)) → Exception
business_rule message meta =
    app (record { message = message; status = 422; code = "BUSINESS_RULE_VIOLATION"; meta = meta })

-- the entries of a spread, each in place of an earlier one of its key
abbrev put_all : List (String × String) → List (String × String) → List (String × String)
put_all [] entries = entries
put_all ((k, v) ∷ more) entries = put_all more (put k v entries)

-- `{ serviceName, ...meta }`, where an entry of `meta` overrides the name
abbrev with_service : String → Option (List (String × String)) → List (String × String)
with_service service none = ("serviceName", service) ∷ []
with_service service (some meta) = put_all meta (("serviceName", service) ∷ [])

abbrev external_service : String → String → Option (List (String × String)) → Exception
external_service service message meta = app (record {
  message = "Error from external service " ++ service ++ ": " ++ message;
  status = 502;
  code = "EXTERNAL_SERVICE_ERROR";
  meta = some (with_service service meta);
})

abbrev validation : String → Option (List (String × String)) → Exception
validation message meta =
    app (record { message = message; status = 400; code = "VALIDATION_ERROR"; meta = meta })

abbrev token_expired : Exception
token_expired = app (record {
  message = "The provided token has expired";
  status = 401;
  code = "TOKEN_EXPIRED";
  meta = none;
})

-- `type` defaults to 'FORBIDDEN'.
abbrev forbidden : String → Option String → Exception
forbidden message none =
    app (record { message = message; status = 403; code = "FORBIDDEN"; meta = none })
forbidden message (some type) =
    app (record { message = message; status = 403; code = type; meta = none })
