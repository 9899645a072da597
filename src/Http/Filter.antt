-- ===== src/Http/Filter.antt =====
-- `GlobalExceptionFilter` (src/common/filters/global-exception.filter.ts): the answer for an exception.
-- What it logs is not modelled.
pub mod Masked
use payment_microservice.Prelude.{
  ℕ, zero, String, Bool, true, false, not, ◌&&◌, Option, none, some, ◌==◌, truthy, eqb, or_default,
  if◌then◌else◌,
}
use payment_microservice.Store.{Json, null, text, number, boolean, Metadata, get}

-- What may be thrown: a NestJS exception with its status, its `getResponse()` (an object, or
-- anything else) and its message; an error of Prisma with its code; another `Error`; another value
pub data Exception : Type 0 where
  http : ℕ → Option Metadata → String → Exception
  prisma : String → String → Exception
  error : String → Exception
  other_value : Exception

pub record FilteredRequest : Type 0 where
  pub correlation_id : Option String  -- the header `x-correlation-id`
  pub url : String

pub record ErrorResponse : Type 0 where
  pub status_code : ℕ
  pub error_code : Json
  pub message : Json
  pub correlation_id : String
  pub timestamp : ℕ
  pub path : String

-- `Boolean(v)`
abbrev pub truthy_json : Json → Bool
truthy_json null = false
truthy_json (text s) = truthy s
truthy_json (number zero) = false
truthy_json (boolean b) = b
truthy_json _ = true

-- `v || fallback`
abbrev pub or_else : Option Json → Json → Json
or_else none fallback = fallback
or_else (some v) fallback = if truthy_json v then v else fallback

unfoldable pub status_to_error_code : ℕ → String
status_to_error_code status =
    if eqb status 404
    then "NOT_FOUND"
    else if eqb status 401
    then "UNAUTHORIZED"
    else if eqb status 403
    then "FORBIDDEN"
    else if eqb status 409
    then "CONFLICT"
    else if eqb status 429
    then "RATE_LIMITED"
    else if eqb status 422
    then "VALIDATION_ERROR"
    else "INTERNAL_ERROR"

-- the three variables that the branches set
pub record Answer : Type 0 where
  pub status : ℕ
  pub error_code : Json
  pub message : Json

abbrev pub unexpected : Answer
unexpected = record {
  status = 500;
  error_code = text "INTERNAL_ERROR";
  message = text "An unexpected error occurred";
}

abbrev pub http_answer : ℕ → Option Metadata → String → Answer
http_answer status none message = record {
  status = status;
  error_code = text (status_to_error_code status);
  message = text message;
}
http_answer status (some resp) message = record {
  status = status;
  error_code = or_else (get "errorCode" resp) (text (status_to_error_code status));
  message = or_else (get "message" resp) (text message);
}

abbrev pub prisma_answer : String → Answer
prisma_answer code =
    if code == "P2002"
    then record {
      status = 409;
      error_code = text "CONFLICT";
      message = text "A record with this identifier already exists";
    }
    else if code == "P2025"
    then record {
      status = 404;
      error_code = text "NOT_FOUND";
      message = text "The requested resource was not found";
    }
    else unexpected

abbrev pub answer : Bool → Exception → Answer
answer is_production (Exception.http status resp message) = http_answer status resp message
answer is_production (Exception.prisma code message) = prisma_answer code
answer is_production (Exception.error message) =
    if is_production then unexpected else record unexpected { message = text message }
answer is_production Exception.other_value = unexpected

-- `catch`, in an environment and at a time
unfoldable pub catch_exception : String → ℕ → Exception → FilteredRequest → ErrorResponse
catch_exception env now exception request =
    let a = answer (env == "production") exception in
    record {
      status_code = a.status;
      error_code = a.error_code;
      message = a.message;
      correlation_id = or_default request.correlation_id "unknown";
      timestamp = now;
      path = request.url;
    }
