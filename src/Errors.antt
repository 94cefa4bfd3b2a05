-- ===== src/Errors.antt =====
-- The error classes of src/shared/errors (base-error.ts, http-errors.ts), the plain `Error`s that
-- the domain classes throw and what the libraries throw, with the global error handler
-- (error-handler.ts). A constructor carries what its class's constructor is given.
pub mod Laws
use tickethub_backend.Common.{
  ℕ, String, ◌<>◌, Bool, true, false, ◌≡◌, refl, ◌⊎◌, inl, inr, Option, none, some,
}
use tickethub_backend.Common.{if◌then◌else◌}

pub data Failure : Type 0 where
  validation_error : String → Failure
  unauthorized_error : String → Failure
  forbidden_error : String → Failure
  not_found_error : String → Option String → Failure
  conflict_error : String → Failure
  seat_unavailable_error : String → Failure
  hold_expired_error : String → Failure
  payment_error : String → Failure
  rate_limit_error : String → Failure
  external_service_error : String → Failure
  -- A plain `Error`, by its message.
  plain_error : String → Failure
  -- A `ZodError`: a request that its schema refuses.
  zod_error : Failure
  -- Fastify's own schema validation.
  fastify_validation : String → Failure
  -- What the database client throws when a unique constraint is violated, by the table.
  unique_violation : String → Failure

-- What a call returns or throws.
pub data Result (A : Type 0) : Type 0 where
  ok : A → Result A
  err : Failure → Result A

pub Result-cases :
    {A : Type 0} (r : Result A) → ((e : Failure) × (r ≡ err e)) ⊎ ((a : A) × (r ≡ ok a))
Result-cases (ok a) = inr (a, refl)
Result-cases (err e) = inl (e, refl)

infixl 5 ◌>>=◌ ◌>>◌
abbrev pub ◌>>=◌ : {A B : Type 0} → Result A → (A → Result B) → Result B
ok a >>= f = f a
err e >>= f = err e

abbrev pub ◌>>◌ : {B : Type 0} → Result (Unit {0}) → Result B → Result B
m >> k = m >>= λ _. k

-- `if (test) throw e;`
abbrev pub throw_if : Bool → Failure → Result (Unit {0})
throw_if true e = err e
throw_if false e = ok tt

-- `instanceof AppError`, with the `statusCode` of the class.
unfoldable pub status_code : Failure → Option ℕ
status_code (validation_error _) = some 400
status_code (unauthorized_error _) = some 401
status_code (forbidden_error _) = some 403
status_code (not_found_error _ _) = some 404
status_code (conflict_error _) = some 409
status_code (seat_unavailable_error _) = some 409
status_code (hold_expired_error _) = some 410
status_code (payment_error _) = some 402
status_code (rate_limit_error _) = some 429
status_code (external_service_error _) = some 502
status_code (plain_error _) = none
status_code zod_error = none
status_code (fastify_validation _) = none
status_code (unique_violation _) = none

-- The `code` of the class; the errors that are no `AppError` have none.
unfoldable pub error_code : Failure → Option String
error_code (validation_error _) = some "VALIDATION_ERROR"
error_code (unauthorized_error _) = some "UNAUTHORIZED"
error_code (forbidden_error _) = some "FORBIDDEN"
error_code (not_found_error _ _) = some "NOT_FOUND"
error_code (conflict_error _) = some "CONFLICT"
error_code (seat_unavailable_error _) = some "SEAT_UNAVAILABLE"
error_code (hold_expired_error _) = some "HOLD_EXPIRED"
error_code (payment_error _) = some "PAYMENT_FAILED"
error_code (rate_limit_error _) = some "RATE_LIMIT_EXCEEDED"
error_code (external_service_error _) = some "EXTERNAL_SERVICE_ERROR"
error_code (plain_error _) = none
error_code zod_error = none
error_code (fastify_validation _) = none
error_code (unique_violation _) = none

-- The message that each constructor hands to `super`. The library's own messages are kept short.
unfoldable pub message : Failure → String
message (validation_error m) = m
message (unauthorized_error m) = m
message (forbidden_error m) = m
message (not_found_error resource none) = resource <> " not found"
message (not_found_error resource (some id)) = resource <> " with id '" <> id <> "' not found"
message (conflict_error m) = m
message (seat_unavailable_error seat) = "Seat " <> seat <> " is not available"
message (hold_expired_error _) = "Reservation hold has expired"
message (payment_error m) = m
message (rate_limit_error m) = m
message (external_service_error service) = "External service '" <> service <> "' is unavailable"
message (plain_error m) = m
message zod_error = "zod"
message (fastify_validation m) = m
message (unique_violation table) = "Unique constraint failed on " <> table

-- What is sent: the status, and the `code` and `message` of the body. `stack` says whether the
-- body carries the error's stack trace.
pub record ErrorReply : Type 0 where
  pub status : ℕ
  pub code : String
  pub text : String
  pub stack : Bool

-- `error.message || 'An unexpected error occurred'`
or_unexpected : String → String
or_unexpected String.[] = "An unexpected error occurred"
or_unexpected m = m

app_reply : Option ℕ → Option String → String → ErrorReply → ErrorReply
app_reply (some s) (some c) m other = record { status = s; code = c; text = m; stack = false }
app_reply _ _ m other = other

-- Branches 2 to 4 of `errorHandler`, for an error that is no `AppError`.
other_reply : Bool → Failure → ErrorReply
unfolding message or_unexpected
other_reply production zod_error = record {
  status = 400;
  code = "VALIDATION_ERROR";
  text = "Request validation failed";
  stack = false;
}
other_reply production (fastify_validation m) = record {
  status = 400;
  code = "VALIDATION_ERROR";
  text = m;
  stack = false;
}
other_reply true e = record {
  status = 500;
  code = "INTERNAL_ERROR";
  text = "An unexpected error occurred";
  stack = false;
}
other_reply false e = record {
  status = 500;
  code = "INTERNAL_ERROR";
  text = or_unexpected (message e);
  stack = true;
}

-- `errorHandler`; `production` is `isProduction()`.
unfoldable pub error_handler : Bool → Failure → ErrorReply
unfolding app_reply other_reply status_code error_code message
error_handler production e =
    app_reply (status_code e) (error_code e) (message e) (other_reply production e)
