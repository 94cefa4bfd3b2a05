-- ===== src/Errors/Laws.antt =====
-- What the global error handler lets out.
use tickethub_backend.Common.{
  ℕ, ◌≡◌, ◌≢◌, refl, ◌⊎◌, inl, inr, String, Bool, true, false, none, some, arith,
}
use tickethub_backend.Errors.{
  Failure, ErrorReply, status_code, error_code, message, error_handler, validation_error,
  unauthorized_error, forbidden_error, not_found_error, conflict_error, seat_unavailable_error,
  hold_expired_error, payment_error, rate_limit_error, external_service_error, plain_error,
  zod_error, fastify_validation, unique_violation,
}

-- The reply in production, by the class of the error: an application error keeps its status and
-- text; a validation error has status 400; of any other error neither class nor text is told.
abbrev pub ReplyOf : Failure → ErrorReply → Type 0
ReplyOf e r =
    ((s : ℕ) × (status_code e ≡ some s) × (r.status ≡ s) × (r.text ≡ message e))
    ⊎ ((status_code e ≡ none)
        × (((e ≡ zod_error) × (r.status ≡ 400) × (r.text ≡ "Request validation failed"))
            ⊎ ((m : String) × (e ≡ fastify_validation m) × (r.status ≡ 400) × (r.text ≡ m))))
    ⊎ ((status_code e ≡ none)
        × (e ≢ zod_error)
        × ((m : String) → e ≢ fastify_validation m)
        × (r.status ≡ 500)
        × (r.code ≡ "INTERNAL_ERROR")
        × (r.text ≡ "An unexpected error occurred"))

-- In production no reply carries a stack trace. An application error is sent with its own status and
-- text, and a validation error with status 400; any other error, whatever its text, is sent as the
-- same fixed text and code with status 500.
pub error_handler-hides :
    (e : Failure) → let r = error_handler true e in (r.stack ≡ false) × ReplyOf e r
unfolding error_handler status_code message
error_handler-hides (validation_error _) = (refl, inl (400, refl, refl, refl))
error_handler-hides (unauthorized_error _) = (refl, inl (401, refl, refl, refl))
error_handler-hides (forbidden_error _) = (refl, inl (403, refl, refl, refl))
error_handler-hides (not_found_error _ _) = (refl, inl (404, refl, refl, refl))
error_handler-hides (conflict_error _) = (refl, inl (409, refl, refl, refl))
error_handler-hides (seat_unavailable_error _) = (refl, inl (409, refl, refl, refl))
error_handler-hides (hold_expired_error _) = (refl, inl (410, refl, refl, refl))
error_handler-hides (payment_error _) = (refl, inl (402, refl, refl, refl))
error_handler-hides (rate_limit_error _) = (refl, inl (429, refl, refl, refl))
error_handler-hides (external_service_error _) = (refl, inl (502, refl, refl, refl))
error_handler-hides (plain_error m) =
    (refl, inr (inr (refl, (λ h. cc), (λ n h. cc), refl, refl, refl)))
error_handler-hides zod_error = (refl, inr (inl (refl, inl (refl, refl, refl))))
error_handler-hides (fastify_validation m) = (refl, inr (inl (refl, inr (m, refl, refl, refl))))
error_handler-hides (unique_violation t) =
    (refl, inr (inr (refl, (λ h. cc), (λ n h. cc), refl, refl, refl)))

-- An application error keeps its status, code and message in the reply in every environment.
pub error_handler-AppError :
    (production : Bool) (e : Failure) {s : ℕ}
    → status_code e ≡ some s
    → let r = error_handler production e in
      (r.status ≡ s) × (some r.code ≡ error_code e) × (r.text ≡ message e) × (r.stack ≡ false)
unfolding error_handler
error_handler-AppError production e h = ground arith
