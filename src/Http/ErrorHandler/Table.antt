-- ===== src/Http/ErrorHandler/Table.antt =====
-- The status and the body by the cause of an error.
use audiax_backend.Common.{ℕ, ◌≡◌, refl}
use audiax_backend.Common.Text.{text}
use audiax_backend.Errors.{
  cause, Error, Sentinel, sentinel, rejected, validation, fiber, opaque, panic, wrap, not_found,
  conflict, unauthorized, forbidden, unavailable, record_not_found, duplicated_key, redis_nil, is,
  as_rejected, as_validation, as_fiber,
}
use audiax_backend.Model.{ErrorResponse}
use audiax_backend.Http.ErrorHandler.{respond, handle_other, error_handler}

-- What each cause is answered with. The errors of gorm and Redis are nobody's business outside.
abbrev pub internal : ℕ × ErrorResponse
internal = respond 500 (text "internal server error")

abbrev pub by_sentinel : Sentinel → ℕ × ErrorResponse
by_sentinel not_found = respond 404 (text "resource not found")
by_sentinel conflict = respond 409 (text "resource already exists")
by_sentinel unauthorized = respond 401 (text "unauthorized")
by_sentinel forbidden = respond 403 (text "forbidden")
by_sentinel unavailable = respond 503 (text "upstream service unavailable")
by_sentinel record_not_found = internal
by_sentinel duplicated_key = internal
by_sentinel redis_nil = internal

abbrev pub by_cause : Error → ℕ × ErrorResponse
by_cause (sentinel s) = by_sentinel s
by_cause (rejected reason) = respond 422 reason
by_cause (validation fields) = (400, record { error = text "validation failed"; fields = fields })
by_cause (fiber status message) = respond status message
by_cause (opaque _) = internal
by_cause (panic _) = internal
by_cause (wrap _ _) = internal

-- The response is a function of the cause at the end of the chain alone: the table by causes above.
-- So no text that wrapping adds, and no text of an unknown error, a panic or a database error,
-- reaches the client.
pub error_handler-by_cause : (e : Error) → error_handler e ≡ by_cause (cause e)
unfolding error_handler handle_other is as_rejected as_validation as_fiber
error_handler-by_cause (wrap _ e) = error_handler-by_cause e
error_handler-by_cause (sentinel not_found) = refl
error_handler-by_cause (sentinel _) = refl
error_handler-by_cause e = refl
