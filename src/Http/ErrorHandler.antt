-- ===== src/Http/ErrorHandler.antt =====
-- internal/delivery/http/errors.go: a domain error as an HTTP status and a body.
pub mod Table
use audiax_backend.Common.{ℕ, ◌≡◌, refl, Option, none, some, List, [], if◌then◌else◌}
use audiax_backend.Common.Text.{Text, text}
use audiax_backend.Errors.{
  Error, not_found, conflict, unauthorized, forbidden, unavailable, is, as_rejected, as_validation,
  as_fiber,
}
use audiax_backend.Model.{ErrorResponse}

abbrev pub respond : ℕ → Text → ℕ × ErrorResponse
respond status message = (status, record { error = message; fields = [] })

-- the rest of the handler behind the validation and rejection cases
unfoldable pub handle_other : Error → ℕ × ErrorResponse
handle_other e =
    if is e not_found
    then respond 404 (text "resource not found")
    else if is e conflict
    then respond 409 (text "resource already exists")
    else if is e unauthorized
    then respond 401 (text "unauthorized")
    else if is e forbidden
    then respond 403 (text "forbidden")
    else if is e unavailable
    then respond 503 (text "upstream service unavailable")
    else elim (as_fiber e) [
      | some fiber ↦ respond fiber.0 fiber.1
      | none ↦ respond 500 (text "internal server error")
    ]

-- `NewErrorHandler`; the log entry of an unknown error is not modelled
unfoldable pub error_handler : Error → ℕ × ErrorResponse
error_handler e = elim (as_validation e) [
  | some fields ↦ (400, record { error = text "validation failed"; fields = fields })
  | none ↦ elim (as_rejected e) [ some reason ↦ respond 422 reason | none ↦ handle_other e ]
]
