-- ===== src/Config/AiService/Client.antt =====
-- What the client of this program is told when the AI service fails.
use audiax_backend.Common.{
  ℕ, ◌≡◌, ◌≢◌, refl, inl, inr, not, ◌&&◌, if◌then◌else◌, Bool-cases, none, some, arith, leb, nat_eq,
}
use audiax_backend.Common.Text.{Text, text, is_empty}
use audiax_backend.Errors.{Error, is, as_rejected, as_validation, as_fiber}
use audiax_backend.Exec.{Result, err}
use audiax_backend.Model.{ErrorResponse}
use audiax_backend.Http.ErrorHandler.{respond, handle_other, error_handler}
use audiax_backend.Config.AiService.{Response, error_for, received}

-- By status and detail, what the client is told.
abbrev pub by_status : ℕ → Text → ℕ × ErrorResponse
by_status status detail =
    if nat_eq status 400 && not (is_empty detail)
    then respond 422 detail
    else if leb 500 status
    then respond 503 (text "upstream service unavailable")
    else respond 500 (text "internal server error")

module _ {A : Type 0} (path : Text) where
  error_for-by_status :
      (resp : Response A)
      → error_handler (error_for path resp) ≡ by_status resp.status_code resp.detail
  unfolding error_for error_handler handle_other is as_rejected as_validation as_fiber
  error_for-by_status resp =
      elim (Bool-cases (nat_eq resp.status_code 400 && not (is_empty resp.detail))) [
        | inl refused ↦ rw refused refl
        | inr other ↦ elim (Bool-cases (leb 500 resp.status_code)) [
          | inl broken ↦ rw (other, broken) refl
          | inr odd ↦ rw (other, odd) refl
        ]
      ]

  -- The failures as the error handler answers them: a refusal of the quality gate (400 with a detail)
  -- reaches the client word for word with status 422, any status from 500 on and a failure of the
  -- transport are 503, and any other status than 200 is an internal error without the text of the
  -- service.
  pub failures_answered :
      ((e : Error)
        → received {A = A} path none ≡ err e
        → error_handler e ≡ respond 503 (text "upstream service unavailable"))
      × ((resp : Response A) (e : Error)
          → resp.status_code ≢ 200
          → received path (some resp) ≡ err e
          → error_handler e ≡ by_status resp.status_code resp.detail)
  unfolding received
  failures_answered = (
    λ e h.
        rw (← err-injective h)
          (unfold error_handler handle_other is as_rejected as_validation in refl),
    λ resp e failed h. elim (Bool-cases (nat_eq resp.status_code 200)) [
      | inl fine ↦ absurd (failed (ground arith))
      | inr other ↦ rw (← err-injective (rw other at h)) (error_for-by_status resp)
    ],
  )
    where
      err-injective : {x y : Error} → Path (Result A) (err x) (err y) → x ≡ y
      err-injective h = cc
