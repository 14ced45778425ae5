-- ===== src/Tests/Users.antt =====
-- The theorems on users, the middleware and the client of the AI service at a concrete input.
use audiax_backend.Common.{◌≡◌, ◌⊎◌, ◌≢◌, refl, true, false, none, some, List, [], ◌∷◌}
use audiax_backend.Common.Text.{Text, text}
use audiax_backend.Errors.{validation, Error, sentinel, unauthorized, record_not_found, is}
use audiax_backend.Exec.{ok, err, Exec, pure}
use audiax_backend.Entity.{User}
use audiax_backend.Model.{Auth, user_to_response}
use audiax_backend.Usecase.Validation.{FieldError, field_errors, validate_struct}
use audiax_backend.Usecase.Validation.Fields.{entry, last_description, validate_struct_fields}
use audiax_backend.Usecase.User.{normalise_email, login, update}
use audiax_backend.Usecase.User.Login.{failed_logins_alike}
use audiax_backend.Usecase.User.Revocation.{IsRevoked, password_change_revokes}
use audiax_backend.Http.ErrorHandler.{respond, error_handler}
use audiax_backend.Http.Auth.Bearer.{IsAuthorized, IsAnonymous, IsRefused, auth_guards}
use audiax_backend.Config.AiService.{Response, received}
use audiax_backend.Config.AiService.Client.{by_status, failures_answered}
use audiax_backend.Tests.World.{World, ascii}
use audiax_backend.Tests.Services.{operator, user_use_case, signing_in, new_password}

failed_logins_alike_example :
    ((e : Error)
      → user_use_case.users.find_by_email (normalise_email ascii (text "a@b.id")) [] ≡ (err e, [])
      → is e record_not_found ≡ true
      → login user_use_case (signing_in (text "a@b.id")) [] ≡ (err (sentinel unauthorized), []))
    × ((user : User)
        → user_use_case.users.find_by_email (normalise_email ascii (text "a@b.id")) []
          ≡ (ok user, [])
        → user_use_case.matches user.password_hash (text "salah") ≡ false
        → login user_use_case (signing_in (text "a@b.id")) [] ≡ (err (sentinel unauthorized), []))
unfolding validate_struct
failed_logins_alike_example =
    failed_logins_alike user_use_case (signing_in (text "a@b.id")) [] refl []

password_change_revokes_example :
    IsRevoked user_use_case (user_to_response operator) (text "u1" ∷ [])
unfolding update validate_struct
password_change_revokes_example =
    password_change_revokes user_use_case new_password (text "baru1234") []
      (user_to_response operator) (text "u1" ∷ []) refl refl

abbrev handler : Auth → Exec World Text
handler auth = pure auth.user_id

auth_guards_example :
    IsAuthorized user_use_case (text "bEARER t1") handler []
    ⊎ (IsAnonymous user_use_case (text "bEARER t1") handler []
        ⊎ IsRefused user_use_case (text "bEARER t1") handler [])
auth_guards_example = auth_guards user_use_case (text "bEARER t1") handler []

failures_answered_example :
    ((e : Error)
      → received {A = Text} (text "/calibrate") none ≡ err e
      → error_handler e ≡ respond 503 (text "upstream service unavailable"))
    × ((resp : Response Text) (e : Error)
        → resp.status_code ≢ 200
        → received (text "/calibrate") (some resp) ≡ err e
        → error_handler e ≡ by_status resp.status_code resp.detail)
failures_answered_example = failures_answered (text "/calibrate")

abbrev reported : List FieldError
reported = record { field = text "label"; tag = text "required"; param = [] } ∷ []

validate_struct_fields_example :
    (fields : List (Text × Text)) × (validate_struct (field_errors reported)
      ≡ some (validation fields))
    × ((key : Text) → entry fields key ≡ last_description reported key none)
validate_struct_fields_example = validate_struct_fields reported
