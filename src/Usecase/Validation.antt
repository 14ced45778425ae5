-- ===== src/Usecase/Validation.antt =====
-- internal/usecase/validation.go: what the validator reports, as the error of the application.
pub mod Fields
pub mod Tags
use audiax_backend.Common.{Option, none, some, List, [], ◌∷◌, ◌++◌, if◌then◌else◌}
use audiax_backend.Common.Text.{Text, text, ◌==◌}
use audiax_backend.Errors.{Error, validation, wrap}

-- validator.FieldError
pub record FieldError : Type 0 where
  pub field : Text
  pub tag : Text
  pub param : Text

-- What validate.Struct returns: nil, the errors of the fields, or another error (an
-- InvalidValidationError among them).
pub data Outcome : Type 0 where
  valid : Outcome
  field_errors : List FieldError → Outcome
  failure : Error → Outcome

unfoldable pub describe : FieldError → Text
describe fe =
    if fe.tag == text "required"
    then text "is required"
    else if fe.tag == text "email"
    then text "must be a valid email address"
    else if fe.tag == text "min"
    then text "must be at least " ++ (fe.param ++ text " characters")
    else if fe.tag == text "max"
    then text "must be at most " ++ (fe.param ++ text " characters")
    else text "failed the " ++ (fe.tag ++ text " rule")

-- `fields[key] = value`
unfoldable pub assign : List (Text × Text) → Text → Text → List (Text × Text)
assign [] key value = (key, value) ∷ []
assign ((k, v) ∷ fields) key value =
    if k == key then (k, value) ∷ fields else (k, v) ∷ assign fields key value

-- the loop over the field errors
unfoldable pub collect : List (Text × Text) → List FieldError → List (Text × Text)
collect fields [] = fields
collect fields (fe ∷ fes) = collect (assign fields fe.field (describe fe)) fes

unfoldable pub validate_struct : Outcome → Option Error
validate_struct valid = none
validate_struct (field_errors fes) = some (validation (collect [] fes))
validate_struct (failure e) = some (wrap (text "validate: ") e)
