-- ===== src/Errors.antt =====
-- internal/apperr/apperr.go, and the errors of the libraries that the code asks for by name.
use audiax_backend.Common.{ℕ, Bool, false, Option, none, some, List, nat_eq}
use audiax_backend.Common.Text.{Text}

-- Values compared by errors.Is: the sentinels of apperr, then gorm.ErrRecordNotFound,
-- gorm.ErrDuplicatedKey and redis.Nil.
pub data Sentinel : Type 0 where
  not_found conflict unauthorized forbidden unavailable : Sentinel
  record_not_found duplicated_key redis_nil : Sentinel

-- An error value. `wrap` is fmt.Errorf with one %w, and the text is what it adds; `fiber` is a
-- *fiber.Error; `opaque` is any error that the code never takes apart;
-- `panic` is a run-time panic, which the recover middleware hands on as an error.
pub data Error : Type 0 where
  sentinel : Sentinel → Error
  rejected : Text → Error
  validation : List (Text × Text) → Error
  fiber : ℕ → Text → Error
  opaque : Text → Error
  panic : Text → Error
  wrap : Text → Error → Error

-- The end of a chain of wrapped errors.
abbrev pub cause : Error → Error
cause (wrap _ e) = cause e
cause e = e

abbrev tag : Sentinel → ℕ
tag not_found = 0
tag conflict = 1
tag unauthorized = 2
tag forbidden = 3
tag unavailable = 4
tag record_not_found = 5
tag duplicated_key = 6
tag redis_nil = 7

-- errors.Is(err, target)
unfoldable pub is : Error → Sentinel → Bool
is (sentinel s) target = nat_eq (tag s) (tag target)
is (rejected _) target = false
is (validation _) target = false
is (fiber _ _) target = false
is (opaque _) target = false
is (panic _) target = false
is (wrap _ e) target = is e target

-- errors.As into a *apperr.RejectedError, a *apperr.ValidationError and a *fiber.Error
unfoldable pub as_rejected : Error → Option Text
as_rejected (sentinel _) = none
as_rejected (rejected reason) = some reason
as_rejected (validation _) = none
as_rejected (fiber _ _) = none
as_rejected (opaque _) = none
as_rejected (panic _) = none
as_rejected (wrap _ e) = as_rejected e

unfoldable pub as_validation : Error → Option (List (Text × Text))
as_validation (sentinel _) = none
as_validation (rejected _) = none
as_validation (validation fields) = some fields
as_validation (fiber _ _) = none
as_validation (opaque _) = none
as_validation (panic _) = none
as_validation (wrap _ e) = as_validation e

unfoldable pub as_fiber : Error → Option (ℕ × Text)
as_fiber (sentinel _) = none
as_fiber (rejected _) = none
as_fiber (validation _) = none
as_fiber (fiber status message) = some (status, message)
as_fiber (opaque _) = none
as_fiber (panic _) = none
as_fiber (wrap _ e) = as_fiber e
