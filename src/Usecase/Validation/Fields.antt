-- ===== src/Usecase/Validation/Fields.antt =====
-- What the client is told of each field.
use audiax_backend.Common.{
  ◌≡◌, refl, inl, inr, arith, Bool-cases, Option, none, some, List, [], ◌∷◌, if◌then◌else◌,
}
use audiax_backend.Common.Text.{Text, ◌==◌}
use audiax_backend.Common.Text.Search.{eq_iff}
use audiax_backend.Errors.{validation}
use audiax_backend.Usecase.Validation.{
  FieldError, field_errors, describe, assign, collect, validate_struct,
}

-- The entry of a key.
abbrev pub entry : List (Text × Text) → Text → Option Text
entry [] key = none
entry ((k, v) ∷ fields) key = if k == key then some v else entry fields key

-- The description of the last error of a field, or what stands there without one.
abbrev pub last_description : List FieldError → Text → Option Text → Option Text
last_description [] key before = before
last_description (fe ∷ fes) key before =
    last_description fes key (if fe.field == key then some (describe fe) else before)

entry-assign :
    (fields : List (Text × Text)) (name value key : Text)
    → entry (assign fields name value) key ≡ (if name == key then some value else entry fields key)
unfolding assign
entry-assign [] name value key = refl
entry-assign ((k, v) ∷ fields) name value key = elim (Bool-cases (k == name)) [
  | inl same ↦ ground (arith, eq_iff k name, eq_iff name key, eq_iff k key)
  | inr other ↦
      ground
        (arith, entry-assign fields name value key, eq_iff k name, eq_iff name key, eq_iff k key)
]

entry-collect :
    (fes : List FieldError) (fields : List (Text × Text)) (key : Text)
    → entry (collect fields fes) key ≡ last_description fes key (entry fields key)
unfolding collect
entry-collect [] fields key = refl
entry-collect (fe ∷ fes) fields key =
    rw
      (
        entry-collect fes (assign fields fe.field (describe fe)) key,
        entry-assign fields fe.field (describe fe) key,
      )
      refl

-- If the validator reports errors of fields, the result is a validation error whose map has for each
-- field the description of its last error, and nothing for a field without one.
pub validate_struct_fields :
    (fes : List FieldError)
    → (fields : List (Text × Text)) × (validate_struct (field_errors fes)
        ≡ some (validation fields))
      × ((key : Text) → entry fields key ≡ last_description fes key none)
unfolding validate_struct
validate_struct_fields fes = (collect [] fes, refl, λ key. entry-collect fes [] key)
