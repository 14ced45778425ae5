-- ===== src/Repository/Machines/Fits.antt =====
-- What the tags of a request promise of the row that is stored.
use audiax_backend.Common.{
  ℕ, ◌≤◌, ◌≡◌, refl, sym, ap, subst, ◌∙◌, ◌≢◌, inl, Bool, true, not, Option, none, some, List, [],
  ◌∷◌, arith, In, length, and_true, le_of_leb,
}
use audiax_backend.Common.Text.{Text, text, ◌==◌, is_empty, trim_space}
use audiax_backend.Exec.{
  pure_ok, ok, pure, total, on_error, on_error_ok, continue_ok, reject_if, ◌>>=◌,
}
use audiax_backend.Entity.{Machine}
use audiax_backend.Model.{CreateMachineRequest, MachineResponse, machine_to_response}
use audiax_backend.Usecase.Validation.{Outcome, valid, field_errors, failure, validate_struct}
use audiax_backend.Usecase.Validation.Tags.{
  omitempty, max, field_holds, StructValidator, ValidatorLaws, create_machine_fields,
}
use audiax_backend.Usecase.Machine.{
  MachineUseCase, trimmed_create, new_machine, conflict_or, create,
}
use audiax_backend.Repository.Gorm.{Table}
use audiax_backend.Repository.Gorm.Laws.{IsStored, TableLaws}
use audiax_backend.Repository.Schemas.{machine_schema, machine_text, or_empty}
use audiax_backend.Repository.Machines.{machine_repository}
use audiax_backend.Repository.Base

-- The columns as the table machines declares them (migration 0002): varchar(100) not null, varchar(150)
-- and text; the last has the limit of the request. The label is not empty.
pub record IsFitting (row : Machine) : Type 0 where
  pub label_filled : row.label ≢ []
  pub label_within : length row.label ≤ 100
  pub location_within : length (or_empty row.location) ≤ 150
  pub description_within : length (or_empty row.description) ≤ 2000

optional_within :
    (is_email : Text → Bool) (n : ℕ) (value : Option Text)
    → field_holds is_email value (omitempty ∷ max n ∷ []) ≡ true
    → length (or_empty value) ≤ n
optional_within is_email n none h = omega arith
optional_within is_email n (some v) h = le_of_leb (length v) n (and_true _ _ h).0

filled : (v : Text) → not (is_empty v) ≡ true → v ≢ []
filled [] h e = cc
filled (c ∷ v) h e = cc

admitted_valid :
    {W : Type 0} (o : Outcome) (w w' : W)
    → reject_if (validate_struct o) w ≡ (ok tt, w')
    → o ≡ valid
unfolding validate_struct
admitted_valid valid w w' h = refl
admitted_valid (field_errors fes) w w' h = cc
admitted_valid (failure e) w w' h = cc

module _ (v : StructValidator) (valid_laws : ValidatorLaws v) where
  -- A valid request, trimmed, gives a row that fits.
  new_machine-IsFitting :
      (id : Text) (request : CreateMachineRequest)
      → v.struct (create_machine_fields request) ≡ valid
      → IsFitting (new_machine id request)
  new_machine-IsFitting id request h =
      let (_, labelled) =
        and_true _ _ ((valid_laws.struct_valid (create_machine_fields request)).0 h) in
      let (label, rest) = and_true _ _ labelled in
      let (present, sized) = and_true _ _ label in
      let (_, within) = and_true _ _ sized in
      let (location, described) = and_true _ _ rest in
      record {
        label_filled = filled request.label present;
        label_within = le_of_leb (length request.label) 100 (and_true _ _ within).0;
        location_within = optional_within v.is_email 150 request.location location;
        description_within =
            optional_within v.is_email 2000 request.description (and_true _ _ described).0;
      }

columns :
    (row : Machine)
    → (machine_text (text "user_id") row ≡ row.user_id)
      × (machine_text (text "label") row ≡ row.label)
      × (machine_text (text "location") row ≡ or_empty row.location)
      × (machine_text (text "description") row ≡ or_empty row.description)
unfolding machine_text ◌==◌
columns row = (refl, refl, refl, refl)

stored_columns :
    (given row : Machine)
    → IsStored machine_schema given row
    → (given.user_id ≡ row.user_id)
      × (given.label ≡ row.label)
      × (or_empty given.location ≡ or_empty row.location)
      × (or_empty given.description ≡ or_empty row.description)
stored_columns given row stored =
    let (user, label, location, description) = columns given in
    let (user', label', location', description') = columns row in
    (
      sym user ∙ sym (stored.same_text (text "user_id")) ∙ user',
      sym label ∙ sym (stored.same_text (text "label")) ∙ label',
      sym location ∙ sym (stored.same_text (text "location")) ∙ location',
      sym description ∙ sym (stored.same_text (text "description")) ∙ description',
    )

stored-IsFitting :
    (given row : Machine) → IsStored machine_schema given row → IsFitting given → IsFitting row
stored-IsFitting given row stored fits =
    let (_, label, location, description) = stored_columns given row stored in
    record {
      label_filled = λ e. fits.label_filled (label ∙ e);
      label_within = subst (λ t. length t ≤ 100) label fits.label_within;
      location_within = subst (λ t. length t ≤ 150) location fits.location_within;
      description_within = subst (λ t. length t ≤ 2000) description fits.description_within;
    }

module _ {W : Type 0} {rows : W → List Machine} {db : Table Machine W}
    (laws : TableLaws machine_schema rows db) (v : StructValidator) (valid_laws : ValidatorLaws v)
    (uc : MachineUseCase W) where
  abbrev tagged : MachineUseCase W
  tagged = record uc {
    validate_create = λ r. v.struct (create_machine_fields r);
    machines = machine_repository db;
  }

  -- A machine that was created is a row of the table, of the user who asked, with the label that was
  -- asked for less the white space around it, and its columns fit: the label is not empty and has at
  -- most 100 characters, the location 150 and the description 2000. The table and the validator keep
  -- their laws.
  pub created-IsFitting :
      (request : CreateMachineRequest) (w w' : W) (response : MachineResponse)
      → create tagged request w ≡ (ok response, w')
      → (row : Machine) × In row (rows w')
        × IsFitting row
        × (row.user_id ≡ request.user_id)
        × (row.label ≡ trim_space request.label)
        × (response ≡ machine_to_response row)
  unfolding create Base.create
  created-IsFitting request w w' response h =
      let trimmed = trimmed_create request in
      let checked = v.struct (create_machine_fields trimmed) in
      let (_, w₁, passed, h₁) =
        continue_ok (reject_if (validate_struct checked))
          (λ _. do
            id ← total uc.new_id
            machine ←
                on_error (conflict_or (text "create machine: "))
                  (db.create (new_machine id trimmed))
            pure (machine_to_response machine))
          w w' h in
      let (id, w₂, _, h₂) =
        continue_ok (total uc.new_id)
          (λ id. do
            machine ←
                on_error (conflict_or (text "create machine: "))
                  (db.create (new_machine id trimmed))
            pure (machine_to_response machine))
          w₁ w' h₁ in
      let (row, w₃, written, h₃) =
        continue_ok
          (on_error (conflict_or (text "create machine: ")) (db.create (new_machine id trimmed)))
          (λ machine. pure (machine_to_response machine)) w₂ w' h₂ in
      let (stored, added) = laws.create_row (new_machine id trimmed) w₂ w₃ row (
        on_error_ok (conflict_or (text "create machine: ")) (db.create (new_machine id trimmed)) w₂
          w₃ written) in
      let (user, label, _, _) = stored_columns (new_machine id trimmed) row stored in
      let table : row ∷ rows w₂ ≡ rows w' = sym added ∙ ap (λ p. rows p.1) h₃ in
      (
        row,
        subst (λ l. In row l) table (inl refl),
        stored-IsFitting (new_machine id trimmed) row stored
            (new_machine-IsFitting v valid_laws id trimmed (admitted_valid checked w w₁ passed)),
        sym user,
        sym label,
        sym (pure_ok (machine_to_response row) response w₃ w' h₃),
      )
