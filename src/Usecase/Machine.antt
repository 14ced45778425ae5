-- ===== src/Usecase/Machine.antt =====
-- internal/usecase/machine.go
pub mod Ownership
pub mod Columns
pub mod Conflict
use audiax_backend.Common.{Bool, Option, none, some, List, [], ◌∷◌, ◌++◌, if◌then◌else◌}
use audiax_backend.Common.Text.{Text, text, trim_space}
use audiax_backend.Errors.{Error, sentinel, conflict, duplicated_key, wrap, is}
use audiax_backend.Exec.{Exec, pure, on_error, total, reject_if, ◌>>=◌, ◌>>◌}
use audiax_backend.Entity.{Machine}
use audiax_backend.Model.{
  CreateMachineRequest, UpdateMachineRequest, MachineResponse, machine_to_response,
  machines_to_responses,
}
use audiax_backend.Usecase.Ports.{MachineRepository, not_found_or}
use audiax_backend.Usecase.Validation.{Outcome, validate_struct}

-- the fields of MachineUseCase; `new_id` is uuid.NewString
pub record MachineUseCase (W : Type 0) : Type 0 where
  pub validate_create : CreateMachineRequest → Outcome
  pub validate_update : UpdateMachineRequest → Outcome
  pub machines : MachineRepository W
  pub new_id : W → Text × W

abbrev pub trim_optional : Option Text → Option Text
trim_optional none = none
trim_optional (some value) = some (trim_space value)

-- `if errors.Is(err, gorm.ErrDuplicatedKey) { return apperr.ErrConflict }`, else wrap
unfoldable pub conflict_or : Text → Error → Error
conflict_or prefix e = if is e duplicated_key then sentinel conflict else wrap prefix e

abbrev pub trimmed_create : CreateMachineRequest → CreateMachineRequest
trimmed_create request = record {
  user_id = request.user_id;
  label = trim_space request.label;
  location = trim_optional request.location;
  description = trim_optional request.description;
}

abbrev pub trimmed_update : UpdateMachineRequest → UpdateMachineRequest
trimmed_update request = record {
  user_id = request.user_id;
  machine_id = request.machine_id;
  label = trim_optional request.label;
  location = trim_optional request.location;
  description = trim_optional request.description;
}

-- the row before gorm fills in its times
abbrev pub new_machine : Text → CreateMachineRequest → Machine
new_machine id request = record {
  id = id;
  user_id = request.user_id;
  label = request.label;
  location = request.location;
  description = request.description;
  created_at = 0;
  updated_at = 0;
  deleted_at = none;
}

-- `if value != nil { fields[column] = *value }`
abbrev pub column : Text → Option Text → List (Text × Text)
column name none = []
column name (some value) = (name, value) ∷ []

unfoldable pub update_columns : UpdateMachineRequest → List (Text × Text)
update_columns request =
    column (text "label") request.label
    ++ (column (text "location") request.location
        ++ column (text "description") request.description)

abbrev pub or_else {ℓ} : {A : Type ℓ} → Option A → A → A
or_else none a = a
or_else (some b) a = b

abbrev pub or_else_optional {ℓ} : {A : Type ℓ} → Option A → Option A → Option A
or_else_optional none a = a
or_else_optional (some b) a = some b

-- the assignments behind the write
abbrev pub assigned : UpdateMachineRequest → Machine → Machine
assigned request machine = record machine {
  label = or_else request.label machine.label;
  location = or_else_optional request.location machine.location;
  description = or_else_optional request.description machine.description;
}

module _ {W : Type 0} (uc : MachineUseCase W) where
  unfoldable pub find_owned_machine : Text → Text → Exec W Machine
  find_owned_machine machine_id user_id =
      on_error (not_found_or (text "find machine by id: "))
        (uc.machines.find_by_id_for_user machine_id user_id)

  unfoldable pub create : CreateMachineRequest → Exec W MachineResponse
  create given = do
    let request = trimmed_create given
    reject_if (validate_struct (uc.validate_create request))
    id ← total uc.new_id
    machine ←
        on_error (conflict_or (text "create machine: "))
          (uc.machines.create (new_machine id request))
    pure (machine_to_response machine)

  unfoldable pub list : Text → Exec W (List MachineResponse)
  list user_id = do
    machines ← on_error (wrap (text "list machines: ")) (uc.machines.list_for_user user_id)
    pure (machines_to_responses machines)

  unfoldable pub get : Text → Text → Exec W MachineResponse
  get user_id machine_id = do
    machine ← find_owned_machine machine_id user_id
    pure (machine_to_response machine)

  -- `if len(fields) == 0`, else the write
  abbrev pub write : UpdateMachineRequest → Machine → List (Text × Text) → Exec W MachineResponse
  write request machine [] = pure (machine_to_response machine)
  write request machine (c ∷ columns) = do
    row ←
        on_error (conflict_or (text "update machine: ")) (uc.machines.update machine (c ∷ columns))
    pure (machine_to_response (assigned request row))

  unfoldable pub update : UpdateMachineRequest → Exec W MachineResponse
  update given = do
    let request = trimmed_update given
    reject_if (validate_struct (uc.validate_update request))
    machine ← find_owned_machine request.machine_id request.user_id
    write request machine (update_columns request)

  unfoldable pub delete : Text → Text → Exec W Unit
  delete user_id machine_id = do
    machine ← find_owned_machine machine_id user_id
    on_error (wrap (text "delete machine: ")) (uc.machines.delete machine)
