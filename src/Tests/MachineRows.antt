-- ===== src/Tests/MachineRows.antt =====
-- The theorems on the rows of machines, over a table in memory.
use audiax_backend.Common.{
  ◌≡◌, ◌≢◌, refl, Bool, true, false, all, ◌↔◌, none, some, List, [], ◌∷◌, In,
}
use audiax_backend.Common.Text.{Text, text, ◌==◌, trim_space, is_space}
use audiax_backend.Exec.{ok}
use audiax_backend.Entity.{Machine}
use audiax_backend.Model.{
  CreateMachineRequest, UpdateMachineRequest, MachineResponse, machine_to_response,
}
use audiax_backend.Usecase.Validation.{Outcome, valid, field_errors, validate_struct}
use audiax_backend.Usecase.Validation.Tags.{
  Field, field_holds, StructValidator, ValidatorLaws, tag_name,
}
use audiax_backend.Repository.Machines.Fits.{IsFitting, created-IsFitting}
use audiax_backend.Usecase.Machine.{
  MachineUseCase, find_owned_machine, get, list, create, update, delete, new_machine,
  trimmed_create,
}
use audiax_backend.Repository.Gorm.{Table}
use audiax_backend.Repository.Gorm.Laws.{TableLaws}
use audiax_backend.Repository.Schemas.{machine_schema, machine_text}
use audiax_backend.Repository.Base
use audiax_backend.Repository.Machines.{machine_repository, find_by_id_for_user}
use audiax_backend.Repository.Machines.Rows.{deleted_gone}
use audiax_backend.Tests.World.{ceiling_fan}
use audiax_backend.Tests.Tables.{memory, memory_laws, marked, marked-IsDeletion}

abbrev deleted : Machine → Machine
deleted m = record m { deleted_at = some 9 }

abbrev machine_table : Table Machine (List Machine)
machine_table = memory machine_schema (marked machine_schema deleted)

machine_laws : TableLaws machine_schema (λ rows. rows) machine_table
machine_laws =
    memory_laws machine_schema (marked machine_schema deleted)
      (marked-IsDeletion machine_schema deleted (λ m. refl))

abbrev machine_use_case : MachineUseCase (List Machine)
machine_use_case = record {
  validate_create = λ request. valid;
  validate_update = λ request. valid;
  machines = machine_repository machine_table;
  new_id = λ w. (text "id", w);
}

abbrev fans : List Machine
fans = record ceiling_fan { id = text "m0"; user_id = text "u2" } ∷ ceiling_fan ∷ []

abbrev fans_left : List Machine
fans_left = (delete machine_use_case (text "u1") (text "m1") fans).1

deleted_gone_example :
    ((any_user : Text) (w : List Machine) (response : MachineResponse)
      → get machine_use_case any_user (text "m1") fans_left ≢ (ok response, w))
    × ((request : UpdateMachineRequest) (w : List Machine) (response : MachineResponse)
        → request.machine_id ≡ text "m1"
        → update machine_use_case request fans_left ≢ (ok response, w))
    × ((any_user : Text) (w : List Machine)
        → delete machine_use_case any_user (text "m1") fans_left ≢ (ok tt, w))
    × ((any_user : Text) (w : List Machine) (responses : List MachineResponse)
          (response : MachineResponse)
        → list machine_use_case any_user fans_left ≡ (ok responses, w)
        → In response responses
        → response.id ≢ text "m1")
unfolding delete find_owned_machine find_by_id_for_user Base.delete machine_text ◌==◌
deleted_gone_example =
    deleted_gone machine_laws machine_use_case (text "u1") (text "m1") fans fans_left refl

-- The documented rules as they stand, with every address accepted.
abbrev passes : List Field → Bool
passes = all λ f. field_holds (λ s. true) f.value f.rules

abbrev by_rules : Bool → Outcome
by_rules true = valid
by_rules false = field_errors []

abbrev rules : StructValidator
rules = record { struct = λ fields. by_rules (passes fields); is_email = λ s. true }

by_rules_valid : (b : Bool) → (by_rules b ≡ valid) ↔ (b ≡ true)
by_rules_valid true = (λ h. refl, λ h. refl)
by_rules_valid false = (λ h. cc, λ h. cc)

rules_laws : ValidatorLaws rules
rules_laws = record { struct_valid = λ fields. by_rules_valid (passes fields) }

abbrev fan_request : CreateMachineRequest
fan_request = record {
  user_id = text "u1";
  label = text " Kipas ";
  location = none;
  description = some (text "gudang");
}

abbrev new_fan : Machine
new_fan = new_machine (text "id") (trimmed_create fan_request)

created-IsFitting_example :
    (row : Machine) × In row (new_fan ∷ fans)
    × IsFitting row
    × (row.user_id ≡ text "u1")
    × (row.label ≡ trim_space (text " Kipas "))
    × (machine_to_response new_fan ≡ machine_to_response row)
unfolding create Base.create validate_struct trim_space is_space tag_name
created-IsFitting_example =
    created-IsFitting machine_laws rules rules_laws machine_use_case fan_request fans
      (new_fan ∷ fans) (machine_to_response new_fan) refl
