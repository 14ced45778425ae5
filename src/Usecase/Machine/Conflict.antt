-- ===== src/Usecase/Machine/Conflict.antt =====
-- A label that the caller's other machine has.
use audiax_backend.Common.{◌≡◌, refl, true, none}
use audiax_backend.Common.Text.{text}
use audiax_backend.Errors.{
  Error, sentinel, conflict, duplicated_key, is, as_rejected, as_validation,
}
use audiax_backend.Exec.{err}
use audiax_backend.Model.{CreateMachineRequest}
use audiax_backend.Usecase.Validation.{validate_struct}
use audiax_backend.Usecase.Machine.{
  MachineUseCase, trimmed_create, new_machine, conflict_or, create,
}
use audiax_backend.Http.ErrorHandler.{respond, handle_other, error_handler}

module _ {W : Type 0} (uc : MachineUseCase W) where
  -- A valid creation whose insert breaks the unique index, however the error of the database is
  -- wrapped, ends in the world that the insert left with an error that the client sees as status 409.
  pub duplicate_is_conflict :
      (request : CreateMachineRequest) (w w' : W) (e : Error)
      → validate_struct (uc.validate_create (trimmed_create request)) ≡ none
      → uc.machines.create (new_machine (uc.new_id w).0 (trimmed_create request)) (uc.new_id w).1
        ≡ (err e, w')
      → is e duplicated_key ≡ true
      → (failure : Error) × (create uc request w ≡ (err failure, w'))
        × (error_handler failure ≡ respond 409 (text "resource already exists"))
  unfolding create conflict_or error_handler handle_other is as_rejected as_validation
  duplicate_is_conflict request w w' e valid broken duplicated =
      (sentinel conflict, rw (valid, broken, duplicated) refl, refl)
