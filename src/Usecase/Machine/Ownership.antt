-- ===== src/Usecase/Machine/Ownership.antt =====
-- The ownership gate of internal/usecase/machine.go.
use audiax_backend.Common.{◌≡◌, refl, true, none}
use audiax_backend.Errors.{Error, sentinel, not_found, record_not_found, is}
use audiax_backend.Exec.{err}
use audiax_backend.Model.{UpdateMachineRequest}
use audiax_backend.Usecase.Ports.{not_found_or}
use audiax_backend.Usecase.Validation.{validate_struct}
use audiax_backend.Usecase.Machine.{
  MachineUseCase, trimmed_update, find_owned_machine, get, update, delete,
}

module _ {W : Type 0} (uc : MachineUseCase W) where
  -- A machine that the repository does not find for the caller: reading, updating (with a valid
  -- request) and deleting it all end with the one answer "not found", in the world that the lookup
  -- left, so nothing is written.
  pub foreign_machine_untouched :
      (request : UpdateMachineRequest) (w : W) (e : Error) (w' : W)
      → uc.machines.find_by_id_for_user request.machine_id request.user_id w ≡ (err e, w')
      → is e record_not_found ≡ true
      → validate_struct (uc.validate_update (trimmed_update request)) ≡ none
      → (get uc request.user_id request.machine_id w ≡ (err (sentinel not_found), w'))
        × (update uc request w ≡ (err (sentinel not_found), w'))
        × (delete uc request.user_id request.machine_id w ≡ (err (sentinel not_found), w'))
  unfolding get update delete find_owned_machine not_found_or
  foreign_machine_untouched request w e w' missing gone valid =
      (rw (missing, gone) refl, rw (valid, missing, gone) refl, rw (missing, gone) refl)
