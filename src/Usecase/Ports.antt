-- ===== src/Usecase/Ports.antt =====
-- The interfaces that internal/usecase declares and others implement. A method that reads or writes
-- outside the program takes the world before it and gives the world after it.
use audiax_backend.Common.{ℕ, List, if◌then◌else◌}
use audiax_backend.Common.Text.{Text}
use audiax_backend.Errors.{Error, sentinel, not_found, record_not_found, wrap, is}
use audiax_backend.Exec.{Exec}
use audiax_backend.Floats.{Floats}
use audiax_backend.Entity.{Time, User, Machine, Baseline, Inspection}
use audiax_backend.Model.{AiBaseline, AiHealthCard}

-- the translation of a failed lookup: `if errors.Is(err, gorm.ErrRecordNotFound) { return
-- apperr.ErrNotFound }`, else wrap
unfoldable pub not_found_or : Text → Error → Error
not_found_or prefix e = if is e record_not_found then sentinel not_found else wrap prefix e

-- `create` and `update` give back the row as the call leaves it: gorm fills columns in.
pub record MachineRepository (W : Type 0) : Type 0 where
  pub create : Machine → Exec W Machine
  pub find_by_id_for_user : Text → Text → Exec W Machine
  pub list_for_user : Text → Exec W (List Machine)
  pub update : Machine → List (Text × Text) → Exec W Machine
  pub delete : Machine → Exec W Unit

pub record BaselineRepository (W : Type 0) : Type 0 where
  pub create : Baseline → Exec W Baseline
  pub find_active_for_machine : Text → Exec W Baseline
  pub deactivate_all_for_machine : Text → Exec W Unit
  pub list_for_machine : Text → Exec W (List Baseline)
  pub update_audio_path : Text → Text → Exec W Unit
  pub find_by_id : Text → Exec W Baseline

pub record InspectionRepository (fl : Floats) (W : Type 0) : Type 0 where
  pub create : Inspection fl → Exec W (Inspection fl)
  pub list_for_machine : Text → ℕ → Exec W (List (Inspection fl))
  pub find_by_id_for_machine : Text → Text → Exec W (Inspection fl)

-- internal/advisory/provider.go; the deadline of the call is part of what `complete` does
pub record LlmProvider (W : Type 0) : Type 0 where
  pub complete : Text → Exec W Text

-- internal/usecase/baseline.go: the AI service and the object store
pub record AiService (fl : Floats) (Stats Notes W : Type 0) : Type 0 where
  -- audio, file name, machine label
  pub calibrate : List ℕ → Text → Text → Exec W (AiBaseline Stats Notes)
  -- audio, file name, the JSON of the baseline
  pub inspect : List ℕ → Text → List ℕ → Exec W (AiHealthCard fl)

pub record ObjectStore (W : Type 0) : Type 0 where
  -- path, content, content type
  pub put : Text → List ℕ → Text → Exec W Unit

-- internal/usecase/user.go
pub record UserRepository (W : Type 0) : Type 0 where
  pub create : User → Exec W User
  pub find_by_id : Text → Exec W User
  pub find_by_email : Text → Exec W User
  pub update : User → List (Text × Text) → Exec W User

pub record SessionRepository (W : Type 0) : Type 0 where
  pub create : Text → Time → Exec W Text
  pub find_user_id : Text → Exec W Text
  pub delete : Text → Exec W Unit
  pub delete_all_for_user : Text → Exec W Unit
