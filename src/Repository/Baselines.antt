-- ===== src/Repository/Baselines.antt =====
-- internal/repository/baseline.go
pub mod Active
pub mod Frame
pub mod Replaced
pub mod Stored
pub mod Invariant
pub mod Current
pub mod Next
use audiax_backend.Common.{false, List, [], ◌∷◌}
use audiax_backend.Common.Text.{Text, text}
use audiax_backend.Exec.{Exec}
use audiax_backend.Entity.{Baseline}
use audiax_backend.Usecase.Ports.{BaselineRepository}
use audiax_backend.Repository.Gorm.{
  Query, Table, equal, flag, text_value, bool_value, everything, filtered, newest_first, selecting,
}
use audiax_backend.Repository.Base

abbrev pub active_for_machine : Text → Query
active_for_machine machine_id =
    filtered (equal (text "machine_id") machine_id ∷ flag (text "is_active") ∷ []) everything

-- every column but the embeddings, the statistics and the notes
abbrev pub listed_columns : List Text
listed_columns =
    text "id"
    ∷ text "machine_id"
    ∷ text "schema_version"
    ∷ text "model_fingerprint"
    ∷ text "n_windows"
    ∷ text "embedding_dim"
    ∷ text "embedding_dtype"
    ∷ text "calibration_quality"
    ∷ text "calibration_audio_path"
    ∷ text "is_active"
    ∷ text "calibrated_at"
    ∷ text "created_at"
    ∷ []

module _ {W : Type 0} (db : Table Baseline W) where
  unfoldable pub find_active_for_machine : Text → Exec W Baseline
  find_active_for_machine machine_id = db.take (active_for_machine machine_id)

  unfoldable pub deactivate_all_for_machine : Text → Exec W Unit
  deactivate_all_for_machine machine_id =
      db.update (active_for_machine machine_id) (text "is_active") (bool_value false)

  unfoldable pub update_audio_path : Text → Text → Exec W Unit
  update_audio_path baseline_id path =
      db.update (filtered (equal (text "id") baseline_id ∷ []) everything)
        (text "calibration_audio_path") (text_value path)

  unfoldable pub list_for_machine : Text → Exec W (List Baseline)
  list_for_machine machine_id = db.find (
      newest_first (text "calibrated_at") (
        filtered (equal (text "machine_id") machine_id ∷ []) (selecting listed_columns everything)))

  -- what the use cases see of it
  abbrev pub baseline_repository : BaselineRepository W
  baseline_repository = record {
    create = Base.create db;
    find_active_for_machine = find_active_for_machine;
    deactivate_all_for_machine = deactivate_all_for_machine;
    list_for_machine = list_for_machine;
    update_audio_path = update_audio_path;
    find_by_id = Base.find_by_id db;
  }
