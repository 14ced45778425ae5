-- ===== src/Repository/Inspections.antt =====
-- internal/repository/inspection.go
pub mod Rows
use audiax_backend.Common.{ℕ, List, [], ◌∷◌}
use audiax_backend.Common.Text.{Text, text}
use audiax_backend.Exec.{Exec}
use audiax_backend.Floats.{Floats}
use audiax_backend.Entity.{Inspection}
use audiax_backend.Usecase.Ports.{InspectionRepository}
use audiax_backend.Repository.Gorm.{
  Query, Table, equal, everything, filtered, newest_first, limited,
}
use audiax_backend.Repository.Base

abbrev pub by_id_for_machine : Text → Text → Query
by_id_for_machine id machine_id =
    filtered (equal (text "id") id ∷ equal (text "machine_id") machine_id ∷ []) everything

module _ {fl : Floats} {W : Type 0} (db : Table (Inspection fl) W) where
  unfoldable pub list_for_machine : Text → ℕ → Exec W (List (Inspection fl))
  list_for_machine machine_id limit = db.find (
      limited limit (
        newest_first (text "inspected_at")
          (filtered (equal (text "machine_id") machine_id ∷ []) everything)))

  unfoldable pub find_by_id_for_machine : Text → Text → Exec W (Inspection fl)
  find_by_id_for_machine id machine_id = db.take (by_id_for_machine id machine_id)

  -- what the use cases see of it
  abbrev pub inspection_repository : InspectionRepository fl W
  inspection_repository = record {
    create = Base.create db;
    list_for_machine = list_for_machine;
    find_by_id_for_machine = find_by_id_for_machine;
  }
