-- ===== src/Repository/Inspections/Rows.antt =====
-- Whose machine and inspection an answered message of the advisory is about.
use audiax_backend.Common.{List}
use audiax_backend.Common.Text.{Text}
use audiax_backend.Exec.{◌>>=◌}
use audiax_backend.Floats.{Floats}
use audiax_backend.Entity.{Machine, Inspection}
use audiax_backend.Usecase.Advisory.{AdvisoryUseCase}
use audiax_backend.Repository.Gorm.{Table}
use audiax_backend.Repository.Gorm.Laws.{TableLaws}
use audiax_backend.Repository.Schemas.{machine_schema, inspection_schema}
use audiax_backend.Repository.Machines.{machine_repository}
use audiax_backend.Repository.Inspections.{inspection_repository}

module _ {fl : Floats} {W : Type 0} {machine_rows : W → List Machine}
    {inspection_rows : W → List (Inspection fl)} {machines_db : Table Machine W}
    {inspections_db : Table (Inspection fl) W}
    (machine_laws : TableLaws machine_schema machine_rows machines_db)
    (inspection_laws : TableLaws inspection_schema inspection_rows inspections_db)
    (uc : AdvisoryUseCase fl W) where
  abbrev pub over_tables : AdvisoryUseCase fl W
  over_tables = record uc {
    machines = machine_repository machines_db;
    inspections = inspection_repository inspections_db;
  }
