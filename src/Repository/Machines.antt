-- ===== src/Repository/Machines.antt =====
-- internal/repository/machine.go
pub mod Rows
pub mod Fits
use audiax_backend.Common.{List, [], ◌∷◌}
use audiax_backend.Common.Text.{Text, text}
use audiax_backend.Exec.{Exec}
use audiax_backend.Entity.{Machine}
use audiax_backend.Usecase.Ports.{MachineRepository}
use audiax_backend.Repository.Gorm.{Query, Table, equal, everything, filtered, newest_first}
use audiax_backend.Repository.Base

abbrev pub by_id_for_user : Text → Text → Query
by_id_for_user id user_id =
    filtered (equal (text "id") id ∷ equal (text "user_id") user_id ∷ []) everything

abbrev pub of_user : Text → Query
of_user user_id =
    newest_first (text "created_at") (filtered (equal (text "user_id") user_id ∷ []) everything)

module _ {W : Type 0} (db : Table Machine W) where
  unfoldable pub find_by_id_for_user : Text → Text → Exec W Machine
  find_by_id_for_user id user_id = db.take (by_id_for_user id user_id)

  unfoldable pub list_for_user : Text → Exec W (List Machine)
  list_for_user user_id = db.find (of_user user_id)

  -- what the use cases see of it
  abbrev pub machine_repository : MachineRepository W
  machine_repository = record {
    create = Base.create db;
    find_by_id_for_user = find_by_id_for_user;
    list_for_user = list_for_user;
    update = Base.update db;
    delete = Base.delete db;
  }
