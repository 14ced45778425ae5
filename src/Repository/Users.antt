-- ===== src/Repository/Users.antt =====
-- internal/repository/user.go
use audiax_backend.Common.{[], ◌∷◌}
use audiax_backend.Common.Text.{Text, text}
use audiax_backend.Exec.{Exec}
use audiax_backend.Entity.{User}
use audiax_backend.Usecase.Ports.{UserRepository}
use audiax_backend.Repository.Gorm.{Table, equal, everything, filtered}
use audiax_backend.Repository.Base

module _ {W : Type 0} (db : Table User W) where
  unfoldable pub find_by_email : Text → Exec W User
  find_by_email email = db.take (filtered (equal (text "email") email ∷ []) everything)

  -- what the use cases see of it
  abbrev pub user_repository : UserRepository W
  user_repository = record {
    create = Base.create db;
    find_by_id = Base.find_by_id db;
    find_by_email = find_by_email;
    update = Base.update db;
  }
