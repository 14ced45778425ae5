-- ===== src/Repository/Base.antt =====
-- internal/repository/repository.go: the operations of every entity.
use audiax_backend.Common.{List, [], ◌∷◌}
use audiax_backend.Common.Text.{Text, text}
use audiax_backend.Exec.{Exec}
use audiax_backend.Repository.Gorm.{Table, equal, everything, filtered}

module _ {A W : Type 0} (db : Table A W) where
  unfoldable pub create : A → Exec W A
  create entity = db.create entity

  unfoldable pub find_by_id : Text → Exec W A
  find_by_id id = db.take (filtered (equal (text "id") id ∷ []) everything)

  unfoldable pub update : A → List (Text × Text) → Exec W A
  update entity fields = db.updates entity fields

  unfoldable pub delete : A → Exec W Unit
  delete entity = db.delete entity
