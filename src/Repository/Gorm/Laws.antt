-- ===== src/Repository/Gorm/Laws.antt =====
-- What the repositories rely on of gorm and PostgreSQL: a table holds rows, a condition selects
-- some of them, a row that is softly deleted is never selected, a statement that fails changes
-- nothing.
use audiax_backend.Common.{◌≡◌, Bool, true, false, ◌&&◌, List, [], ◌∷◌, map, In, if◌then◌else◌}
use audiax_backend.Common.Text.{Text, ◌==◌}
use audiax_backend.Errors.{Error, record_not_found, is}
use audiax_backend.Exec.{ok, err}
use audiax_backend.Repository.Gorm.{Condition, equal, flag, Value, Query, Table}

-- The struct tags of an entity: its text and Boolean columns by name, what writing a column does
-- to the struct, and whether gorm sees the row (the column deleted_at is null, or there is none).
pub record Schema (A : Type 0) : Type 0 where
  pub id : A → Text
  pub text_column : Text → A → Text
  pub flag_column : Text → A → Bool
  pub set_column : Text → Value → A → A
  pub is_live : A → Bool

module _ {A : Type 0} (s : Schema A) where
  abbrev pub meets : List Condition → A → Bool
  meets [] row = true
  meets (equal column value ∷ rest) row = s.text_column column row == value && meets rest row
  meets (flag column ∷ rest) row = s.flag_column column row && meets rest row

  abbrev pub selects : Query → A → Bool
  selects q row = s.is_live row && meets q.conditions row

  -- One row after an UPDATE.
  abbrev pub written : Query → Text → Value → A → A
  written q column value row = if selects q row then s.set_column column value row else row

  -- Rows with the same columns, up to the times that gorm fills in.
  pub record IsStored (given row : A) : Type 0 where
    pub same_text : (column : Text) → s.text_column column row ≡ s.text_column column given
    pub same_flag : (column : Text) → s.flag_column column row ≡ s.flag_column column given
    pub same_id : s.id row ≡ s.id given
    pub same_life : s.is_live row ≡ s.is_live given

pub record TableLaws {A W : Type 0} (s : Schema A) (rows : W → List A) (t : Table A W)
    : Type 0 where
  -- Take gives one of the selected rows, and says "not found" only if there is none.
  pub take_row :
      (q : Query) (w w' : W) (row : A)
      → t.take q w ≡ (ok row, w')
      → In row (rows w) × (selects s q row ≡ true)
  pub take_none :
      (q : Query) (w w' : W) (e : Error)
      → t.take q w ≡ (err e, w')
      → is e record_not_found ≡ true
      → (row : A) → In row (rows w)
      → selects s q row ≡ false
  -- Find gives selected rows only.
  pub find_rows :
      (q : Query) (w w' : W) (found : List A)
      → t.find q w ≡ (ok found, w')
      → (row : A) → In row found
      → In row (rows w) × (selects s q row ≡ true)
  pub take_reads : (q : Query) (w : W) → rows (t.take q w).1 ≡ rows w
  pub find_reads : (q : Query) (w : W) → rows (t.find q w).1 ≡ rows w
  pub create_row :
      (given : A) (w w' : W) (row : A)
      → t.create given w ≡ (ok row, w')
      → IsStored s given row × (rows w' ≡ row ∷ rows w)
  pub create_fails :
      (given : A) (w w' : W) (e : Error) → t.create given w ≡ (err e, w') → rows w' ≡ rows w
  pub update_rows :
      (q : Query) (column : Text) (value : Value) (w w' : W)
      → t.update q column value w ≡ (ok tt, w')
      → rows w' ≡ map (written s q column value) (rows w)
  pub update_fails :
      (q : Query) (column : Text) (value : Value) (w w' : W) (e : Error)
      → t.update q column value w ≡ (err e, w')
      → rows w' ≡ rows w
  -- Delete, by the primary key: no row of that id is seen any more.
  pub delete_row :
      (given : A) (w w' : W)
      → t.delete given w ≡ (ok tt, w')
      → (row : A) → In row (rows w')
      → s.id row ≡ s.id given
      → s.is_live row ≡ false
