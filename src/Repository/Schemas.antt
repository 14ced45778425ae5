-- ===== src/Repository/Schemas.antt =====
-- internal/entity: the columns that the struct tags name, as far as a condition or a write of the
-- repositories names them; a column that is null or not text reads as the empty text.
use audiax_backend.Common.{Bool, true, false, Option, none, some, [], if◌then◌else◌}
use audiax_backend.Common.Text.{Text, text, ◌==◌}
use audiax_backend.Entity.{Time, Machine, Baseline, Inspection}
use audiax_backend.Floats.{Floats}
use audiax_backend.Repository.Gorm.{Value, text_value, bool_value}
use audiax_backend.Repository.Gorm.Laws.{Schema}

-- a null text column
abbrev pub or_empty : Option Text → Text
or_empty none = []
or_empty (some value) = value

unfoldable pub machine_text : Text → Machine → Text
machine_text column row =
    if column == text "id"
    then row.id
    else if column == text "user_id"
    then row.user_id
    else if column == text "label"
    then row.label
    else if column == text "location"
    then or_empty row.location
    else if column == text "description"
    then or_empty row.description
    else []

-- gorm.DeletedAt: the row is seen while the column is null
abbrev pub not_deleted : Option Time → Bool
not_deleted none = true
not_deleted (some t) = false

unfoldable pub machine_set : Text → Value → Machine → Machine
machine_set column (text_value value) row =
    if column == text "label"
    then record row { label = value }
    else if column == text "location"
    then record row { location = some value }
    else if column == text "description"
    then record row { description = some value }
    else row
machine_set column (bool_value value) row = row

abbrev pub machine_schema : Schema Machine
machine_schema = record {
  id = λ row. row.id;
  text_column = machine_text;
  flag_column = λ column row. false;
  set_column = machine_set;
  is_live = λ row. not_deleted row.deleted_at;
}

unfoldable pub baseline_text : Text → Baseline → Text
baseline_text column row =
    if column == text "id"
    then row.id
    else if column == text "machine_id"
    then row.machine_id
    else []

unfoldable pub baseline_flag : Text → Baseline → Bool
baseline_flag column row = if column == text "is_active" then row.is_active else false

unfoldable pub baseline_set : Text → Value → Baseline → Baseline
baseline_set column (text_value value) row =
    if column == text "calibration_audio_path"
    then record row { calibration_audio_path = some value }
    else row
baseline_set column (bool_value value) row =
    if column == text "is_active" then record row { is_active = value } else row

abbrev pub baseline_schema : Schema Baseline
baseline_schema = record {
  id = λ row. row.id;
  text_column = baseline_text;
  flag_column = baseline_flag;
  set_column = baseline_set;
  is_live = λ row. true;
}

unfoldable pub inspection_text : {fl : Floats} → Text → Inspection fl → Text
inspection_text column row =
    if column == text "id"
    then row.id
    else if column == text "machine_id"
    then row.machine_id
    else []

-- No column of an inspection is written after its insert.
abbrev pub inspection_schema : {fl : Floats} → Schema (Inspection fl)
inspection_schema = record {
  id = λ row. row.id;
  text_column = inspection_text;
  flag_column = λ column row. false;
  set_column = λ column value row. row;
  is_live = λ row. true;
}
