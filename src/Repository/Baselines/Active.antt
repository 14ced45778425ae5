-- ===== src/Repository/Baselines/Active.antt =====
-- How many baselines of a machine are active, and what the statements of a calibration do to the
-- number.
use audiax_backend.Common.{
  ℕ, ◌+◌, ◌≤◌, ◌≡◌, refl, ap, inl, inr, Bool, true, false, ◌&&◌, some, arith, List, [], ◌∷◌, map,
  Bool-cases, if◌then◌else◌,
}
use audiax_backend.Common.Text.{Text, text, ◌==◌}
use audiax_backend.Entity.{Baseline}
use audiax_backend.Repository.Gorm.{Query, equal, text_value, bool_value, everything, filtered}
use audiax_backend.Repository.Gorm.Laws.{selects, written}
use audiax_backend.Repository.Schemas.{baseline_schema, baseline_text, baseline_flag, baseline_set}
use audiax_backend.Repository.Baselines.{active_for_machine}

abbrev pub active_of : Text → Baseline → Bool
active_of machine_id row = row.machine_id == machine_id && row.is_active

abbrev pub active_count : Text → List Baseline → ℕ
active_count machine_id [] = 0
active_count machine_id (row ∷ rows) =
    (if active_of machine_id row then 1 else 0) + active_count machine_id rows

-- No machine has two active baselines.
abbrev pub IsSingle : List Baseline → Type 0
IsSingle rows = (machine_id : Text) → active_count machine_id rows ≤ 1

abbrev pub deactivated : Text → Baseline → Baseline
deactivated machine_id =
    written baseline_schema (active_for_machine machine_id) (text "is_active") (bool_value false)

abbrev pub by_id : Text → Query
by_id id = filtered (equal (text "id") id ∷ []) everything

abbrev pub pathed : Text → Text → Baseline → Baseline
pathed id path =
    written baseline_schema (by_id id) (text "calibration_audio_path") (text_value path)

abbrev pub with_flag : Bool → Baseline → Baseline
with_flag b row = record row { is_active = b }

-- The query of the active baselines of a machine, read at a row.
pub selects_active :
    (machine_id : Text) (row : Baseline)
    → selects baseline_schema (active_for_machine machine_id) row
      ≡ (row.machine_id == machine_id && (row.is_active && true))
unfolding baseline_text baseline_flag ◌==◌
selects_active machine_id row = refl

pub and_flag : (a b : Bool) → (a && (b && true)) ≡ (a && b)
and_flag a b = ground arith

pub deactivated_lem :
    (machine_id : Text) (row : Baseline)
    → deactivated machine_id row ≡ (if active_of machine_id row then with_flag false row else row)
unfolding baseline_set baseline_text baseline_flag ◌==◌
deactivated_lem machine_id row =
    ap (λ b. if b then with_flag false row else row)
      (and_flag (row.machine_id == machine_id) row.is_active)

pub silenced :
    (machine_id : Text) (row : Baseline) → active_of machine_id (deactivated machine_id row) ≡ false
silenced machine_id row =
    rw (deactivated_lem machine_id row) (elim (Bool-cases (active_of machine_id row)) [
      | inl active ↦ rw active (ground arith)
      | inr idle ↦ rw (idle, idle) refl
    ])

kept_active :
    (b : Bool) (other : Text) (row : Baseline)
    → active_of other (if b then with_flag false row else row) ≡ true
    → active_of other row ≡ true
kept_active true other row h = ground arith
kept_active false other row h = h

pub fewer :
    (machine_id other : Text) (row : Baseline)
    → active_of other (deactivated machine_id row) ≡ true
    → active_of other row ≡ true
fewer machine_id other row h =
    kept_active (active_of machine_id row) other row (rw (deactivated_lem machine_id row) at h)

path_or_row :
    (b : Bool) (path other : Text) (row : Baseline)
    → active_of other (if b then record row { calibration_audio_path = some path } else row) ≡ true
    → active_of other row ≡ true
path_or_row true path other row h = h
path_or_row false path other row h = h

pub pathed_active :
    (id path other : Text) (row : Baseline)
    → active_of other (pathed id path row) ≡ true
    → active_of other row ≡ true
unfolding baseline_set baseline_text ◌==◌
pathed_active id path other row h = path_or_row (row.id == id && true) path other row h

pub active_count_silenced :
    (machine_id : Text) (rows : List Baseline)
    → active_count machine_id (map (deactivated machine_id) rows) ≡ 0
active_count_silenced machine_id [] = refl
active_count_silenced machine_id (row ∷ rows) =
    rw (silenced machine_id row, active_count_silenced machine_id rows) refl

pub active_count-map-le :
    (f : Baseline → Baseline) (machine_id : Text) (rows : List Baseline)
    → ((row : Baseline) → active_of machine_id (f row) ≡ true → active_of machine_id row ≡ true)
    → active_count machine_id (map f rows) ≤ active_count machine_id rows
active_count-map-le f machine_id [] h = omega arith
active_count-map-le f machine_id (row ∷ rows) h =
    let rest = active_count-map-le f machine_id rows h in
    elim (Bool-cases (active_of machine_id (f row))) [
      | inl active ↦ rw (active, h row active) (omega arith)
      | inr idle ↦ rw idle (omega arith)
    ]
