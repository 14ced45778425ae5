-- ===== src/Repository/Baselines/Invariant.antt =====
-- At most one baseline of a machine is active, in every state that the requests reach.
use audiax_backend.Common.{◌≡◌, sym, subst, arith, List}
use audiax_backend.Common.Text.{Text, text}
use audiax_backend.Errors.{wrap}
use audiax_backend.Exec.{pure, on_error, reject_if}
use audiax_backend.Floats.{Floats}
use audiax_backend.Entity.{Baseline}
use audiax_backend.Model.{AudioRequest, baseline_to_response, baselines_to_responses}
use audiax_backend.Usecase.Codec.{Codec}
use audiax_backend.Usecase.Validation.{validate_struct}
use audiax_backend.Usecase.Baseline.{
  BaselineUseCase, baseline_entity, find_owned_machine_for_baseline, store_calibration_audio,
  calibrated, calibrate, list,
}
use audiax_backend.Repository.Gorm.{Table}
use audiax_backend.Repository.Gorm.Laws.{TableLaws}
use audiax_backend.Repository.Schemas.{baseline_schema}
use audiax_backend.Repository.Baselines.{list_for_machine}
use audiax_backend.Repository.Baselines.Active.{
  IsSingle, pathed, active_count-map-le, pathed_active,
}
use audiax_backend.Repository.Baselines.Frame.{
  Frame, then_holds, after_reading, reject_if-Keeps, over_table,
}
use audiax_backend.Repository.Baselines.Stored.{store_keeps}
use audiax_backend.Repository.Baselines.Replaced.{
  transaction-IsSingle, entity_row, baseline_entity-Keeps,
}

-- One request of the baselines, answered or failed, or anything that does not write the table.
pub data Step {fl : Floats} {c : Codec} {W : Type 0} (rows : W → List Baseline)
    (uc : BaselineUseCase fl c W) : W → W → Type 0 where
  calibrating : (request : AudioRequest) (w : W) → Step rows uc w (calibrate uc request w).1
  listing : (user_id machine_id : Text) (w : W) → Step rows uc w (list uc user_id machine_id w).1
  elsewhere : {w w' : W} → rows w' ≡ rows w → Step rows uc w w'

pub data Reach {fl : Floats} {c : Codec} {W : Type 0} (rows : W → List Baseline)
    (uc : BaselineUseCase fl c W) (start : W) : W → Type 0 where
  here : Reach rows uc start start
  next : {v w : W} → Reach rows uc start v → Step rows uc v w → Reach rows uc start w

module _ {fl : Floats} {c : Codec} {W : Type 0} {rows : W → List Baseline} {db : Table Baseline W}
    (laws : TableLaws baseline_schema rows db) (uc : BaselineUseCase fl c W)
    (frame : Frame rows uc) where
  abbrev over : BaselineUseCase fl c W
  over = over_table db uc

  -- `Calibrate` up to the end of the transaction, error paths included.
  calibrated-IsSingle :
      (request : AudioRequest) (w : W)
      → IsSingle (rows w)
      → IsSingle (rows (calibrated over request w).1)
  unfolding calibrated find_owned_machine_for_baseline
  calibrated-IsSingle request w single =
      after_reading rows IsSingle (reject_if (validate_struct (uc.validate request))) _ w
        (reject_if-Keeps rows (validate_struct (uc.validate request))) single
        λ _ w₁ _ single₁.
          after_reading rows IsSingle
            (find_owned_machine_for_baseline over request.machine_id request.user_id) _ w₁
            (frame.machines_keep request.machine_id request.user_id) single₁
            λ machine w₂ _ single₂.
              after_reading rows IsSingle
                (uc.ai.calibrate request.audio request.filename machine.label) _ w₂
                (frame.ai_keeps request.audio request.filename machine.label) single₂
                λ ai w₃ _ single₃.
                  after_reading rows IsSingle (baseline_entity over machine.id ai) _ w₃
                    (baseline_entity-Keeps laws uc frame machine.id ai) single₃
                    λ b w₄ made single₄.
                      transaction-IsSingle laws uc frame machine.id b w₄
                        (entity_row laws uc frame machine.id ai w₃ w₄ b made).0 single₄

  calibrate-IsSingle :
      (request : AudioRequest) (w : W)
      → IsSingle (rows w)
      → IsSingle (rows (calibrate over request w).1)
  unfolding calibrate
  calibrate-IsSingle request w single =
      then_holds rows IsSingle (calibrated over request) _ w (calibrated-IsSingle request w single)
        λ b w₁ _ single₁.
          then_holds rows IsSingle (store_calibration_audio over b request.audio)
            (λ answered. pure (baseline_to_response answered)) w₁
            (store_keeps laws uc frame IsSingle
              (λ id path l single₂ other. omega (
                arith,
                single₂ other,
                active_count-map-le (pathed id path) other l (pathed_active id path other),
              ))
              b request.audio w₁ single₁)
            λ answered w₂ _ single₂. single₂

  list-IsSingle :
      (user_id machine_id : Text) (w : W)
      → IsSingle (rows w)
      → IsSingle (rows (list over user_id machine_id w).1)
  unfolding list find_owned_machine_for_baseline list_for_machine
  list-IsSingle user_id machine_id w single =
      after_reading rows IsSingle (find_owned_machine_for_baseline over machine_id user_id) _ w
        (frame.machines_keep machine_id user_id) single
        λ machine w₁ _ single₁.
          after_reading rows IsSingle
            (on_error (wrap (text "list baselines: ")) (list_for_machine db machine_id))
            (λ baselines. pure (baselines_to_responses baselines)) w₁ (laws.find_reads _) single₁
            λ answered w₂ _ single₂. single₂

  -- One baseline of each machine at most is active in the empty table, or in any other start, and so
  -- it is after any sequence of calibrations, listings and calls that leave the table alone, in any
  -- order, whether they succeed or end with an error.
  pub reachable-IsSingle :
      (w w' : W) → Reach rows over w w' → IsSingle (rows w) → IsSingle (rows w')
  reachable-IsSingle w w' reached single = preserved reached
    where
      stepped : {u v : W} → Step rows over u v → IsSingle (rows u) → IsSingle (rows v)
      stepped (calibrating request u) = calibrate-IsSingle request u
      stepped (listing user_id machine_id u) = list-IsSingle user_id machine_id u
      stepped (elsewhere same) = subst IsSingle (sym same)

      preserved : {v : W} → Reach rows over w v → IsSingle (rows v)
      preserved here = single
      preserved (next before step) = stepped step (preserved before)
