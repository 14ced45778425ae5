-- ===== src/Repository/Baselines/Next.antt =====
-- The baseline that the next inspection uses after a calibration.
use audiax_backend.Common.{◌≡◌, sym, ap, subst, ◌∙◌, true, false, List, ◌∷◌, map}
use audiax_backend.Common.Text.{text}
use audiax_backend.Constants.{audio_content_type}
use audiax_backend.Errors.{Error, record_not_found, is}
use audiax_backend.Exec.{pure_ok, Result, ok, err, pure, continue_ok, reject_if, ◌>>=◌}
use audiax_backend.Floats.{Floats}
use audiax_backend.Entity.{Baseline}
use audiax_backend.Model.{AudioRequest, BaselineResponse, baseline_to_response}
use audiax_backend.Usecase.Codec.{Codec}
use audiax_backend.Usecase.Validation.{validate_struct}
use audiax_backend.Usecase.Baseline.{
  BaselineUseCase, baseline_entity, find_owned_machine_for_baseline, audio_path, recorded,
  record_audio_path, store_calibration_audio, replace_baseline, calibrated, calibrate,
}
use audiax_backend.Repository.Gorm.{Table}
use audiax_backend.Repository.Gorm.Laws.{TableLaws}
use audiax_backend.Repository.Schemas.{baseline_schema}
use audiax_backend.Repository.Baselines.{update_audio_path, find_active_for_machine}
use audiax_backend.Repository.Baselines.Active.{deactivated}
use audiax_backend.Repository.Baselines.Frame.{Frame, over_table}
use audiax_backend.Repository.Baselines.Stored.{store_keeps}
use audiax_backend.Repository.Baselines.Replaced.{machine_column, replaced, entity_row}
use audiax_backend.Repository.Baselines.Current.{
  IsCurrent, IsCurrent-subst, created-IsCurrent, pathed-IsCurrent, machine_active, active_column,
  found_current,
}

module _ {fl : Floats} {c : Codec} {W : Type 0} {rows : W → List Baseline} {db : Table Baseline W}
    (laws : TableLaws baseline_schema rows db) (uc : BaselineUseCase fl c W)
    (frame : Frame rows uc) where
  abbrev over : BaselineUseCase fl c W
  over = over_table db uc

  calibrated-IsCurrent :
      (request : AudioRequest) (w w' : W) (b : Baseline)
      → calibrated over request w ≡ (ok b, w')
      → IsCurrent b.machine_id b.id (rows w')
  unfolding calibrated
  calibrated-IsCurrent request w w' b h =
      let (_, w₁, _, h₁) =
        continue_ok (reject_if (validate_struct (uc.validate request)))
          (λ _. do
            machine ← find_owned_machine_for_baseline over request.machine_id request.user_id
            ai_baseline ← uc.ai.calibrate request.audio request.filename machine.label
            baseline ← baseline_entity over machine.id ai_baseline
            uc.transaction (replace_baseline over machine.id baseline))
          w w' h in
      let (machine, w₂, _, h₂) =
        continue_ok (find_owned_machine_for_baseline over request.machine_id request.user_id)
          (λ machine. do
            ai_baseline ← uc.ai.calibrate request.audio request.filename machine.label
            baseline ← baseline_entity over machine.id ai_baseline
            uc.transaction (replace_baseline over machine.id baseline))
          w₁ w' h₁ in
      let (ai, w₃, _, h₃) =
        continue_ok (uc.ai.calibrate request.audio request.filename machine.label)
          (λ ai_baseline. do
            baseline ← baseline_entity over machine.id ai_baseline
            uc.transaction (replace_baseline over machine.id baseline))
          w₂ w' h₂ in
      let (given, w₄, made, h₄) =
        continue_ok (baseline_entity over machine.id ai)
          (λ baseline. uc.transaction (replace_baseline over machine.id baseline)) w₃ w' h₃ in
      let (named, flagged) = entity_row laws uc frame machine.id ai w₃ w₄ given made in
      let (stored, changed) = replaced laws uc frame machine.id given b w₄ w' h₄ in
      let same : b.machine_id ≡ machine.id =
        sym (machine_column b)
        ∙ stored.same_text (text "machine_id")
        ∙ machine_column given
        ∙ named in
      let active : b.is_active ≡ true =
        sym (active_column b)
        ∙ stored.same_flag (text "is_active")
        ∙ active_column given
        ∙ flagged in
      subst (IsCurrent b.machine_id b.id)
        (sym (changed ∙ ap (λ m. b ∷ map (deactivated m) (rows w₄)) (sym same)))
        (created-IsCurrent b.machine_id b (rows w₄) (machine_active b active))

  recorded_same :
      (b s : Baseline) (stored : Result {0} Unit) (w w' : W)
      → record_audio_path over b stored w ≡ (ok s, w')
      → (s.id ≡ b.id) × (s.machine_id ≡ b.machine_id)
  recorded_same b s (ok _) w w' h =
      let done = update_audio_path db b.id (audio_path over b) w in
      by_result done.0 (pure_ok (recorded over b done.0) s done.1 w' h)
    where
      by_result :
          (r : Result {0} Unit)
          → recorded over b r ≡ s
          → (s.id ≡ b.id) × (s.machine_id ≡ b.machine_id)
      by_result (ok _) e = (sym (ap (λ x. x.id) e), sym (ap (λ x. x.machine_id) e))
      by_result (err _) e = (sym (ap (λ x. x.id) e), sym (ap (λ x. x.machine_id) e))
  recorded_same b s (err e) w w' h =
      let same = pure_ok b s w w' h in
      (sym (ap (λ x. x.id) same), sym (ap (λ x. x.machine_id) same))

  calibrate-IsCurrent :
      (request : AudioRequest) (w w' : W) (response : BaselineResponse)
      → calibrate over request w ≡ (ok response, w')
      → IsCurrent response.machine_id response.id (rows w')
  unfolding calibrate store_calibration_audio
  calibrate-IsCurrent request w w' response h =
      let (b, w₁, done, h₁) =
        continue_ok (calibrated over request)
          (λ b. do s ← store_calibration_audio over b request.audio; pure (baseline_to_response s))
          w w' h in
      let (s, w₂, stored, h₂) =
        continue_ok (store_calibration_audio over b request.audio)
          (λ s. pure (baseline_to_response s)) w₁ w' h₁ in
      let current =
        store_keeps laws uc frame (IsCurrent b.machine_id b.id) (pathed-IsCurrent b.machine_id b.id)
          b request.audio w₁ (calibrated-IsCurrent request w w₁ b done) in
      let (named, owned) = recorded_same b s (put_of b w₁).0 (put_of b w₁).1 w₂ stored in
      let answered = pure_ok (baseline_to_response s) response w₂ w' h₂ in
      let table : rows (store_calibration_audio over b request.audio w₁).1 ≡ rows w' =
        ap (λ p. rows p.1) stored ∙ ap (λ p. rows p.1) h₂ in
      subst (λ l. IsCurrent response.machine_id response.id l) table
        (IsCurrent-subst (sym owned ∙ ap (λ r. r.machine_id) answered)
          (sym named ∙ ap (λ r. r.id) answered) current)
    where
      put_of : Baseline → W → Result {0} Unit × W
      put_of b = uc.store.put (audio_path over b) request.audio audio_content_type

  -- A calibration was answered. Then the lookup of the active baseline that an inspection of this
  -- machine starts with gives the baseline of the answer, by its id, and it does not say that there is
  -- none; so the machine is not taken for uncalibrated. It may still fail for another reason.
  pub calibrated_baseline_found :
      (request : AudioRequest) (w w' : W) (response : BaselineResponse)
      → calibrate over request w ≡ (ok response, w')
      → ((b : Baseline) (w'' : W)
          → find_active_for_machine db response.machine_id w' ≡ (ok b, w'')
          → b.id ≡ response.id)
        × ((e : Error) (w'' : W)
            → find_active_for_machine db response.machine_id w' ≡ (err e, w'')
            → is e record_not_found ≡ false)
  calibrated_baseline_found request w w' response h =
      found_current laws response.machine_id response.id w'
        (calibrate-IsCurrent request w w' response h)
