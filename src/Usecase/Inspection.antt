-- ===== src/Usecase/Inspection.antt =====
-- internal/usecase/inspection.go
pub mod Payload
pub mod Evidence
use audiax_backend.Common.{
  ℕ, Bool, true, false, ◌||◌, Option, none, some, List, [], ◌∷◌, ◌++◌, if◌then◌else◌,
}
use audiax_backend.Common.Text.{Text, text, ◌==◌, is_empty}
use audiax_backend.Constants.{
  status_warning, status_critical, inspection_audio_prefix, audio_content_type, triage_disclaimer,
  inspection_history_limit,
}
use audiax_backend.Errors.{Error, rejected, record_not_found, wrap, is}
use audiax_backend.Exec.{
  Result, ok, err, map_error, bind, Exec, pure, on_error, attempt, total, lift, reject_if, ◌>>=◌,
  ◌>>◌,
}
use audiax_backend.Floats.{Floats}
use audiax_backend.Entity.{Time, Machine, Baseline, Inspection}
use audiax_backend.Model.{
  AudioRequest, AiBaseline, AiHealthCard, InspectionResponse, inspection_to_response,
  inspections_to_responses,
}
use audiax_backend.Usecase.Codec.{Codec}
use audiax_backend.Usecase.Ports.{
  MachineRepository, BaselineRepository, InspectionRepository, AiService, ObjectStore, not_found_or,
}
use audiax_backend.Usecase.Validation.{Outcome, validate_struct}

-- the fields of InspectionUseCase, the clock and uuid.NewString
pub record InspectionUseCase (fl : Floats) (c : Codec) (W : Type 0) : Type 0 where
  pub validate : AudioRequest → Outcome
  pub machines : MachineRepository W
  pub baselines : BaselineRepository W
  pub inspections : InspectionRepository fl W
  pub ai : AiService fl c.Stats c.Notes W
  pub store : ObjectStore W
  pub now : W → Time × W
  pub new_id : W → Text × W

abbrev pub uncalibrated_reason : Text
uncalibrated_reason =
    text "Mesin ini belum dikalibrasi. Rekam 2 menit kondisi sehat terlebih dahulu."

-- a machine without a baseline is told what to do
unfoldable pub no_baseline : Error → Error
no_baseline e =
    if is e record_not_found
    then rejected uncalibrated_reason
    else wrap (text "find active baseline: ") e

unfoldable pub is_anomalous : Text → Bool
is_anomalous status = status == status_warning || status == status_critical

abbrev pub disclaimer_of : Text → Text
disclaimer_of disclaimer = if is_empty disclaimer then triage_disclaimer else disclaimer

module _ (c : Codec) where
  -- `if len(baseline.Notes) > 0`
  abbrev pub stored_notes : List ℕ → Result c.Notes
  stored_notes [] = ok c.empty_notes
  stored_notes (b ∷ bytes) =
      map_error (wrap (text "unmarshal notes: ")) (c.unmarshal_notes (b ∷ bytes))

  -- `payload` of `baselinePayload`
  unfoldable pub payload : Text → Baseline → Result (AiBaseline c.Stats c.Notes)
  payload machine_label baseline =
      bind
        (map_error (wrap (text "unmarshal backend_stats: "))
          (c.unmarshal_stats baseline.backend_stats))
        λ stats. bind (stored_notes baseline.notes) λ notes. ok (record {
          schema_version = baseline.schema_version;
          machine_label = machine_label;
          created_at = c.format_time baseline.calibrated_at;
          model_fingerprint = baseline.model_fingerprint;
          n_windows = baseline.n_windows;
          embedding_shape = baseline.n_windows ∷ baseline.embedding_dim ∷ [];
          embedding_dtype = baseline.embedding_dtype;
          embeddings_b64 = c.encode_to_string baseline.embeddings;
          backend_stats = stats;
          calibration_quality = baseline.calibration_quality;
          notes = some notes;
        })

  unfoldable pub baseline_payload : Text → Baseline → Result (List ℕ)
  baseline_payload machine_label baseline =
      bind (payload machine_label baseline)
        λ p. map_error (wrap (text "marshal baseline payload: ")) (c.marshal_baseline p)

module _ {fl : Floats} {c : Codec} {W : Type 0} (uc : InspectionUseCase fl c W) where
  abbrev pub scored : Text → Text → Text → Time → AiHealthCard fl → Inspection fl
  scored id machine_id baseline_id inspected_at card = record {
    id = id;
    machine_id = machine_id;
    baseline_id = baseline_id;
    status = card.status;
    z_score = card.z_score;
    health_score = card.health_score;
    dominant_indicator = card.dominant_indicator;
    reason = card.reason;
    audio_path = none;
    inspected_at = inspected_at;
    created_at = 0;
  }

  abbrev pub audio_path : Inspection fl → Text
  audio_path inspection =
      inspection_audio_prefix
      ++ (inspection.machine_id ++ (text "/" ++ (inspection.id ++ text ".wav")))

  abbrev pub with_audio : Inspection fl → Result {0} Unit → Inspection fl
  with_audio inspection (ok _) = record inspection { audio_path = some (audio_path inspection) }
  with_audio inspection (err e) = inspection

  abbrev pub store_audio : Inspection fl → List ℕ → Exec W (Inspection fl)
  store_audio inspection audio = do
    stored ← attempt (uc.store.put (audio_path inspection) audio audio_content_type)
    pure (with_audio inspection stored)

  -- only the clips of WARNING and CRITICAL are kept
  unfoldable pub keep_evidence : Inspection fl → List ℕ → Exec W (Inspection fl)
  keep_evidence inspection audio =
      if is_anomalous inspection.status then store_audio inspection audio else pure inspection

  -- `Inspect` up to the card: the machine, the baseline and what the AI service says
  unfoldable pub health_card : AudioRequest → Exec W (Machine × (Baseline × AiHealthCard fl))
  health_card request = do
    reject_if (validate_struct (uc.validate request))
    machine ←
        on_error (not_found_or (text "find machine by id: "))
          (uc.machines.find_by_id_for_user request.machine_id request.user_id)
    baseline ← on_error no_baseline (uc.baselines.find_active_for_machine machine.id)
    baseline_json ← lift (baseline_payload c machine.label baseline)
    card ← uc.ai.inspect request.audio request.filename baseline_json
    pure (machine, (baseline, card))

  -- the rest of `Inspect`
  unfoldable pub record_card :
      AudioRequest → Machine → Baseline → AiHealthCard fl → Exec W (InspectionResponse fl)
  record_card request machine baseline card = do
    id ← total uc.new_id
    inspected_at ← total uc.now
    inspection ← keep_evidence (scored id machine.id baseline.id inspected_at card) request.audio
    inspection ← on_error (wrap (text "create inspection: ")) (uc.inspections.create inspection)
    pure (inspection_to_response fl inspection (disclaimer_of card.disclaimer))

  unfoldable pub inspect : AudioRequest → Exec W (InspectionResponse fl)
  inspect request = do found ← health_card request; record_card request found.0 found.1.0 found.1.1

  unfoldable pub list : Text → Text → Exec W (List (InspectionResponse fl))
  list user_id machine_id = do
    machine ←
        on_error (not_found_or (text "find machine by id: "))
          (uc.machines.find_by_id_for_user machine_id user_id)
    inspections ←
        on_error (wrap (text "list inspections: "))
          (uc.inspections.list_for_machine machine_id inspection_history_limit)
    pure (inspections_to_responses fl inspections triage_disclaimer)
