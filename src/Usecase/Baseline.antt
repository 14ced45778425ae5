-- ===== src/Usecase/Baseline.antt =====
-- internal/usecase/baseline.go
pub mod Entity
pub mod Audio
use audiax_backend.Common.{
  ℕ, Bool, true, false, not, Option, none, some, List, [], ◌∷◌, ◌++◌, length, if◌then◌else◌,
}
use audiax_backend.Common.Int.{ℤ, pos, mul, int_eq}
use audiax_backend.Common.Text.{Text, text, ◌==◌}
use audiax_backend.Constants.{embedding_dtype_float16, calibration_audio_prefix, audio_content_type}
use audiax_backend.Errors.{Error, opaque, wrap}
use audiax_backend.Exec.{
  Result, ok, err, map_error, bind, Exec, pure, on_error, attempt, total, lift, reject_if, ◌>>=◌,
  ◌>>◌,
}
use audiax_backend.Floats.{Floats}
use audiax_backend.Entity.{Time, Machine, Baseline}
use audiax_backend.Model.{
  AudioRequest, AiBaseline, BaselineResponse, baseline_to_response, baselines_to_responses,
}
use audiax_backend.Usecase.Codec.{Codec}
use audiax_backend.Usecase.Ports.{
  MachineRepository, BaselineRepository, AiService, ObjectStore, not_found_or,
}
use audiax_backend.Usecase.Validation.{Outcome, validate_struct}

-- the fields of BaselineUseCase; `transaction` is (*gorm.DB).Transaction, at the one use of it, `now`
-- is time.Now().UTC(), `new_id` is uuid.NewString
pub record BaselineUseCase (fl : Floats) (c : Codec) (W : Type 0) : Type 0 where
  pub validate : AudioRequest → Outcome
  pub machines : MachineRepository W
  pub baselines : BaselineRepository W
  pub ai : AiService fl c.Stats c.Notes W
  pub store : ObjectStore W
  pub transaction : Exec W Baseline → Exec W Baseline
  pub now : W → Time × W
  pub new_id : W → Text × W

abbrev pub or_empty_map {ℓ} : {A : Type ℓ} → A → Option A → A
or_empty_map empty none = empty
or_empty_map empty (some m) = m

module _ (c : Codec) where
  -- the columns that are computed before the row is built
  pub record Encoded : Type 0 where
    pub embeddings : List ℕ
    pub stats : List ℕ
    pub notes : List ℕ
    pub dim : ℤ

  -- `expected`: the two products wrap around
  abbrev pub expected_size : AiBaseline c.Stats c.Notes → ℤ → ℤ
  expected_size ai dim = mul (mul ai.n_windows dim) (pos 2)

  abbrev pub encoded_columns : AiBaseline c.Stats c.Notes → ℤ → Result Encoded
  encoded_columns ai dim =
      bind (map_error (wrap (text "decode embeddings: ")) (c.decode_string ai.embeddings_b64))
        λ embeddings.
          if not (int_eq (pos (length embeddings)) (expected_size ai dim))
          then err (
              opaque (
                text "embeddings are "
                ++ (c.show_number (pos (length embeddings))
                    ++ (text " bytes, expected "
                        ++ (c.show_number (expected_size ai dim)
                            ++ (text " for shape " ++ c.show_shape ai.embedding_shape))))))
          else bind
              (map_error (wrap (text "marshal backend_stats: ")) (c.marshal_stats ai.backend_stats))
              λ stats.
                bind
                  (map_error (wrap (text "marshal notes: "))
                    (c.marshal_notes (or_empty_map c.empty_notes ai.notes)))
                  λ notes.
                    ok (record { embeddings = embeddings; stats = stats; notes = notes; dim = dim })

  abbrev pub by_shape : AiBaseline c.Stats c.Notes → List ℤ → Result Encoded
  by_shape ai (n ∷ dim ∷ []) = encoded_columns ai dim
  by_shape ai shape =
      err (opaque (text "embedding_shape must be [N, D], got " ++ c.show_shape shape))

  -- the checks of `baselineEntity`; the verb %q is written out for a text without special characters
  unfoldable pub checked_columns : AiBaseline c.Stats c.Notes → Result Encoded
  checked_columns ai =
      if not (ai.embedding_dtype == embedding_dtype_float16)
      then err (
          opaque (
            text "unsupported embedding dtype \""
            ++ (ai.embedding_dtype ++ text "\" from ai service")))
      else by_shape ai ai.embedding_shape

  abbrev pub row : Text → Text → Time → AiBaseline c.Stats c.Notes → Encoded → Baseline
  row id machine_id calibrated_at ai e = record {
    id = id;
    machine_id = machine_id;
    schema_version = ai.schema_version;
    model_fingerprint = ai.model_fingerprint;
    n_windows = ai.n_windows;
    embedding_dim = e.dim;
    embedding_dtype = ai.embedding_dtype;
    embeddings = e.embeddings;
    backend_stats = e.stats;
    notes = e.notes;
    calibration_quality = ai.calibration_quality;
    calibration_audio_path = none;
    is_active = true;
    calibrated_at = calibrated_at;
    created_at = 0;
  }

module _ {fl : Floats} {c : Codec} {W : Type 0} (uc : BaselineUseCase fl c W) where
  -- a timestamp that does not parse is replaced by the clock
  abbrev pub time_or_now : Result Time → Exec W Time
  time_or_now (ok t) = pure t
  time_or_now (err e) = total uc.now

  unfoldable pub baseline_entity : Text → AiBaseline c.Stats c.Notes → Exec W Baseline
  baseline_entity machine_id ai = do
    e ← lift (checked_columns c ai)
    calibrated_at ← time_or_now (c.parse_time ai.created_at)
    id ← total uc.new_id
    pure (row c id machine_id calibrated_at ai e)

  unfoldable pub find_owned_machine_for_baseline : Text → Text → Exec W Machine
  find_owned_machine_for_baseline machine_id user_id =
      on_error (not_found_or (text "find machine by id: "))
        (uc.machines.find_by_id_for_user machine_id user_id)

  abbrev pub audio_path : Baseline → Text
  audio_path baseline =
      calibration_audio_prefix
      ++ (baseline.machine_id ++ (text "/" ++ (baseline.id ++ text ".wav")))

  abbrev pub recorded : Baseline → Result {0} Unit → Baseline
  recorded baseline (ok _) = record baseline { calibration_audio_path = some (audio_path baseline) }
  recorded baseline (err e) = baseline

  abbrev pub record_audio_path : Baseline → Result {0} Unit → Exec W Baseline
  record_audio_path baseline (err e) = pure baseline
  record_audio_path baseline (ok _) = do
    updated ← attempt (uc.baselines.update_audio_path baseline.id (audio_path baseline))
    pure (recorded baseline updated)

  -- failures are logged, never returned
  unfoldable pub store_calibration_audio : Baseline → List ℕ → Exec W Baseline
  store_calibration_audio baseline audio = do
    stored ← attempt (uc.store.put (audio_path baseline) audio audio_content_type)
    record_audio_path baseline stored

  -- the body of the transaction: the old baselines are deactivated first
  unfoldable pub replace_baseline : Text → Baseline → Exec W Baseline
  replace_baseline machine_id baseline = do
    on_error (wrap (text "deactivate baselines: "))
        (uc.baselines.deactivate_all_for_machine machine_id)
    on_error (wrap (text "create baseline: ")) (uc.baselines.create baseline)

  -- `Calibrate` up to the end of the transaction
  unfoldable pub calibrated : AudioRequest → Exec W Baseline
  calibrated request = do
    reject_if (validate_struct (uc.validate request))
    machine ← find_owned_machine_for_baseline request.machine_id request.user_id
    ai_baseline ← uc.ai.calibrate request.audio request.filename machine.label
    baseline ← baseline_entity machine.id ai_baseline
    uc.transaction (replace_baseline machine.id baseline)

  unfoldable pub calibrate : AudioRequest → Exec W BaselineResponse
  calibrate request = do
    baseline ← calibrated request
    baseline ← store_calibration_audio baseline request.audio
    pure (baseline_to_response baseline)

  unfoldable pub list : Text → Text → Exec W (List BaselineResponse)
  list user_id machine_id = do
    find_owned_machine_for_baseline machine_id user_id
    baselines ← on_error (wrap (text "list baselines: ")) (uc.baselines.list_for_machine machine_id)
    pure (baselines_to_responses baselines)
