-- ===== src/Usecase/Advisory.antt =====
-- internal/usecase/advisory.go: one turn of the advisory conversation.
pub mod Keywords
pub mod Danger
pub mod Source
pub mod Access
use audiax_backend.Common.{
  Bool, true, false, Option, none, some, List, [], ◌∷◌, ◌++◌, map, any, if◌then◌else◌,
}
use audiax_backend.Common.Text.{Text, text, contains, Unicode, to_lower}
use audiax_backend.Constants.{
  status_critical, danger_keywords, advisory_source_llm, advisory_source_fallback_static,
  triage_disclaimer,
}
use audiax_backend.Errors.{Error, sentinel, not_found, record_not_found, wrap, is}
use audiax_backend.Exec.{
  Result, ok, err, Exec, pure, raise, map_error, on_error, attempt, lift, reject_if, ◌>>=◌, ◌>>◌,
}
use audiax_backend.Floats.{Floats}
use audiax_backend.Entity.{Machine, Baseline, Inspection}
use audiax_backend.Model.{AdvisoryTurn, AdvisoryMessageRequest, AdvisoryMessageResponse}
use audiax_backend.Advisory.{Cell, Reply}
use audiax_backend.Advisory.Rules.{Combo, lookup}
use audiax_backend.Advisory.Table.{decision_table}
use audiax_backend.Advisory.Static.{static_reply}
use audiax_backend.Advisory.Prompt.{Turn, PromptInput, render_prompt}
use audiax_backend.Advisory.Guard.{LlmOutput, guard}
use audiax_backend.Usecase.Ports.{
  MachineRepository, BaselineRepository, InspectionRepository, LlmProvider,
}
use audiax_backend.Usecase.Ports.{not_found_or}
use audiax_backend.Usecase.Validation.{Outcome, validate_struct}

-- the fields of AdvisoryUseCase; `decode` is json.Unmarshal of a completion, in guard.go
pub record AdvisoryUseCase (fl : Floats) (W : Type 0) : Type 0 where
  pub unicode : Unicode
  pub decode : Text → Result LlmOutput
  pub validate : AdvisoryMessageRequest → Outcome
  pub machines : MachineRepository W
  pub baselines : BaselineRepository W
  pub inspections : InspectionRepository fl W
  pub llm : LlmProvider W

unfoldable pub contains_danger_keyword : Unicode → Text → Bool
contains_danger_keyword u message =
    let lower = to_lower u message in any (λ keyword. contains lower keyword) danger_keywords

abbrev pub deref_or_empty : Option Text → Text
deref_or_empty none = []
deref_or_empty (some s) = s

abbrev pub to_advisory_turns : List AdvisoryTurn → List Turn
to_advisory_turns = map (λ t. record { role = t.role; content = t.content })

abbrev pub to_response : Reply → Text → AdvisoryMessageResponse
to_response reply source = record {
  reply = reply.answer;
  next_step = reply.next_step;
  needs_technician = reply.needs_technician;
  escalated = reply.escalated;
  source = source;
  disclaimer = triage_disclaimer;
}

abbrev pub combo_for : Text → Text → AdvisoryMessageRequest → Combo
combo_for status indicator request = record {
  status = status;
  indicator = indicator;
  drive = request.context.drive_type;
  recency = request.context.recency;
}

abbrev pub looked_up : Combo → Result Cell
looked_up q = map_error (wrap (text "advisory: decision table lookup: ")) (lookup decision_table q)

abbrev pub quality_of : Result Baseline → Text
quality_of (ok baseline) = baseline.calibration_quality
quality_of (err e) = []

module _ (fl : Floats) where
  abbrev pub z_warning_threshold : fl.Float
  z_warning_threshold = fl.literal 30 1

  abbrev pub z_critical_threshold : fl.Float
  z_critical_threshold = fl.literal 60 1

  unfoldable pub allowed_numbers_for : Inspection fl → List fl.Float
  allowed_numbers_for inspection =
      z_warning_threshold
      ∷ z_critical_threshold
      ∷ elim inspection.z_score [ none ↦ [] | some z ↦ z ∷ [] ]

  abbrev pub prompt_input : Cell → Inspection fl → Text → AdvisoryMessageRequest → PromptInput fl
  prompt_input cell inspection calibration_quality request = record {
    status = inspection.status;
    z = inspection.z_score;
    z_warning_threshold = z_warning_threshold;
    z_critical_threshold = z_critical_threshold;
    dominant_indicator = deref_or_empty inspection.dominant_indicator;
    calibration_quality = calibration_quality;
    drive_type = request.context.drive_type;
    recency = request.context.recency;
    machine_age = request.context.machine_age;
    hours_per_day = request.context.hours_per_day;
    has_backup = request.context.has_backup;
    load_state = request.context.load_state;
    cell = cell;
    history = to_advisory_turns request.history;
    user_message = request.user_message;
  }

module _ {fl : Floats} {W : Type 0} (uc : AdvisoryUseCase fl W) where
  unfoldable pub calibration_quality_for : Inspection fl → Exec W Text
  calibration_quality_for inspection = do
    baseline ← attempt (uc.baselines.find_by_id inspection.baseline_id)
    pure (quality_of baseline)

  abbrev pub judged : Cell → Result Reply → Reply × Text
  judged cell (err e) = (static_reply cell, advisory_source_fallback_static)
  judged cell (ok reply) = (reply, advisory_source_llm)

  abbrev pub answered : Cell → Inspection fl → Result Text → Reply × Text
  answered cell inspection (err e) = (static_reply cell, advisory_source_fallback_static)
  answered cell inspection (ok completion) =
      judged cell
        (guard uc.unicode fl uc.decode completion cell (allowed_numbers_for fl inspection))

  -- the method `reply`
  unfoldable pub reply :
      Cell → Inspection fl → Text → AdvisoryMessageRequest → Exec W (Reply × Text)
  reply cell inspection calibration_quality request = do
    completion ← attempt (
        uc.llm.complete
          (render_prompt fl (prompt_input fl cell inspection calibration_quality request)))
    pure (answered cell inspection completion)

  -- the branch for a danger keyword
  unfoldable pub send_danger :
      Inspection fl → AdvisoryMessageRequest → Exec W AdvisoryMessageResponse
  send_danger inspection request = do
    cell ← lift (
        looked_up
          (combo_for status_critical (deref_or_empty inspection.dominant_indicator) request))
    pure (
        to_response (record (static_reply cell) { escalated = true })
          advisory_source_fallback_static)

  unfoldable pub send_usual :
      Inspection fl → Text → AdvisoryMessageRequest → Exec W AdvisoryMessageResponse
  send_usual inspection calibration_quality request = do
    cell ← lift (
        looked_up
          (combo_for inspection.status (deref_or_empty inspection.dominant_indicator) request))
    answer ← reply cell inspection calibration_quality request
    pure (to_response answer.0 answer.1)

  -- danger keywords are checked before the model is asked
  abbrev pub send_by_message :
      Inspection fl → Text → AdvisoryMessageRequest → Exec W AdvisoryMessageResponse
  send_by_message inspection calibration_quality request =
      if contains_danger_keyword uc.unicode request.user_message
      then send_danger inspection request
      else send_usual inspection calibration_quality request

  unfoldable pub send : AdvisoryMessageRequest → Exec W AdvisoryMessageResponse
  send request = do
    reject_if (validate_struct (uc.validate request))
    machine ←
        on_error (not_found_or (text "find machine by id: "))
          (uc.machines.find_by_id_for_user request.machine_id request.user_id)
    inspection ←
        on_error (not_found_or (text "find inspection by id: "))
          (uc.inspections.find_by_id_for_machine request.inspection_id machine.id)
    calibration_quality ← calibration_quality_for inspection
    send_by_message inspection calibration_quality request
