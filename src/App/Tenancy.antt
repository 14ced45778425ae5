-- ===== src/App/Tenancy.antt =====
-- A machine of someone else, at every endpoint.
use audiax_backend.Common.{ℕ, ◌≡◌, refl, true, none, some, List}
use audiax_backend.Common.Text.{Text}
use audiax_backend.Errors.{Error, sentinel, not_found, record_not_found, is}
use audiax_backend.Exec.{Result, ok, err}
use audiax_backend.Floats.{Floats}
use audiax_backend.Model.{Auth, UpdateMachineRequest, AdvisoryMessageRequest}
use audiax_backend.Usecase.Codec.{Codec}
use audiax_backend.Usecase.Ports.{not_found_or}
use audiax_backend.Usecase.Validation.{validate_struct}
use audiax_backend.Usecase.Machine.{trimmed_update, find_owned_machine}
use audiax_backend.Usecase.Machine
use audiax_backend.Usecase.Baseline.{find_owned_machine_for_baseline, calibrated}
use audiax_backend.Usecase.Baseline
use audiax_backend.Usecase.Inspection.{health_card}
use audiax_backend.Usecase.Inspection
use audiax_backend.Usecase.Advisory.{send}
use audiax_backend.Http.Request.{HttpRequest, Response}
use audiax_backend.Repository.Machines.{find_by_id_for_user}
use audiax_backend.Http.Upload.{read_audio_upload}
use audiax_backend.Http.Controllers.{
  get_machine, update_machine, delete_machine, calibrate, list_baselines, inspect, list_inspections,
  send_message, audio_request,
}
use audiax_backend.App.{Dependencies, validator, route_config}

module _ {fl : Floats} {c : Codec} {Level W : Type 0} (deps : Dependencies fl c Level W)
    (auth : Auth) (req : HttpRequest) (w w' : W) (e : Error)
    (missing : find_by_id_for_user deps.machine_table req.machine_id auth.user_id w ≡ (err e, w'))
    (gone : is e record_not_found ≡ true) where
  open deps use {parser}

  -- The answer "not found" of a handler, in the world that the lookup left.
  abbrev pub not_found_there : Result (Response fl) × W
  not_found_there = (err (sentinel not_found), w')

  -- The machine of the path is not found for the user of the session. Then each of the eight handlers
  -- of a machine's routes ends with "not found", in the world that the lookup left, so nothing is
  -- written, scored or sent: the four without a body always, the update and the message if the body
  -- parses to a valid request, the two uploads if the upload is accepted and its request valid.
  pub foreign_machine_not_found :
      (get_machine parser (route_config deps).machines auth req w ≡ not_found_there)
      × (delete_machine parser (route_config deps).machines auth req w ≡ not_found_there)
      × (list_baselines (route_config deps).baselines auth req w ≡ not_found_there)
      × (list_inspections (route_config deps).inspections auth req w ≡ not_found_there)
      × ((r : UpdateMachineRequest)
          → parser.update_machine req.body ≡ some r
          → validate_struct (
              (validator deps).update_machine
                (trimmed_update (record r { user_id = auth.user_id; machine_id = req.machine_id })))
            ≡ none
          → update_machine parser (route_config deps).machines auth req w ≡ not_found_there)
      × ((r : AdvisoryMessageRequest)
          → parser.advisory_message req.body ≡ some r
          → validate_struct (
              (validator deps).advisory_message (record r {
                user_id = auth.user_id;
                machine_id = req.machine_id;
                inspection_id = req.inspection_id;
              }))
            ≡ none
          → send_message parser (route_config deps).advisory auth req w ≡ not_found_there)
      × ((upload : List ℕ × Text)
          → read_audio_upload req.form_file ≡ ok upload
          → validate_struct ((validator deps).audio (audio_request auth req upload)) ≡ none
          → (calibrate (route_config deps).baselines auth req w ≡ not_found_there)
            × (inspect (route_config deps).inspections auth req w ≡ not_found_there))
  unfolding get_machine delete_machine list_baselines list_inspections update_machine send_message
      calibrate inspect Machine.get Machine.delete Baseline.list Inspection.list Machine.update send
      Baseline.calibrate Inspection.inspect find_owned_machine find_owned_machine_for_baseline
      calibrated health_card not_found_or
  foreign_machine_not_found = (
    rw (missing, gone) refl,
    rw (missing, gone) refl,
    rw (missing, gone) refl,
    rw (missing, gone) refl,
    λ r given valid. rw (given, valid, missing, gone) refl,
    λ r given valid. rw (given, valid, missing, gone) refl,
    λ upload accepted valid.
        (rw (accepted, valid, missing, gone) refl, rw (accepted, valid, missing, gone) refl),
  )
