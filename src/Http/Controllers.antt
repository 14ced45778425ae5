-- ===== src/Http/Controllers.antt =====
-- internal/delivery/http: the controllers. A handler reads the identity that the middleware stored
-- (`GetAuth`), calls its use case, and gives a status and a body.
pub mod Identity
use audiax_backend.Common.{ℕ, List}
use audiax_backend.Common.Text.{Text}
use audiax_backend.Exec.{Exec, pure, lift, ◌>>=◌, ◌>>◌}
use audiax_backend.Floats.{Floats}
use audiax_backend.Model.{
  Auth, AudioRequest, CreateMachineRequest, UpdateMachineRequest, UpdateUserRequest,
  AdvisoryMessageRequest,
}
use audiax_backend.Usecase.Codec.{Codec}
use audiax_backend.Usecase.User.{UserUseCase}
use audiax_backend.Usecase.User
use audiax_backend.Usecase.Machine.{MachineUseCase}
use audiax_backend.Usecase.Machine
use audiax_backend.Usecase.Baseline.{BaselineUseCase}
use audiax_backend.Usecase.Baseline
use audiax_backend.Usecase.Inspection.{InspectionUseCase}
use audiax_backend.Usecase.Inspection
use audiax_backend.Usecase.Advisory.{AdvisoryUseCase, send}
use audiax_backend.Http.Request.{
  HttpRequest, BodyParser, user, session, machine, machines, baseline, baselines, inspection,
  inspections, message, empty, Response, json, parsed,
}
use audiax_backend.Http.Upload.{read_audio_upload}

module _ {fl : Floats} {W : Type 0} (parser : BodyParser) (uc : UserUseCase W) where
  unfoldable pub register : HttpRequest → Exec W (Response fl)
  register req = do
    request ← parsed (parser.register req.body)
    response ← User.register uc request
    pure (json 201 (user response))

  unfoldable pub login : HttpRequest → Exec W (Response fl)
  login req = do
    request ← parsed (parser.login req.body)
    response ← User.login uc request
    pure (json 200 (session response))

  unfoldable pub current : Auth → HttpRequest → Exec W (Response fl)
  current auth req = do response ← User.current uc auth.user_id; pure (json 200 (user response))

  unfoldable pub update_user : Auth → HttpRequest → Exec W (Response fl)
  update_user auth req = do
    request ← parsed (parser.update_user req.body)
    response ← User.update uc (record request { user_id = auth.user_id })
    pure (json 200 (user response))

  unfoldable pub logout : Auth → HttpRequest → Exec W (Response fl)
  logout auth req = do User.logout uc auth.token; pure (json 204 empty)

module _ {fl : Floats} {W : Type 0} (parser : BodyParser) (uc : MachineUseCase W) where
  unfoldable pub create_machine : Auth → HttpRequest → Exec W (Response fl)
  create_machine auth req = do
    request ← parsed (parser.create_machine req.body)
    response ← Machine.create uc (record request { user_id = auth.user_id })
    pure (json 201 (machine response))

  unfoldable pub list_machines : Auth → HttpRequest → Exec W (Response fl)
  list_machines auth req = do
    response ← Machine.list uc auth.user_id
    pure (json 200 (machines response))

  unfoldable pub get_machine : Auth → HttpRequest → Exec W (Response fl)
  get_machine auth req = do
    response ← Machine.get uc auth.user_id req.machine_id
    pure (json 200 (machine response))

  unfoldable pub update_machine : Auth → HttpRequest → Exec W (Response fl)
  update_machine auth req = do
    request ← parsed (parser.update_machine req.body)
    response ←
        Machine.update uc (record request { user_id = auth.user_id; machine_id = req.machine_id })
    pure (json 200 (machine response))

  unfoldable pub delete_machine : Auth → HttpRequest → Exec W (Response fl)
  delete_machine auth req = do Machine.delete uc auth.user_id req.machine_id; pure (json 204 empty)

-- the request of Calibrate and of Inspect
abbrev pub audio_request : Auth → HttpRequest → List ℕ × Text → AudioRequest
audio_request auth req (audio, filename) = record {
  user_id = auth.user_id;
  machine_id = req.machine_id;
  filename = filename;
  audio = audio;
}

module _ {fl : Floats} {c : Codec} {W : Type 0} (uc : BaselineUseCase fl c W) where
  unfoldable pub calibrate : Auth → HttpRequest → Exec W (Response fl)
  calibrate auth req = do
    upload ← lift (read_audio_upload req.form_file)
    response ← Baseline.calibrate uc (audio_request auth req upload)
    pure (json 201 (baseline response))

  unfoldable pub list_baselines : Auth → HttpRequest → Exec W (Response fl)
  list_baselines auth req = do
    response ← Baseline.list uc auth.user_id req.machine_id
    pure (json 200 (baselines response))

module _ {fl : Floats} {c : Codec} {W : Type 0} (uc : InspectionUseCase fl c W) where
  unfoldable pub inspect : Auth → HttpRequest → Exec W (Response fl)
  inspect auth req = do
    upload ← lift (read_audio_upload req.form_file)
    response ← Inspection.inspect uc (audio_request auth req upload)
    pure (json 201 (inspection response))

  unfoldable pub list_inspections : Auth → HttpRequest → Exec W (Response fl)
  list_inspections auth req = do
    response ← Inspection.list uc auth.user_id req.machine_id
    pure (json 200 (inspections response))

module _ {fl : Floats} {W : Type 0} (parser : BodyParser) (uc : AdvisoryUseCase fl W) where
  unfoldable pub send_message : Auth → HttpRequest → Exec W (Response fl)
  send_message auth req = do
    request ← parsed (parser.advisory_message req.body)
    response ← send uc (record request {
      user_id = auth.user_id;
      machine_id = req.machine_id;
      inspection_id = req.inspection_id;
    })
    pure (json 200 (message response))
