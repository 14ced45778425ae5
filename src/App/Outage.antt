-- ===== src/App/Outage.antt =====
-- A failure of the AI service, from its answer to the answer of this program.
use Prim.Native.Nat.{◌*◌}
use mathlib.Core.Option
use audiax_backend.Common.{
  ℕ, ◌≡◌, ◌≢◌, refl, inl, inr, Bool-cases, false, nat_eq, nat_eq_iff, Option, none, some, List, [],
  ◌∷◌, ◌++◌, take,
}
use audiax_backend.Common.Text.{Text, text}
use audiax_backend.Constants.{ai_calibrate_path, ai_machine_label_form_field, audio_form_field}
use audiax_backend.Errors.{Error, sentinel, unavailable, wrap}
use audiax_backend.Exec.{Result, ok, err}
use audiax_backend.Floats.{Floats}
use audiax_backend.Entity.{Machine}
use audiax_backend.Model.{Auth, ErrorResponse}
use audiax_backend.Usecase.Codec.{Codec}
use audiax_backend.Usecase.Validation.{validate_struct}
use audiax_backend.Usecase.Baseline.{find_owned_machine_for_baseline, calibrated}
use audiax_backend.Usecase.Baseline
use audiax_backend.Repository.Machines.{find_by_id_for_user}
use audiax_backend.Config.HttpClient.{Reply, read_reply}
use audiax_backend.Config.AiService.{received, error_for}
use audiax_backend.Config.AiService.Calls.{Form, multipart_body, post}
use audiax_backend.Config.AiService.Calls
use audiax_backend.Config.AiService.Client.{by_status, failures_answered}
use audiax_backend.Http.Request.{HttpRequest}
use audiax_backend.Http.Upload.{read_audio_upload}
use audiax_backend.Http.ErrorHandler.{respond, error_handler}
use audiax_backend.Http.Controllers.{calibrate, audio_request}
use audiax_backend.App.{Dependencies, validator, route_config}

-- No answer, or one that is not 200.
abbrev pub IsFailure : Option Reply → Type 0
IsFailure none = Unit
IsFailure (some reply) = reply.status_code ≢ 200

-- What the client of this program is told: the detail of a refused recording with status 422, else
-- that the service is unavailable (503), or that something went wrong (500).
abbrev pub told : (Text → Text) → Option Reply → ℕ × ErrorResponse
told detail_of none = respond 503 (text "upstream service unavailable")
told detail_of (some reply) = by_status reply.status_code (detail_of (take (8 * 1024) reply.body))

failure_told :
    {A : Type 0} (path : Text) (detail_of : Text → Text) (decode : Text → Result A)
    (reply : Option Reply)
    → IsFailure reply
    → (e : Error) × (received path (Option.map (read_reply (8 * 1024) detail_of decode) reply)
        ≡ err e)
      × (error_handler e ≡ told detail_of reply)
unfolding received
failure_told {A} path detail_of decode none failed =
    let e = wrap (text "call " ++ path) (sentinel unavailable) in
    (e, refl, (failures_answered {A = A} path).0 e refl)
failure_told {A} path detail_of decode (some reply) failed =
    let resp = read_reply (8 * 1024) detail_of decode reply in
    let seen : received path (some resp) ≡ err (error_for path resp) =
      rw (nat_ne reply.status_code 200 failed) refl in
    (error_for path resp, seen, (failures_answered {A = A} path).1 resp _ failed seen)
  where
    nat_ne : (m n : ℕ) → m ≢ n → nat_eq m n ≡ false
    nat_ne m n h = elim (Bool-cases (nat_eq m n)) [
      | inl same ↦ absurd (h ((nat_eq_iff m n).0 same))
      | inr other ↦ other
    ]

module _ {fl : Floats} {c : Codec} {Level W : Type 0} (deps : Dependencies fl c Level W)
    (auth : Auth) (req : HttpRequest) (w w' w'' : W) (upload : List ℕ × Text) (machine : Machine)
    (form : List ℕ × Text) (reply : Option Reply) where
  open deps use {config, ai_codec, ai_client}

  -- The request reaches the AI service: the upload is accepted, its request valid, the machine found,
  -- the form written and the address accepted; and this is what comes back.
  pub record IsAsked : Type 0 where
    pub accepted : read_audio_upload req.form_file ≡ ok upload
    pub valid : validate_struct ((validator deps).audio (audio_request auth req upload)) ≡ none
    pub found :
        find_by_id_for_user deps.machine_table req.machine_id auth.user_id w ≡ (ok machine, w')
    pub written :
        ai_codec.write_form (record {
          fields = (ai_machine_label_form_field, machine.label) ∷ [];
          file_field = audio_form_field;
          filename = upload.1;
          content = upload.0;
        })
        ≡ ok form
    pub addressed : ai_client.new_request (config.ai_service_url ++ ai_calibrate_path) ≡ none
    pub answered :
        ai_client.send
          (record {
            url = config.ai_service_url ++ ai_calibrate_path;
            headers = (text "Content-Type", form.1) ∷ [];
            body = form.0;
          })
          w'
        ≡ (reply, w'')

  -- The AI service was asked and failed: it did not answer, or not with 200. Then the calibration ends
  -- with an error in the world that the call left, so no row is written and no recording is stored, and
  -- the client is told: the detail of a 400 word for word with status 422, 503 without an answer or
  -- from status 500 on, and 500 otherwise.
  pub outage_told :
      IsAsked
      → IsFailure reply
      → (e : Error) × (calibrate (route_config deps).baselines auth req w ≡ (err e, w''))
        × (error_handler e ≡ told ai_codec.decode_detail reply)
  unfolding calibrate Baseline.calibrate calibrated find_owned_machine_for_baseline Calls.calibrate
      multipart_body post
  outage_told asked failed =
      let (e, seen, answer) =
        failure_told ai_calibrate_path ai_codec.decode_detail ai_codec.decode_baseline reply
          failed in
      (
        e,
        rw
            (
              asked.accepted, asked.valid, asked.found, asked.written, asked.addressed,
              asked.answered, seen,
            )
            refl,
        answer,
      )
