-- ===== src/Config/AiService/Calls.antt =====
-- internal/config/aiservice.go: the two calls of the AI service.
use Prim.Native.Nat.{◌*◌}
use mathlib.Core.Option
use audiax_backend.Common.{ℕ, List, [], ◌∷◌, ◌++◌}
use audiax_backend.Common.Text.{Text, text}
use audiax_backend.Constants.{
  ai_calibrate_path, ai_inspect_path, ai_machine_label_form_field, ai_baseline_form_field,
  audio_form_field,
}
use audiax_backend.Errors.{wrap}
use audiax_backend.Exec.{Result, Exec, lift, on_error, reject_if, total, ◌>>=◌, ◌>>◌}
use audiax_backend.Floats.{Floats}
use audiax_backend.Model.{AiBaseline, AiHealthCard}
use audiax_backend.Usecase.Ports.{AiService}
use audiax_backend.Config.HttpClient.{HttpClient, read_reply}
use audiax_backend.Config.AiService.{received}

-- A multipart body before it is written: the text fields, then the file.
pub record Form : Type 0 where
  pub fields : List (Text × Text)
  pub file_field : Text
  pub filename : Text
  pub content : List ℕ

-- mime/multipart, which gives the bytes and their content type, and encoding/json at the types read
pub record AiCodec (fl : Floats) (Stats Notes : Type 0) : Type 0 where
  pub write_form : Form → Result (List ℕ × Text)
  pub decode_detail : Text → Text
  pub decode_baseline : Text → Result (AiBaseline Stats Notes)
  pub decode_card : Text → Result (AiHealthCard fl)

module _ {fl : Floats} {Stats Notes W : Type 0} (codec : AiCodec fl Stats Notes)
    (client : HttpClient W) (base_url : Text) where
  unfoldable pub multipart_body : List ℕ → Text → List (Text × Text) → Result (List ℕ × Text)
  multipart_body audio filename fields = codec.write_form (record {
    fields = fields;
    file_field = audio_form_field;
    filename = filename;
    content = audio;
  })

  unfoldable pub post : {A : Type 0} → (Text → Result A) → Text → List ℕ × Text → Exec W A
  post decode path (body, content_type) = do
    on_error (wrap (text "build ai request: ")) (reject_if (client.new_request (base_url ++ path)))
    reply ← total (
        client.send (record {
          url = base_url ++ path;
          headers = (text "Content-Type", content_type) ∷ [];
          body = body;
        }))
    lift (received path (Option.map (read_reply (8 * 1024) codec.decode_detail decode) reply))

  unfoldable pub calibrate : List ℕ → Text → Text → Exec W (AiBaseline Stats Notes)
  calibrate audio filename machine_label = do
    form ← lift (multipart_body audio filename ((ai_machine_label_form_field, machine_label) ∷ []))
    post codec.decode_baseline ai_calibrate_path form

  unfoldable pub inspect : List ℕ → Text → List ℕ → Exec W (AiHealthCard fl)
  inspect audio filename baseline_json = do
    form ← lift (multipart_body audio filename ((ai_baseline_form_field, baseline_json) ∷ []))
    post codec.decode_card ai_inspect_path form

  -- what the use cases see of it
  abbrev pub ai_service : AiService fl Stats Notes W
  ai_service = record { calibrate = calibrate; inspect = inspect }
