-- ===== src/Http/Upload.antt =====
-- internal/delivery/http/baseline_controller.go: readAudioUpload
pub mod Bounds
use audiax_backend.Common.{ℕ, Option, none, some, List, [], ◌∷◌, ◌++◌, ltb, take, if◌then◌else◌}
use audiax_backend.Common.Text.{Text, text}
use audiax_backend.Constants.{audio_form_field, max_audio_upload_bytes}
use audiax_backend.Errors.{Error, fiber}
use audiax_backend.Exec.{Result, ok, err}
use audiax_backend.Http.Request.{Content, unopened, unreadable, readable, FileHeader}

abbrev pub not_read : Error
not_read = fiber 400 (text "audio file could not be read")

abbrev pub not_empty : List ℕ → Text → Result (List ℕ × Text)
not_empty [] filename = err (fiber 400 (text "audio file is empty"))
not_empty (b ∷ audio) filename = ok (b ∷ audio, filename)

-- io.ReadAll of an io.LimitReader reads at most the limit
abbrev pub read_content : Content → Text → Result (List ℕ × Text)
read_content unopened filename = err not_read
read_content unreadable filename = err not_read
read_content (readable bytes) filename = not_empty (take max_audio_upload_bytes bytes) filename

unfoldable pub read_audio_upload : Option FileHeader → Result (List ℕ × Text)
read_audio_upload none =
    err
      (fiber 400 (text "an audio file is required in the " ++ (audio_form_field ++ text " field")))
read_audio_upload (some header) =
    if ltb max_audio_upload_bytes header.size
    then err (fiber 413 (text "audio file is too large"))
    else read_content header.content header.filename
