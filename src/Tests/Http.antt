-- ===== src/Tests/Http.antt =====
-- An upload and a configuration.
use audiax_backend.Common.{ℕ, length, ◌≡◌, ◌≢◌, ◌↔◌, refl, some, List, [], ◌∷◌, ◌++◌}
use audiax_backend.Common.Text.{Text, text}
use audiax_backend.Exec.{ok}
use audiax_backend.Config.Load.{read_config, load}
use audiax_backend.Config.Load.Required.{IsConfigured, load_iff}
use audiax_backend.Http.Request.{FileHeader, readable}
use audiax_backend.Http.Upload.{read_audio_upload}
use audiax_backend.Http.Upload.Bounds.{IsUpload, read_audio_upload_iff}
use audiax_backend.Tests.Wiring.{parsers, getenv}

abbrev clip : FileHeader
clip = record { filename = text "a.wav"; size = 2; content = readable (1 ∷ 2 ∷ []) }

read_audio_upload_iff_example :
    (read_audio_upload (some clip) ≡ ok (1 ∷ 2 ∷ [], text "a.wav"))
    ↔ IsUpload (some clip) (1 ∷ 2 ∷ []) (text "a.wav")
read_audio_upload_iff_example =
    read_audio_upload_iff (some clip) (1 ∷ 2 ∷ []) (text "a.wav") (λ bytes e. clip_size bytes e)
  where
    clip_size : (bytes : List ℕ) → clip.content ≡ readable bytes → clip.size ≡ length bytes
    clip_size bytes e = let same : 1 ∷ 2 ∷ [] ≡ bytes = cc in rw (← same) refl

load_iff_example :
    ((load parsers getenv ≡ ok (read_config parsers getenv))
      ↔ ((read_config parsers getenv ≡ read_config parsers getenv) × IsConfigured getenv))
    × (load parsers getenv ≡ ok (read_config parsers getenv)
        → (front : Text)
        → ((read_config parsers getenv).ai_service_url ≢ front ++ text "/")
          × ((read_config parsers getenv).ollama_url ≢ front ++ text "/")
          × ((read_config parsers getenv).supabase_url ≢ front ++ text "/"))
load_iff_example = load_iff parsers getenv (read_config parsers getenv)
