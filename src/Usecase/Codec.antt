-- ===== src/Usecase/Codec.antt =====
-- The encodings of the standard library that internal/usecase/baseline.go and inspection.go use, taken
-- as given, and the laws that the theorems use of them.
use audiax_backend.Common.{ℕ, ◌≡◌, ◌≢◌, [], List}
use audiax_backend.Common.Int.{ℤ}
use audiax_backend.Common.Text.{Text}
use audiax_backend.Exec.{Result, ok}
use audiax_backend.Entity.{Time}
use audiax_backend.Model.{AiBaseline}

pub record Codec : Type 1 where
  -- the Go values of map[string]AIBackendStat and map[string]any
  pub Stats : Type 0
  pub Notes : Type 0
  pub empty_notes : Notes
  -- json.Marshal and json.Unmarshal at these types, and at AIBaseline
  pub marshal_stats : Stats → Result (List ℕ)
  pub unmarshal_stats : List ℕ → Result Stats
  pub marshal_notes : Notes → Result (List ℕ)
  pub unmarshal_notes : List ℕ → Result Notes
  pub marshal_baseline : AiBaseline Stats Notes → Result (List ℕ)
  -- base64.StdEncoding
  pub encode_to_string : List ℕ → Text
  pub decode_string : Text → Result (List ℕ)
  -- time.RFC3339
  pub format_time : Time → Text
  pub parse_time : Text → Result Time
  -- fmt.Sprintf of the verbs %d and %v for the messages
  pub show_number : ℤ → Text
  pub show_shape : List ℤ → Text

-- Reading back what was written. A JSON object has at least the two bytes of `{}`.
pub record CodecLaws (c : Codec) : Type 0 where
  pub unmarshal_stats-marshal_stats :
      (s : c.Stats) (bytes : List ℕ) → c.marshal_stats s ≡ ok bytes → c.unmarshal_stats bytes ≡ ok s
  pub unmarshal_notes-marshal_notes :
      (n : c.Notes) (bytes : List ℕ) → c.marshal_notes n ≡ ok bytes → c.unmarshal_notes bytes ≡ ok n
  pub marshal_notes-ne-nil :
      (n : c.Notes) (bytes : List ℕ) → c.marshal_notes n ≡ ok bytes → bytes ≢ []
  pub decode_string-encode_to_string :
      (bytes : List ℕ) → c.decode_string (c.encode_to_string bytes) ≡ ok bytes
