-- ===== src/Usecase/Inspection/Payload.antt =====
-- The baseline goes back to the AI service as it came.
use audiax_backend.Common.{ℕ, ◌≡◌, refl, some, List, [], ◌∷◌}
use audiax_backend.Common.Text.{Text}
use audiax_backend.Exec.{ok}
use audiax_backend.Entity.{Time}
use audiax_backend.Model.{AiBaseline}
use audiax_backend.Usecase.Codec.{Codec, CodecLaws}
use audiax_backend.Usecase.Baseline.{Encoded, or_empty_map, checked_columns, row}
use audiax_backend.Usecase.Baseline.Entity.{checked_columns_iff}
use audiax_backend.Usecase.Inspection.{stored_notes, payload}

module _ (c : Codec) (laws : CodecLaws c) where
  stored_notes_lem :
      (n : c.Notes) (bytes : List ℕ) → c.marshal_notes n ≡ ok bytes → stored_notes c bytes ≡ ok n
  stored_notes_lem n [] h = absurd (laws.marshal_notes-ne-nil n [] h refl)
  stored_notes_lem n (b ∷ bytes) h = rw (laws.unmarshal_notes-marshal_notes n (b ∷ bytes) h) refl

  -- What `baselineEntity` stores, `baselinePayload` sends back: the same payload with the machine's
  -- present label and with empty notes in place of missing ones. The AI service must have sent as
  -- many rows as windows, the base64 text of some bytes, and a timestamp that is printed as it was
  -- parsed.
  pub payload_round_trip :
      (ai : AiBaseline c.Stats c.Notes) (e : Encoded c) (t : Time) (id machine_id label : Text)
      (sent : List ℕ)
      → checked_columns c ai ≡ ok e
      → ai.embedding_shape ≡ ai.n_windows ∷ e.dim ∷ []
      → ai.embeddings_b64 ≡ c.encode_to_string sent
      → c.format_time t ≡ ai.created_at
      → payload c label (row c id machine_id t ai e)
        ≡ ok (record ai {
          machine_label = label;
          notes = some (or_empty_map c.empty_notes ai.notes);
        })
  unfolding payload
  payload_round_trip ai e t id machine_id label sent checked shape text clock =
      let i = (checked_columns_iff c ai e).0.0 checked in
      let same : c.encode_to_string e.embeddings ≡ ai.embeddings_b64 =
        cc (i.decoded, text, laws.decode_string-encode_to_string sent) in
      rw
        (
          laws.unmarshal_stats-marshal_stats ai.backend_stats e.stats i.stats_written,
          stored_notes_lem (or_empty_map c.empty_notes ai.notes) e.notes i.notes_written,
          same,
          clock,
          shape,
        )
        refl
