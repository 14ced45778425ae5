-- ===== src/Usecase/Baseline/Entity.antt =====
-- Which baselines of the AI service become a row.
use Prim.Native.Nat.{◌%◌, ◌^◌}
use native.Mathlib.Nat.{mul-le-mul, mod-eq_of_lt, le_of_lt}
use audiax_backend.Common.{
  ℕ, ◌*◌, ◌≤◌, ◌<◌, ◌≡◌, refl, sym, ◌∙◌, ◌↔◌, List, [], ◌∷◌, arith, length, Bool-cases, inl, inr,
}
use audiax_backend.Common.Int.{ℤ, pos, bits, word_mod, int_eq, int_eq_iff, of_bits_pos, mul-mul}
use audiax_backend.Common.Text.{◌==◌}
use audiax_backend.Common.Text.Search.{eq_iff}
use audiax_backend.Constants.{embedding_dtype_float16}
use audiax_backend.Exec.{ok, bind-ok, map_error-ok}
use audiax_backend.Model.{AiBaseline}
use audiax_backend.Usecase.Codec.{Codec}
use audiax_backend.Usecase.Baseline.{
  Encoded, or_empty_map, expected_size, encoded_columns, by_shape, checked_columns,
}

module _ (c : Codec) (ai : AiBaseline c.Stats c.Notes) where
  -- Half-precision numbers, two dimensions, as many bytes as the product of 64 bits says, and the JSON
  -- columns.
  pub record IsEncoding (e : Encoded c) : Type 0 where
    pub dtype : ai.embedding_dtype ≡ embedding_dtype_float16
    pub rows : ℤ
    pub shape : ai.embedding_shape ≡ rows ∷ e.dim ∷ []
    pub decoded : c.decode_string ai.embeddings_b64 ≡ ok e.embeddings
    pub size : length e.embeddings ≡ bits ai.n_windows * bits e.dim * 2 % word_mod
    pub sign : length e.embeddings < 2 ^ 63
    pub stats_written : c.marshal_stats ai.backend_stats ≡ ok e.stats
    pub notes_written : c.marshal_notes (or_empty_map c.empty_notes ai.notes) ≡ ok e.notes

  -- The expected size is the size that the bits of the two numbers give.
  expected_size_iff :
      (dim : ℤ) (size : ℕ)
      → (expected_size c ai dim ≡ pos size)
        ↔ ((size ≡ bits ai.n_windows * bits dim * 2 % word_mod) × (size < 2 ^ 63))
  expected_size_iff dim size =
      let same = mul-mul ai.n_windows dim 2 (omega arith) in
      let (to, from) = of_bits_pos (bits ai.n_windows * bits dim * 2 % word_mod) size in
      (λ h. let (e, small) = to (sym same ∙ h) in (sym e, small), λ h. same ∙ from (sym h.0, h.1))

  encoded_sound :
      (rows dim : ℤ) (e : Encoded c)
      → ai.embedding_dtype ≡ embedding_dtype_float16
      → ai.embedding_shape ≡ rows ∷ dim ∷ []
      → encoded_columns c ai dim ≡ ok e
      → IsEncoding e
  encoded_sound rows dim e dtype shape h =
      let (embeddings, decoded, h₁) = bind-ok _ _ e h in
      elim (Bool-cases (int_eq (pos (length embeddings)) (expected_size c ai dim))) [
        | inl same ↦
            let (size, sign) =
              (expected_size_iff dim (length embeddings)).0 (sym ((int_eq_iff _ _).0 same)) in
            let (stats, written, h₂) = bind-ok _ _ e (rw same at h₁) in
            let (notes, noted, h₃) = bind-ok _ _ e h₂ in
            let row : record { embeddings = embeddings; stats = stats; notes = notes; dim = dim }
                ≡ e =
              cc in
            rw (← row) (record {
              dtype = dtype;
              rows = rows;
              shape = shape;
              decoded = map_error-ok _ _ _ decoded;
              size = size;
              sign = sign;
              stats_written = map_error-ok _ _ _ written;
              notes_written = map_error-ok _ _ _ noted;
            })
        | inr other ↦ absurd (ground arith)
      ]

  by_shape_sound :
      (shape : List ℤ) (e : Encoded c)
      → ai.embedding_dtype ≡ embedding_dtype_float16
      → ai.embedding_shape ≡ shape
      → by_shape c ai shape ≡ ok e
      → IsEncoding e
  by_shape_sound [] e dtype same h = cc
  by_shape_sound (n ∷ []) e dtype same h = cc
  by_shape_sound (n ∷ dim ∷ []) e dtype same h = encoded_sound n dim e dtype same h
  by_shape_sound (n ∷ dim ∷ k ∷ shape) e dtype same h = cc

  checked_sound : (e : Encoded c) → checked_columns c ai ≡ ok e → IsEncoding e
  unfolding checked_columns
  checked_sound e h = elim (Bool-cases (ai.embedding_dtype == embedding_dtype_float16)) [
    | inl half ↦ by_shape_sound ai.embedding_shape e ((eq_iff _ _).0 half) refl (rw half at h)
    | inr other ↦ absurd (ground arith)
  ]

  checked_complete : (e : Encoded c) → IsEncoding e → checked_columns c ai ≡ ok e
  unfolding checked_columns
  checked_complete e i =
      rw
        (
          (eq_iff _ _).1 i.dtype,
          i.shape,
          i.decoded,
          (int_eq_iff _ _).1
              (sym ((expected_size_iff e.dim (length e.embeddings)).1 (i.size, i.sign))),
          i.stats_written,
          i.notes_written,
        )
        refl

  -- Numbers of windows and dimensions that a column of 32 bits holds do not wrap around.
  exact_size :
      (e : Encoded c) (n d : ℕ)
      → ai.n_windows ≡ pos n
      → e.dim ≡ pos d
      → n < 2 ^ 31
      → d < 2 ^ 31
      → IsEncoding e
      → length e.embeddings ≡ n * d * 2
  exact_size e n d windows dim n_fits d_fits i =
      let product : n * d ≤ 2 ^ 31 * 2 ^ 31 = mul-le-mul (le_of_lt n_fits) (le_of_lt d_fits) in
      let size : length e.embeddings ≡ n % word_mod * (d % word_mod) * 2 % word_mod =
        rw (windows, dim) at (i.size) in
      let n_same : n % word_mod ≡ n = mod-eq_of_lt (omega arith) in
      let d_same : d % word_mod ≡ d = mod-eq_of_lt (omega arith) in
      let plain : length e.embeddings ≡ n * d * 2 % word_mod = rw (n_same, d_same) at size in
      plain ∙ mod-eq_of_lt (omega arith)

  -- A baseline of the AI service is accepted exactly when its embeddings are of half precision, their
  -- shape has two dimensions, the base64 text decodes to as many bytes as the product of the number of
  -- windows, the second dimension and 2 says when it is taken modulo 2^64 and is below 2^63, and the
  -- statistics and the notes are written as JSON; a missing object of notes is written as the empty one.
  -- If the two numbers are not negative and below 2^31, an accepted baseline has exactly two bytes for
  -- each number.
  pub checked_columns_iff :
      (e : Encoded c)
      → ((checked_columns c ai ≡ ok e) ↔ IsEncoding e)
        × ((n d : ℕ)
            → ai.n_windows ≡ pos n
            → e.dim ≡ pos d
            → n < 2 ^ 31
            → d < 2 ^ 31
            → checked_columns c ai ≡ ok e
            → length e.embeddings ≡ n * d * 2)
  checked_columns_iff e = (
    (checked_sound e, checked_complete e),
    λ n d windows dim n_fits d_fits h.
        exact_size e n d windows dim n_fits d_fits (checked_sound e h),
  )
