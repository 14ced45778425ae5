-- ===== src/Advisory/Guard.antt =====
-- internal/advisory/guard.go: the four checks that a model's completion must pass.
pub mod Order
pub mod Checks
use audiax_backend.Common.{
  ℕ, Bool, true, false, not, ◌&&◌, ◌||◌, Option, none, some, List, [], ◌∷◌, ◌++◌, ltb,
  if◌then◌else◌,
}
use audiax_backend.Common.Text.{Text, text, is_empty, is_blank, index, contains, Unicode, to_lower}
use audiax_backend.Constants.{advisory_forbidden_diagnosis_phrases}
use audiax_backend.Errors.{Error, opaque, wrap}
use audiax_backend.Exec.{Result, ok, err}
use audiax_backend.Floats.{Floats}
use audiax_backend.Advisory.{Cell, Reply}
use audiax_backend.Advisory.Numbers.{cell_numbers, first_disallowed_number}

-- the JSON shape that the model must produce
pub record LlmOutput : Type 0 where
  pub jawaban : Text
  pub langkah_berikutnya : Text
  pub perlu_teknisi : Bool
  pub eskalasi : Bool

abbrev pub shutdown_word : Text
shutdown_word = text "matikan"

abbrev pub inspect_word : Text
inspect_word = text "periksa"

-- the comparison at the end of `shutdownPrecedesInspection`, with `none` for -1
abbrev pub precedes : Option ℕ → Option ℕ → Bool
precedes none inspect_at = false
precedes (some shutdown_at) none = true
precedes (some shutdown_at) (some inspect_at) = ltb shutdown_at inspect_at

unfoldable pub shutdown_precedes_inspection : Unicode → Text → Bool
shutdown_precedes_inspection u s =
    let lower = to_lower u s in precedes (index lower shutdown_word) (index lower inspect_word)

-- the loop of `firstForbiddenDiagnosisPhrase`, over the phrases left
unfoldable pub first_contained : Text → List Text → Option Text
first_contained lower [] = none
first_contained lower (phrase ∷ phrases) =
    if contains lower phrase then some phrase else first_contained lower phrases

unfoldable pub first_forbidden_diagnosis_phrase : Unicode → Text → Option Text
first_forbidden_diagnosis_phrase u s =
    first_contained (to_lower u s) advisory_forbidden_diagnosis_phrases

abbrev pub combined : LlmOutput → Text
combined out = out.jawaban ++ (text " " ++ out.langkah_berikutnya)

abbrev pub reply_of : Cell → LlmOutput → Reply
reply_of cell out = record {
  answer = out.jawaban;
  next_step = out.langkah_berikutnya;
  needs_technician = cell.needs_technician;
  escalated = false;
}

module _ (u : Unicode) (fl : Floats) where
  abbrev pub whitelist : Cell → List fl.Float → List fl.Float
  whitelist cell allowed_numbers = allowed_numbers ++ cell_numbers fl cell

  -- the four checks, in the order of the code; `none` if all are passed
  unfoldable pub violation : Cell → List fl.Float → LlmOutput → Option Error
  violation cell allowed_numbers out =
      if is_blank out.jawaban || is_blank out.langkah_berikutnya
      then some (opaque (text "guard: skema: jawaban and langkah_berikutnya must not be empty"))
      else elim (first_disallowed_number fl (combined out) (whitelist cell allowed_numbers)) [
        | some bad ↦
            some
              (opaque (text "guard: angka: " ++ (fl.show bad ++ text " is not in the whitelist")))
        | none ↦ elim (first_forbidden_diagnosis_phrase u (combined out)) [
          | some phrase ↦ some (
              opaque (
                text "guard: diagnosis: output contains forbidden phrase \""
                ++ (phrase ++ text "\"")))
          | none ↦
              if not (is_empty cell.safety_gate)
                && not (shutdown_precedes_inspection u (combined out))
              then some (
                  opaque (
                    text
                      "guard: keselamatan: output must instruct shutting the machine down before inspecting it"))
              else none
        ]
      ]

  abbrev judge : Cell → LlmOutput → Option Error → Result Reply
  judge cell out none = ok (reply_of cell out)
  judge cell out (some e) = err e

  abbrev check_decoded : Cell → List fl.Float → Result LlmOutput → Result Reply
  check_decoded cell allowed_numbers (err e) = err (wrap (text "guard: skema: ") e)
  check_decoded cell allowed_numbers (ok out) = judge cell out (violation cell allowed_numbers out)

  -- `Guard`; `decode` is json.Unmarshal into the shape above
  unfoldable pub guard : (Text → Result LlmOutput) → Text → Cell → List fl.Float → Result Reply
  guard decode raw cell allowed_numbers = check_decoded cell allowed_numbers (decode raw)
