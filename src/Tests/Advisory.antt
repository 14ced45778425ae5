-- ===== src/Tests/Advisory.antt =====
-- The theorems on internal/advisory at a concrete input.
use audiax_backend.Common.{
  ◌≡◌, refl, ◌↔◌, inl, inr, true, false, List, [], ◌∷◌, ◌++◌, All, length, ◌≤◌,
}
use audiax_backend.Common.Text.{Text, text, join, to_lower}
use audiax_backend.Constants.{status_warning}
use audiax_backend.Exec.{Result, ok}
use audiax_backend.Advisory.{Cell}
use audiax_backend.Advisory.Rules.{Combo, lookup}
use audiax_backend.Advisory.Rules.Best.{Answers, lookup-Answers}
use audiax_backend.Advisory.Table.{decision_table}
use audiax_backend.Advisory.Table.Coverage.{stop_first, table_covers_statuses, critical_answer}
use audiax_backend.Advisory.Static.{static_answer}
use audiax_backend.Advisory.Static.Sections.{sections, static_answer-eq-join}
use audiax_backend.Advisory.Numbers.{outside, find_numbers, extract_numbers, cell_numbers}
use audiax_backend.Advisory.Numbers.Scan.{digits, digits_of_all, find_numbers-digits_all}
use audiax_backend.Advisory.Numbers.Whitelist.{IsAllowed, quoted_numbers_allowed}
use audiax_backend.Advisory.Guard.{
  LlmOutput, shutdown_word, inspect_word, shutdown_precedes_inspection, reply_of, guard,
}
use audiax_backend.Advisory.Guard.Order.{ComesFirst, shutdown_precedes_inspection_iff}
use audiax_backend.Advisory.Guard.Checks.{IsVetted, guard_accepts_iff}
use audiax_backend.Advisory.Prompt.{Turn, PromptInput, capped_history, render_prompt, line_feed}
use audiax_backend.Advisory.Prompt.History.{capped_history_lem}
use audiax_backend.Advisory.Prompt.Rendered.{prompt_lines, render_prompt_lem}
use audiax_backend.Usecase.Advisory.{prompt_input}
use audiax_backend.Tests.World.{
  ascii, numbers, numbers_laws, warm, critical, good_output, last_inspection, asking,
}

lookup-Answers_example : Answers (warm ∷ []) critical (lookup (warm ∷ []) critical)
lookup-Answers_example = lookup-Answers (warm ∷ []) critical

table_covers_statuses_example : (c : Cell) × (lookup decision_table critical ≡ ok c)
table_covers_statuses_example = table_covers_statuses critical (inr (inr (inl refl)))

static_answer-eq-join_example : static_answer warm ≡ join (sections warm) (text " ")
static_answer-eq-join_example = static_answer-eq-join warm

find_numbers-digits_all_example :
    digits_of_all (find_numbers outside (text "3,5 atau 12.")) ≡ digits (text "3,5 atau 12.")
find_numbers-digits_all_example = find_numbers-digits_all (text "3,5 atau 12.")

quoted_numbers_allowed_example :
    All
      (IsAllowed numbers (cell_numbers numbers warm))
      (extract_numbers numbers (text "Tunggu 15 menit."))
quoted_numbers_allowed_example =
    quoted_numbers_allowed numbers numbers_laws warm (text "Tunggu 15 menit.")
      (inr (inr (inr (inl refl))))

shutdown_precedes_inspection_iff_example :
    (shutdown_precedes_inspection ascii (text "Matikan, lalu periksa.") ≡ true)
    ↔ ComesFirst (to_lower ascii (text "Matikan, lalu periksa.")) shutdown_word inspect_word
shutdown_precedes_inspection_iff_example =
    shutdown_precedes_inspection_iff ascii (text "Matikan, lalu periksa.")

guard_accepts_iff_example :
    (guard ascii numbers (λ raw. ok good_output) (text "{}") warm []
      ≡ ok (reply_of warm good_output))
    ↔ IsVetted ascii numbers warm [] (ok good_output) (reply_of warm good_output)
guard_accepts_iff_example =
    guard_accepts_iff ascii numbers warm [] (λ raw. ok good_output) (text "{}")
      (reply_of warm good_output)

abbrev calm : Combo
calm = record critical { status = status_warning }

abbrev warning_cell : Cell
warning_cell = (table_covers_statuses calm (inr (inl refl))).0

abbrev critical_cell : Cell
critical_cell = (table_covers_statuses critical (inr (inr (inl refl)))).0

critical_answer_example :
    (critical_cell.needs_technician ≡ true) × (critical_cell.safety_gate ≡ stop_first)
critical_answer_example =
    critical_answer critical critical_cell refl
      (table_covers_statuses critical (inr (inr (inl refl)))).1

abbrev decoder : Text → Result LlmOutput
decoder [] = ok good_output
decoder (c ∷ s) = ok (record good_output { perlu_teknisi = true; eskalasi = false })

abbrev says : Text → Turn
says content = record { role = text "user"; content = content }

-- nine turns
abbrev talk : List Turn
talk =
    says (text "Halo")
    ∷ says (text "1")
    ∷ says (text "2")
    ∷ says (text "3")
    ∷ says (text "4")
    ∷ says (text "5")
    ∷ says (text "6")
    ∷ says (text "7")
    ∷ says (text "8")
    ∷ []

abbrev input : PromptInput numbers
input =
    record (prompt_input numbers warm last_inspection (text "baik")
      (asking (text "m1") (text "i1") (text "Aman?"))) { history = talk }

capped_history_lem_example :
    (8 ≤ length talk → length (capped_history talk) ≡ 8)
    × ((earlier : List Turn) × (talk ≡ earlier ++ capped_history talk))
    × (length talk ≤ 8 → capped_history talk ≡ talk)
capped_history_lem_example = capped_history_lem talk

abbrev spaced : List Text
spaced = text "FAKTA:" ∷ [] ∷ text "  " ∷ text "Selesai." ∷ []

render_prompt_lem_example :
    render_prompt numbers input ≡ join (prompt_lines numbers input) line_feed ++ line_feed
render_prompt_lem_example = render_prompt_lem numbers input
