-- ===== src/Advisory/Prompt.antt =====
-- internal/advisory/prompt.go: the prompt, rendered from prompt_template.txt. The scan of a line for
-- placeholders is in `Placeholders`.
pub mod Placeholders
pub mod Blanks
pub mod History
pub mod Segments
pub mod Lines
pub mod Layout
pub mod Rendered
use audiax_backend.Common.{
  ℕ, zero, suc, ◌+◌, ◌-◌, Bool, true, false, not, ◌&&◌, Option, none, some, List, [], ◌∷◌, ◌++◌,
  leb, length, drop, if◌then◌else◌,
}
use audiax_backend.Common.Text.{Text, text, ◌==◌, is_blank, trim_space, split, join}
use audiax_backend.Common.Text.Decimal.{itoa}
use audiax_backend.Constants.{advisory_max_history_turns}
use audiax_backend.Floats.{Floats}
use audiax_backend.Advisory.{Cell}
use Placeholders.{Values, get, substitute, dropped_by_empty_placeholder}

pub record Turn : Type 0 where
  pub role : Text
  pub content : Text

pub record PromptInput (fl : Floats) : Type 0 where
  pub status : Text
  pub z : Option fl.Float
  pub z_warning_threshold : fl.Float
  pub z_critical_threshold : fl.Float
  pub dominant_indicator : Text
  pub calibration_quality : Text
  pub drive_type : Text
  pub recency : Text
  pub machine_age : Text
  pub hours_per_day : Text
  pub has_backup : Bool
  pub load_state : Text
  pub cell : Cell
  pub history : List Turn
  pub user_message : Text

abbrev pub drive_label : Values
drive_label =
    (text "belt", text "sabuk-puli")
    ∷ (text "direct-coupled", text "kopling langsung")
    ∷ (text "direct-drive", text "direct-drive")
    ∷ []

abbrev pub recency_label : Values
recency_label =
    (text "<1bln", text "<1 bulan")
    ∷ (text "1-6bln", text "1-6 bulan")
    ∷ (text ">6bln", text ">6 bulan")
    ∷ (text "tidak-tahu", text "tidak tahu")
    ∷ []

abbrev pub age_label : Values
age_label =
    (text "<1th", text "<1 tahun")
    ∷ (text "1-3th", text "1-3 tahun")
    ∷ (text "3-5th", text "3-5 tahun")
    ∷ (text ">5th", text ">5 tahun")
    ∷ []

-- an unknown code is passed through
unfoldable pub humanise : Values → Text → Text
humanise [] code = code
humanise ((k, label) ∷ labels) code = if k == code then label else humanise labels code

abbrev pub format_z : (fl : Floats) → Option fl.Float → Text
format_z fl none = []
format_z fl (some z) = fl.format1 z

abbrev pub format_ya_tidak : Bool → Text
format_ya_tidak true = text "ya"
format_ya_tidak false = text "tidak"

unfoldable pub scalar_values : (fl : Floats) → PromptInput fl → Values
scalar_values fl i =
    (text "status", i.status)
    ∷ (text "z", format_z fl i.z)
    ∷ (text "z_warning", fl.format1 i.z_warning_threshold)
    ∷ (text "z_critical", fl.format1 i.z_critical_threshold)
    ∷ (text "dominant_indicator", i.dominant_indicator)
    ∷ (text "calibration_quality", i.calibration_quality)
    ∷ (text "drive_type", humanise drive_label i.drive_type)
    ∷ (text "recency", humanise recency_label i.recency)
    ∷ (text "machine_age", humanise age_label i.machine_age)
    ∷ (text "hours_per_day", i.hours_per_day)
    ∷ (text "has_backup", format_ya_tidak i.has_backup)
    ∷ (text "load_state", i.load_state)
    ∷ (text "urgency", i.cell.urgency)
    ∷ (text "safety_gate", i.cell.safety_gate)
    ∷ (text "escalate_if", i.cell.escalate_if)
    ∷ (text "recheck_hours", itoa i.cell.recheck_hours)
    ∷ (text "user_message", i.user_message)
    ∷ []

-- `out[:len(out)-1]` if the last line is the header
unfoldable pub drop_preceding_header : List Text → Text → List Text
drop_preceding_header [] header = []
drop_preceding_header (l ∷ []) header = if trim_space l == header then [] else l ∷ []
drop_preceding_header (l ∷ m ∷ ls) header = l ∷ drop_preceding_header (m ∷ ls) header

-- the loop of `renderChecklist`, from the index `i`
unfoldable pub render_checklist : ℕ → List Text → List Text
render_checklist i [] = []
render_checklist i (item ∷ items) =
    (text "    " ++ (itoa (i + 1) ++ (text ". " ++ item))) ∷ render_checklist (i + 1) items

unfoldable pub capped_history : List Turn → List Turn
capped_history history =
    if leb (length history) advisory_max_history_turns
    then history
    else drop (length history - advisory_max_history_turns) history

unfoldable pub render_history : List Turn → List Text
render_history [] = []
render_history (turn ∷ turns) =
    (text "  "
      ++ ((if turn.role == text "user" then text "operator" else text "asisten")
          ++ (text ": " ++ turn.content)))
    ∷ render_history turns

-- the loop of `collapseBlankRuns`
unfoldable pub collapse_from : Bool → List Text → List Text
collapse_from prev_blank [] = []
collapse_from prev_blank (l ∷ ls) =
    let kept = l ∷ collapse_from (is_blank l) ls in
    let skipped = collapse_from prev_blank ls in if is_blank l && prev_blank then skipped else kept

unfoldable pub collapse_blank_runs : List Text → List Text
collapse_blank_runs lines = collapse_from false lines

module _ (fl : Floats) (i : PromptInput fl) where
  abbrev with_checklist : List Text → List Text → List Text
  with_checklist out [] = drop_preceding_header out (text "langkah:")
  with_checklist out (item ∷ items) = out ++ render_checklist 0 (item ∷ items)

  abbrev with_history : List Text → List Turn → List Text
  with_history out [] = drop_preceding_header out (text "RIWAYAT:")
  with_history out (turn ∷ turns) = out ++ render_history (turn ∷ turns)

  -- one round of the loop over the template
  unfoldable pub render_line : List Text → Text → List Text
  render_line out line =
      if trim_space line == text "{checklist}"
      then with_checklist out i.cell.checklist
      else if trim_space line == text "{history}"
      then with_history out (capped_history i.history)
      else if dropped_by_empty_placeholder line (scalar_values fl i)
      then out
      else out ++ substitute line (scalar_values fl i) ∷ []

  unfoldable pub render_lines : List Text → List Text → List Text
  render_lines out [] = out
  render_lines out (line ∷ lines) = render_lines (render_line out line) lines

-- prompt_template.txt, each line of which ends in a line feed
unfoldable pub template_lines : List Text
template_lines =
    text "FAKTA (tidak boleh diubah atau ditambah):"
    ∷ text "  status: {status}"
    ∷ text "  z: {z} (ambang: warning {z_warning}, kritis {z_critical})"
    ∷ text "  indikator_dominan: {dominant_indicator}"
    ∷ text "  kualitas_kalibrasi: {calibration_quality}"
    ∷ text "  penggerak: {drive_type}"
    ∷ text "  terakhir_dirawat: {recency}"
    ∷ text "  umur_mesin: {machine_age}"
    ∷ text "  jam_operasi_harian: {hours_per_day}"
    ∷ text "  ada_cadangan: {has_backup}"
    ∷ text "  kondisi_muatan: {load_state}"
    ∷ []
    ∷ text "KEPUTUSAN SISTEM (tidak boleh diubah):"
    ∷ text "  urgensi: {urgency}"
    ∷ text "  gerbang_keselamatan: {safety_gate}"
    ∷ text "  langkah:"
    ∷ text "{checklist}"
    ∷ text "  eskalasi_bila: {escalate_if}"
    ∷ text "  periksa_lagi_dalam_jam: {recheck_hours}"
    ∷ []
    ∷ text "RIWAYAT:"
    ∷ text "{history}"
    ∷ []
    ∷ text "PERTANYAAN: {user_message}"
    ∷ []

abbrev pub line_feed : Text
line_feed = 10 ∷ []

unfoldable pub render_prompt : (fl : Floats) → PromptInput fl → Text
render_prompt fl i =
    join (collapse_blank_runs (render_lines fl i [] template_lines)) line_feed ++ line_feed
