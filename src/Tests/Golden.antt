-- ===== src/Tests/Golden.antt =====
-- internal/advisory/golden_prompt_test.go: the prompt of testdata/golden_prompt_no_history.txt.
use audiax_backend.Common.{◌≡◌, refl, false, some, List, [], ◌∷◌, ◌++◌}
use audiax_backend.Common.Text.{
  Text, text, ◌==◌, is_space, trim_left, trim_space, split, count, join,
}
use audiax_backend.Common.Text.Decimal.{itoa}
use audiax_backend.Constants.{status_warning}
use audiax_backend.Exec.{Result, ok, err}
use audiax_backend.Advisory.{Cell}
use audiax_backend.Advisory.Rules.{
  Combo, parts_match, cell_matches, wildcard_count, least, least_wildcards, first_cell, lookup,
}
use audiax_backend.Advisory.Table.{decision_table}
use audiax_backend.Advisory.Prompt.{
  PromptInput, humanise, scalar_values, drop_preceding_header, render_checklist, capped_history,
  render_history, collapse_from, collapse_blank_runs, render_line, render_lines, template_lines,
  line_feed, render_prompt,
}
use audiax_backend.Advisory.Prompt.Placeholders.{
  get, shape, pieces, substitute, dropped_by_empty_placeholder,
}
use audiax_backend.Tests.World.{numbers}

abbrev combo : Combo
combo = record {
  status = status_warning;
  indicator = text "crest_factor";
  drive = text "belt";
  recency = text ">6bln";
}

abbrev input : Cell → PromptInput numbers
input cell = record {
  status = status_warning;
  z = some 340;
  z_warning_threshold = 300;
  z_critical_threshold = 600;
  dominant_indicator = text "crest_factor";
  calibration_quality = text "baik";
  drive_type = text "belt";
  recency = text ">6bln";
  machine_age = text "3-5th";
  hours_per_day = text ">8";
  has_backup = false;
  load_state = text "bermuatan";
  cell = cell;
  history = [];
  user_message = text "sabuknya udah kenceng kok, tapi tadi ada bau gosong dikit";
}

abbrev rendered : Result Cell → Text
rendered (ok cell) = render_prompt numbers (input cell)
rendered (err e) = []

abbrev golden : List Text
golden =
    text "FAKTA (tidak boleh diubah atau ditambah):"
    ∷ text "  status: WARNING"
    ∷ text "  z: 3.4 (ambang: warning 3.0, kritis 6.0)"
    ∷ text "  indikator_dominan: crest_factor"
    ∷ text "  kualitas_kalibrasi: baik"
    ∷ text "  penggerak: sabuk-puli"
    ∷ text "  terakhir_dirawat: >6 bulan"
    ∷ text "  umur_mesin: 3-5 tahun"
    ∷ text "  jam_operasi_harian: >8"
    ∷ text "  ada_cadangan: tidak"
    ∷ text "  kondisi_muatan: bermuatan"
    ∷ []
    ∷ text "KEPUTUSAN SISTEM (tidak boleh diubah):"
    ∷ text "  urgensi: rencanakan_dalam_48_jam"
    ∷ text
        "  gerbang_keselamatan: Matikan mesin dan tunggu impeler berhenti total sebelum memeriksa apa pun."
    ∷ text "  langkah:"
    ∷ text
        "    1. Periksa ketegangan sabuk - tekan di tengah, lendutan wajar sekitar 1 cm per 100 cm jarak puli."
    ∷ text "    2. Lihat permukaan sabuk: retak, mengkilap, atau serat terkelupas."
    ∷ text "    3. Cek baut dudukan motor dan blower, kencangkan yang longgar."
    ∷ text "    4. Raba rumah bearing (mesin mati): terasa jauh lebih panas dari biasanya?"
    ∷ text
        "  eskalasi_bila: Kalau semua hal di atas terlihat normal tapi besok statusnya tetap WARNING, panggil teknisi."
    ∷ text "  periksa_lagi_dalam_jam: 48"
    ∷ []
    ∷ text "PERTANYAAN: sabuknya udah kenceng kok, tapi tadi ada bau gosong dikit"
    ∷ []

golden_prompt : rendered (lookup decision_table combo) ≡ join golden line_feed ++ line_feed
unfolding lookup first_cell decision_table cell_matches parts_match split ◌==◌ least_wildcards least
    wildcard_count count render_prompt render_lines render_line scalar_values humanise get shape
    pieces substitute dropped_by_empty_placeholder drop_preceding_header render_checklist
    capped_history render_history collapse_from collapse_blank_runs template_lines join is_space
    trim_left trim_space itoa
golden_prompt = refl
