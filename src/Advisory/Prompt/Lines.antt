-- ===== src/Advisory/Prompt/Lines.antt =====
-- What each line of the template adds to the prompt.
use mathlib.Core.List.{append-nil}
use audiax_backend.Common.{◌≡◌, refl, Bool, true, false, ◌||◌, List, [], ◌∷◌, ◌++◌, if◌then◌else◌}
use audiax_backend.Common.Text.{Text, text, ◌==◌, is_empty, is_space, trim_space}
use audiax_backend.Common.Text.Decimal.{itoa}
use audiax_backend.Floats.{Floats}
use audiax_backend.Advisory.Prompt.{
  PromptInput, drive_label, recency_label, age_label, humanise, format_z, format_ya_tidak,
  scalar_values,
}
use audiax_backend.Advisory.Prompt.Placeholders.{
  get, pieces, shape, substitute, dropped_by_empty_placeholder,
}
use audiax_backend.Advisory.Prompt.Segments.{Adds, Adds-line, Adds-optional}

or-false : (b : Bool) → (b || false) ≡ b
or-false true = refl
or-false false = refl

-- A fact that is left out when it is empty.
abbrev pub if_known : Text → Text → List Text
if_known fact line = if is_empty fact then [] else line ∷ []

module _ (fl : Floats) (i : PromptInput fl) where
  abbrev pub z_line : Text
  z_line =
      text "  z: "
      ++ (format_z fl i.z
          ++ (text " (ambang: warning "
              ++ (fl.format1 i.z_warning_threshold
                  ++ (text ", kritis " ++ (fl.format1 i.z_critical_threshold ++ text ")")))))

  engine : Unit {0}
  unfolding trim_space is_space ◌==◌ pieces shape get substitute dropped_by_empty_placeholder
      scalar_values
  engine = tt

  pub Adds-status :
      Adds fl i (text "  status: {status}" ∷ []) ((text "  status: " ++ i.status) ∷ [])
  unfolding engine
  Adds-status =
      rw (append-nil (i.status)) at (Adds-line fl i (text "  status: {status}") refl refl refl)

  pub Adds-penggerak :
      Adds fl i
        (text "  penggerak: {drive_type}" ∷ [])
        ((text "  penggerak: " ++ humanise drive_label i.drive_type) ∷ [])
  unfolding engine
  Adds-penggerak =
      rw (append-nil (humanise drive_label i.drive_type)) at
        (Adds-line fl i (text "  penggerak: {drive_type}") refl refl refl)

  pub Adds-terakhir_dirawat :
      Adds fl i
        (text "  terakhir_dirawat: {recency}" ∷ [])
        ((text "  terakhir_dirawat: " ++ humanise recency_label i.recency) ∷ [])
  unfolding engine
  Adds-terakhir_dirawat =
      rw (append-nil (humanise recency_label i.recency)) at
        (Adds-line fl i (text "  terakhir_dirawat: {recency}") refl refl refl)

  pub Adds-umur_mesin :
      Adds fl i
        (text "  umur_mesin: {machine_age}" ∷ [])
        ((text "  umur_mesin: " ++ humanise age_label i.machine_age) ∷ [])
  unfolding engine
  Adds-umur_mesin =
      rw (append-nil (humanise age_label i.machine_age)) at
        (Adds-line fl i (text "  umur_mesin: {machine_age}") refl refl refl)

  pub Adds-jam_operasi_harian :
      Adds fl i
        (text "  jam_operasi_harian: {hours_per_day}" ∷ [])
        ((text "  jam_operasi_harian: " ++ i.hours_per_day) ∷ [])
  unfolding engine
  Adds-jam_operasi_harian =
      rw (append-nil (i.hours_per_day)) at
        (Adds-line fl i (text "  jam_operasi_harian: {hours_per_day}") refl refl refl)

  pub Adds-ada_cadangan :
      Adds fl i
        (text "  ada_cadangan: {has_backup}" ∷ [])
        ((text "  ada_cadangan: " ++ format_ya_tidak i.has_backup) ∷ [])
  unfolding engine
  Adds-ada_cadangan =
      rw (append-nil (format_ya_tidak i.has_backup)) at
        (Adds-line fl i (text "  ada_cadangan: {has_backup}") refl refl refl)

  pub Adds-kondisi_muatan :
      Adds fl i
        (text "  kondisi_muatan: {load_state}" ∷ [])
        ((text "  kondisi_muatan: " ++ i.load_state) ∷ [])
  unfolding engine
  Adds-kondisi_muatan =
      rw (append-nil (i.load_state)) at
        (Adds-line fl i (text "  kondisi_muatan: {load_state}") refl refl refl)

  pub Adds-urgensi :
      Adds fl i (text "  urgensi: {urgency}" ∷ []) ((text "  urgensi: " ++ i.cell.urgency) ∷ [])
  unfolding engine
  Adds-urgensi =
      rw (append-nil (i.cell.urgency)) at
        (Adds-line fl i (text "  urgensi: {urgency}") refl refl refl)

  pub Adds-gerbang_keselamatan :
      Adds fl i
        (text "  gerbang_keselamatan: {safety_gate}" ∷ [])
        ((text "  gerbang_keselamatan: " ++ i.cell.safety_gate) ∷ [])
  unfolding engine
  Adds-gerbang_keselamatan =
      rw (append-nil (i.cell.safety_gate)) at
        (Adds-line fl i (text "  gerbang_keselamatan: {safety_gate}") refl refl refl)

  pub Adds-eskalasi_bila :
      Adds fl i
        (text "  eskalasi_bila: {escalate_if}" ∷ [])
        ((text "  eskalasi_bila: " ++ i.cell.escalate_if) ∷ [])
  unfolding engine
  Adds-eskalasi_bila =
      rw (append-nil (i.cell.escalate_if)) at
        (Adds-line fl i (text "  eskalasi_bila: {escalate_if}") refl refl refl)

  pub Adds-periksa_lagi_dalam_jam :
      Adds fl i
        (text "  periksa_lagi_dalam_jam: {recheck_hours}" ∷ [])
        ((text "  periksa_lagi_dalam_jam: " ++ itoa i.cell.recheck_hours) ∷ [])
  unfolding engine
  Adds-periksa_lagi_dalam_jam =
      rw (append-nil (itoa i.cell.recheck_hours)) at
        (Adds-line fl i (text "  periksa_lagi_dalam_jam: {recheck_hours}") refl refl refl)

  pub Adds-pertanyaan :
      Adds fl i
        (text "PERTANYAAN: {user_message}" ∷ [])
        ((text "PERTANYAAN: " ++ i.user_message) ∷ [])
  unfolding engine
  Adds-pertanyaan =
      rw (append-nil (i.user_message)) at
        (Adds-line fl i (text "PERTANYAAN: {user_message}") refl refl refl)

  pub Adds-z :
      Adds fl i
        (text "  z: {z} (ambang: warning {z_warning}, kritis {z_critical})" ∷ [])
        (if_known (format_z fl i.z) z_line)
  unfolding engine
  Adds-z = rw or-false at (
      Adds-optional fl i (text "  z: {z} (ambang: warning {z_warning}, kritis {z_critical})") refl
        refl)

  pub Adds-indikator_dominan :
      Adds fl i
        (text "  indikator_dominan: {dominant_indicator}" ∷ [])
        (if_known i.dominant_indicator (text "  indikator_dominan: " ++ i.dominant_indicator))
  unfolding engine
  Adds-indikator_dominan = rw (append-nil i.dominant_indicator) at (
      rw or-false at
        (Adds-optional fl i (text "  indikator_dominan: {dominant_indicator}") refl refl))

  pub Adds-kualitas_kalibrasi :
      Adds fl i
        (text "  kualitas_kalibrasi: {calibration_quality}" ∷ [])
        (if_known i.calibration_quality (text "  kualitas_kalibrasi: " ++ i.calibration_quality))
  unfolding engine
  Adds-kualitas_kalibrasi = rw (append-nil i.calibration_quality) at (
      rw or-false at
        (Adds-optional fl i (text "  kualitas_kalibrasi: {calibration_quality}") refl refl))

  pub Adds-fakta :
      Adds fl i
        (text "FAKTA (tidak boleh diubah atau ditambah):" ∷ [])
        (text "FAKTA (tidak boleh diubah atau ditambah):" ∷ [])
  unfolding engine
  Adds-fakta = Adds-line fl i (text "FAKTA (tidak boleh diubah atau ditambah):") refl refl refl

  pub Adds-keputusan :
      Adds fl i
        (text "KEPUTUSAN SISTEM (tidak boleh diubah):" ∷ [])
        (text "KEPUTUSAN SISTEM (tidak boleh diubah):" ∷ [])
  unfolding engine
  Adds-keputusan = Adds-line fl i (text "KEPUTUSAN SISTEM (tidak boleh diubah):") refl refl refl

  pub Adds-blank : Adds fl i ([] ∷ []) ([] ∷ [])
  unfolding engine
  Adds-blank = Adds-line fl i [] refl refl refl
