-- ===== src/Advisory/Prompt/Layout.antt =====
-- The prompt as one explicit list of lines.
use audiax_backend.Common.{List, [], ◌∷◌, ◌++◌}
use audiax_backend.Common.Text.{Text, text}
use audiax_backend.Common.Text.Decimal.{itoa}
use audiax_backend.Floats.{Floats}
use audiax_backend.Advisory.Prompt.{
  PromptInput, drive_label, recency_label, age_label, humanise, format_z, format_ya_tidak,
  capped_history, template_lines,
}
use audiax_backend.Advisory.Prompt.Segments.{
  Adds, Adds-append, checklist_section, history_section, Adds-checklist, Adds-history,
}
use audiax_backend.Advisory.Prompt.Lines.{
  if_known, z_line, Adds-ada_cadangan, Adds-blank, Adds-eskalasi_bila, Adds-fakta,
  Adds-gerbang_keselamatan, Adds-indikator_dominan, Adds-jam_operasi_harian, Adds-keputusan,
  Adds-kondisi_muatan, Adds-kualitas_kalibrasi, Adds-penggerak, Adds-periksa_lagi_dalam_jam,
  Adds-pertanyaan, Adds-status, Adds-terakhir_dirawat, Adds-umur_mesin, Adds-urgensi, Adds-z,
}

module _ (fl : Floats) (i : PromptInput fl) where
  -- FAKTA: the three facts that may be unknown are left out when they are.
  abbrev pub facts : List Text
  facts =
      text "FAKTA (tidak boleh diubah atau ditambah):"
      ∷ (text "  status: " ++ i.status)
      ∷ (if_known (format_z fl i.z) (z_line fl i)
          ++ (if_known i.dominant_indicator (text "  indikator_dominan: " ++ i.dominant_indicator)
              ++ (if_known i.calibration_quality
                    (text "  kualitas_kalibrasi: " ++ i.calibration_quality)
                  ++ ((text "  penggerak: " ++ humanise drive_label i.drive_type)
                      ∷ (text "  terakhir_dirawat: " ++ humanise recency_label i.recency)
                      ∷ (text "  umur_mesin: " ++ humanise age_label i.machine_age)
                      ∷ (text "  jam_operasi_harian: " ++ i.hours_per_day)
                      ∷ (text "  ada_cadangan: " ++ format_ya_tidak i.has_backup)
                      ∷ (text "  kondisi_muatan: " ++ i.load_state)
                      ∷ []))))

  -- KEPUTUSAN: the decision of the table, with its checklist if it has one.
  abbrev pub decision : List Text
  decision =
      text "KEPUTUSAN SISTEM (tidak boleh diubah):"
      ∷ (text "  urgensi: " ++ i.cell.urgency)
      ∷ (text "  gerbang_keselamatan: " ++ i.cell.safety_gate)
      ∷ (checklist_section fl i i.cell.checklist
          ++ ((text "  eskalasi_bila: " ++ i.cell.escalate_if)
              ∷ (text "  periksa_lagi_dalam_jam: " ++ itoa i.cell.recheck_hours)
              ∷ []))

  abbrev pub riwayat : List Text
  riwayat = history_section fl i (capped_history i.history)

  abbrev pub question : List Text
  question = (text "PERTANYAAN: " ++ i.user_message) ∷ []

  -- The lines before blank runs are collapsed.
  abbrev pub raw_lines : List Text
  raw_lines = facts ++ ([] ∷ (decision ++ ([] ∷ (riwayat ++ ([] ∷ question)))))

  infixr 60 ◌⊕◌
  abbrev ◌⊕◌ :
      {ls ms xs ys : List Text}
      → Adds fl i ls xs
      → Adds fl i ms ys
      → Adds fl i (ls ++ ms) (xs ++ ys)
  a ⊕ b = Adds-append fl i a b

  -- The template adds these lines to an empty prompt.
  pub Adds-template : Adds fl i template_lines raw_lines
  unfolding template_lines
  Adds-template =
      let known =
        Adds-z fl i
        ⊕ (Adds-indikator_dominan fl i
            ⊕ (Adds-kualitas_kalibrasi fl i
                ⊕ (Adds-penggerak fl i
                    ⊕ (Adds-terakhir_dirawat fl i
                        ⊕ (Adds-umur_mesin fl i
                            ⊕ (Adds-jam_operasi_harian fl i
                                ⊕ (Adds-ada_cadangan fl i ⊕ Adds-kondisi_muatan fl i))))))) in
      let decided =
        Adds-keputusan fl i
        ⊕ (Adds-urgensi fl i
            ⊕ (Adds-gerbang_keselamatan fl i
                ⊕ (Adds-checklist fl i
                    ⊕ (Adds-eskalasi_bila fl i ⊕ Adds-periksa_lagi_dalam_jam fl i)))) in
      (Adds-fakta fl i ⊕ (Adds-status fl i ⊕ known))
      ⊕ (Adds-blank fl i
          ⊕ (decided
              ⊕ (Adds-blank fl i ⊕ (Adds-history fl i ⊕ (Adds-blank fl i ⊕ Adds-pertanyaan fl i)))))
