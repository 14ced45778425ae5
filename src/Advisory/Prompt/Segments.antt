-- ===== src/Advisory/Prompt/Segments.antt =====
-- What each run of template lines adds to the prompt.
use mathlib.Core.List.{append_assoc, append-nil}
use audiax_backend.Common.{
  ◌≡◌, refl, sym, ap, ◌∙◌, true, false, List, [], ◌∷◌, ◌++◌, Bool-cases, inl, inr, if◌then◌else◌,
}
use audiax_backend.Common.Text.{Text, text, ◌==◌, is_space, trim_space}
use audiax_backend.Floats.{Floats}
use audiax_backend.Advisory.Prompt.{
  Turn, PromptInput, scalar_values, drop_preceding_header, render_checklist, capped_history,
  render_history, render_line, render_lines, with_checklist, with_history,
}
use audiax_backend.Advisory.Prompt.Placeholders.{
  Values, pieces, shape, substitute, dropped_by_empty_placeholder,
}

drop_preceding_header-concat :
    (out : List Text) (l header : Text)
    → (trim_space l == header) ≡ true
    → drop_preceding_header (out ++ l ∷ []) header ≡ out
unfolding drop_preceding_header
drop_preceding_header-concat [] l header h = rw h refl
drop_preceding_header-concat (m ∷ []) l header h = rw h refl
drop_preceding_header-concat (m ∷ n ∷ out) l header h =
    ap (λ r. m ∷ r) (drop_preceding_header-concat (n ∷ out) l header h)

module _ (fl : Floats) (i : PromptInput fl) where
  abbrev pub values : Values
  values = scalar_values fl i

  -- The lines of the template add these lines, whatever came before.
  pub record Adds (lines added : List Text) : Type 0 where
    pub at : (out : List Text) → render_lines fl i out lines ≡ out ++ added

  render_lines-append :
      (out ls ms : List Text)
      → render_lines fl i out (ls ++ ms) ≡ render_lines fl i (render_lines fl i out ls) ms
  unfolding render_lines
  render_lines-append out [] ms = refl
  render_lines-append out (l ∷ ls) ms = render_lines-append (render_line fl i out l) ls ms

  pub Adds-append : {ls ms xs ys : List Text} → Adds ls xs → Adds ms ys → Adds (ls ++ ms) (xs ++ ys)
  Adds-append {ls} {ms} {xs} {ys} a b = record {
    at = λ out.
        render_lines-append out ls ms
        ∙ (ap (λ o. render_lines fl i o ms) (a.at out)
            ∙ (b.at (out ++ xs) ∙ append_assoc out xs ys));
  }

  pub Adds-nil : Adds [] []
  unfolding render_lines
  Adds-nil = record { at = λ out. sym (append-nil out) }

  -- A line that is neither of the two list placeholders and has no empty omittable placeholder.
  pub Adds-line :
      (line : Text)
      → (trim_space line == text "{checklist}") ≡ false
      → (trim_space line == text "{history}") ≡ false
      → dropped_by_empty_placeholder line values ≡ false
      → Adds (line ∷ []) (substitute line values ∷ [])
  unfolding render_lines render_line
  Adds-line line a b c = record { at = λ out. rw (a, b, c) refl }

  pub Adds-optional :
      (line : Text)
      → (trim_space line == text "{checklist}") ≡ false
      → (trim_space line == text "{history}") ≡ false
      → Adds
          (line ∷ [])
          (if dropped_by_empty_placeholder line values then [] else substitute line values ∷ [])
  unfolding render_lines render_line
  Adds-optional line a b = elim (Bool-cases (dropped_by_empty_placeholder line values)) [
    | inl gone ↦ record { at = λ out. rw (a, b, gone) (sym (append-nil out)) }
    | inr kept ↦ record { at = λ out. rw (a, b, kept) refl }
  ]

  abbrev pub checklist_section : List Text → List Text
  checklist_section [] = []
  checklist_section (item ∷ items) = text "  langkah:" ∷ render_checklist 0 (item ∷ items)

  abbrev pub history_section : List Turn → List Text
  history_section [] = []
  history_section (turn ∷ turns) = text "RIWAYAT:" ∷ render_history (turn ∷ turns)

  langkah_header : (trim_space (text "  langkah:") == text "langkah:") ≡ true
  unfolding trim_space is_space ◌==◌
  langkah_header = refl

  riwayat_header : (trim_space (text "RIWAYAT:") == text "RIWAYAT:") ≡ true
  unfolding trim_space is_space ◌==◌
  riwayat_header = refl

  with_checklist_lem :
      (out items : List Text)
      → with_checklist fl i (out ++ text "  langkah:" ∷ []) items ≡ out ++ checklist_section items
  with_checklist_lem out [] =
      drop_preceding_header-concat out (text "  langkah:") (text "langkah:") langkah_header
      ∙ sym (append-nil out)
  with_checklist_lem out (item ∷ items) = append_assoc out (text "  langkah:" ∷ []) _

  with_history_lem :
      (out : List Text) (turns : List Turn)
      → with_history fl i (out ++ text "RIWAYAT:" ∷ []) turns ≡ out ++ history_section turns
  with_history_lem out [] =
      drop_preceding_header-concat out (text "RIWAYAT:") (text "RIWAYAT:") riwayat_header
      ∙ sym (append-nil out)
  with_history_lem out (turn ∷ turns) = append_assoc out (text "RIWAYAT:" ∷ []) _

  pub Adds-checklist :
      Adds (text "  langkah:" ∷ text "{checklist}" ∷ []) (checklist_section i.cell.checklist)
  unfolding render_lines render_line trim_space is_space ◌==◌ pieces shape substitute
      dropped_by_empty_placeholder
  Adds-checklist = record { at = λ out. with_checklist_lem out i.cell.checklist }

  pub Adds-history :
      Adds (text "RIWAYAT:" ∷ text "{history}" ∷ []) (history_section (capped_history i.history))
  unfolding render_lines render_line trim_space is_space ◌==◌ pieces shape substitute
      dropped_by_empty_placeholder
  Adds-history = record { at = λ out. with_history_lem out (capped_history i.history) }
