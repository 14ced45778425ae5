-- ===== src/Advisory/Prompt/Rendered.antt =====
-- The rendered prompt is its explicit layout.
use mathlib.Core.List.{tail}
use audiax_backend.Common.{
  ℕ, ◌+◌, ◌≡◌, refl, ap, ◌∙◌, Bool, true, false, ◌&&◌, List, [], ◌∷◌, ◌++◌, all, Bool-cases, inl,
  inr,
}
use audiax_backend.Common.Text.{Text, text, ◌==◌, is_blank, is_space, join}
use audiax_backend.Common.Text.Trim.{is_blank-eq-all, all-append}
use audiax_backend.Common.Text.Decimal.{itoa}
use audiax_backend.Floats.{Floats}
use audiax_backend.Advisory.Prompt.{
  Turn, PromptInput, format_z, capped_history, render_checklist, render_history,
  collapse_blank_runs, line_feed, render_prompt,
}
use audiax_backend.Advisory.Prompt.Blanks.{Filled, with_gap, collapse_sections}
use audiax_backend.Advisory.Prompt.Segments.{checklist_section, history_section}
use audiax_backend.Advisory.Prompt.Lines.{if_known, z_line}
use audiax_backend.Advisory.Prompt.Layout.{
  facts, decision, riwayat, question, raw_lines, Adds-template,
}

filled : (l : Text) → all is_space l ≡ false → is_blank l ≡ false
filled l h = is_blank-eq-all l ∙ h

Filled-append : (xs ys : List Text) → Filled xs → Filled ys → Filled (xs ++ ys)
Filled-append [] ys h k = k
Filled-append (x ∷ xs) ys (e, h) k = (e, Filled-append xs ys h k)

Filled-if_known : (fact line : Text) → is_blank line ≡ false → Filled (if_known fact line)
Filled-if_known [] line h = tt
Filled-if_known (c ∷ fact) line h = (h, tt)

and-false : (b : Bool) → (b && false) ≡ false
and-false true = refl
and-false false = refl

step_filled :
    (n : ℕ) (item : Text) → is_blank (text "    " ++ (itoa n ++ (text ". " ++ item))) ≡ false
unfolding is_space
step_filled n item =
    filled (text "    " ++ (itoa n ++ (text ". " ++ item)))
      (all-append is_space (itoa n) (text ". " ++ item) ∙ and-false (all is_space (itoa n)))

render_checklist-Filled : (i : ℕ) (items : List Text) → Filled (render_checklist i items)
unfolding render_checklist
render_checklist-Filled i [] = tt
render_checklist-Filled i (item ∷ items) =
    (step_filled (i + 1) item, render_checklist-Filled (i + 1) items)

render_history-Filled : (turns : List Turn) → Filled (render_history turns)
unfolding render_history is_space
render_history-Filled [] = tt
render_history-Filled (turn ∷ turns) = (
  elim (Bool-cases (turn.role == text "user")) [
    | inl user ↦ rw user (filled (text "  operator: " ++ turn.content) refl)
    | inr other ↦ rw other (filled (text "  asisten: " ++ turn.content) refl)
  ],
  render_history-Filled turns,
)

module _ (fl : Floats) (i : PromptInput fl) where
  checklist-Filled : (items : List Text) → Filled (checklist_section fl i items)
  unfolding is_space
  checklist-Filled [] = tt
  checklist-Filled (item ∷ items) =
      (filled (text "  langkah:") refl, render_checklist-Filled 0 (item ∷ items))

  history-Filled : (turns : List Turn) → Filled (history_section fl i turns)
  unfolding is_space
  history-Filled [] = tt
  history-Filled (turn ∷ turns) =
      (filled (text "RIWAYAT:") refl, render_history-Filled (turn ∷ turns))

  facts-Filled : Filled (facts fl i)
  unfolding is_space
  facts-Filled = (
    filled _ refl,
    (
      filled _ refl,
      Filled-append (if_known (format_z fl i.z) (z_line fl i)) _
          (Filled-if_known (format_z fl i.z) _ (filled _ refl))
          (Filled-append (if_known i.dominant_indicator _) _
            (Filled-if_known i.dominant_indicator _ (filled _ refl))
            (Filled-append (if_known i.calibration_quality _) _
              (Filled-if_known i.calibration_quality _ (filled _ refl))
              (
                filled _ refl,
                (
                  filled _ refl,
                  (filled _ refl, (filled _ refl, (filled _ refl, (filled _ refl, tt)))),
                ),
              ))),
    ),
  )

  decision-Filled : Filled (decision fl i)
  unfolding is_space
  decision-Filled = (
    filled _ refl,
    (
      filled _ refl,
      (
        filled _ refl,
        Filled-append (checklist_section fl i i.cell.checklist) _
            (checklist-Filled i.cell.checklist) (filled _ refl, (filled _ refl, tt)),
      ),
    ),
  )

  -- The facts, the decision, the conversation if there is one, and the question, with one blank line
  -- between them.
  abbrev pub prompt_lines : List Text
  prompt_lines =
      facts fl i ++ ([] ∷ (decision fl i ++ ([] ∷ (with_gap (riwayat fl i) ++ question fl i))))

  collapse_raw_lines : collapse_blank_runs (raw_lines fl i) ≡ prompt_lines
  unfolding collapse_blank_runs is_space
  collapse_raw_lines =
      collapse_sections _ (tail (facts fl i)) _ (tail (decision fl i)) (riwayat fl i)
        (text "PERTANYAAN: " ++ i.user_message) facts-Filled decision-Filled
        (history-Filled (capped_history i.history)) (filled _ refl)

  -- The rendered prompt is the explicit layout: the facts, without those that are unknown, the
  -- decision, with its checklist if it has one, the last turns of the conversation if there are any,
  -- and the question as it was asked; one blank line between the sections, each line ended by a line
  -- feed.
  pub render_prompt_lem : render_prompt fl i ≡ join prompt_lines line_feed ++ line_feed
  unfolding render_prompt
  render_prompt_lem =
      ap (λ ls. join (collapse_blank_runs ls) line_feed ++ line_feed) ((Adds-template fl i).at [])
      ∙ ap (λ ls. join ls line_feed ++ line_feed) collapse_raw_lines
