-- ===== src/Usecase/Advisory/Source.antt =====
-- Where the answer to a message without a danger keyword comes from.
use audiax_backend.Common.{◌≡◌, refl, ◌∙◌, ◌⊎◌, inl, inr, false, In}
use audiax_backend.Common.Text.{Text}
use audiax_backend.Constants.{advisory_source_llm, advisory_source_fallback_static}
use audiax_backend.Exec.{Result, ok, err}
use audiax_backend.Floats.{Floats}
use audiax_backend.Entity.{Inspection}
use audiax_backend.Model.{AdvisoryMessageRequest, AdvisoryMessageResponse}
use audiax_backend.Advisory.{Cell, Reply}
use audiax_backend.Advisory.Rules.{Combo, lookup}
use audiax_backend.Advisory.Table.{decision_table}
use audiax_backend.Advisory.Table.Coverage.{table_covers_statuses, statuses}
use audiax_backend.Advisory.Static.{static_reply}
use audiax_backend.Advisory.Prompt.{render_prompt}
use audiax_backend.Advisory.Guard.{guard}
use audiax_backend.Advisory.Guard.Checks.{IsVetted, guard_accepts_iff}
use audiax_backend.Usecase.Advisory.{
  AdvisoryUseCase, contains_danger_keyword, combo_for, deref_or_empty, allowed_numbers_for,
  prompt_input, judged, answered, to_response, reply, send_usual, send, quality_of,
}
use audiax_backend.Usecase.Advisory.Access.{Admitted, baseline_read, send_admitted}

module _ {fl : Floats} {W : Type 0} (uc : AdvisoryUseCase fl W) (inspection : Inspection fl)
    (cell : Cell) where
  -- The answer is a completion that the guard let through, or the static reply of the cell, and
  -- the source says which.
  abbrev pub ComesFrom : Result Text → Reply × Text → Type 0
  ComesFrom completion (r, source) =
      ((text : Text) × (completion ≡ ok text)
        × IsVetted uc.unicode fl cell (allowed_numbers_for fl inspection) (uc.decode text) r
        × (source ≡ advisory_source_llm))
      ⊎ ((r ≡ static_reply cell) × (source ≡ advisory_source_fallback_static))

  judged-ComesFrom :
      (text : Text) (v : Result Reply)
      → guard uc.unicode fl uc.decode text cell (allowed_numbers_for fl inspection) ≡ v
      → ComesFrom (ok text) (judged uc cell v)
  judged-ComesFrom text (ok r) e = inl (
    text,
    refl,
    (guard_accepts_iff uc.unicode fl cell (allowed_numbers_for fl inspection) uc.decode text r).0 e,
    refl,
  )
  judged-ComesFrom text (err x) e = inr (refl, refl)

  answered-ComesFrom :
      (completion : Result Text) → ComesFrom completion (answered uc cell inspection completion)
  answered-ComesFrom (ok text) = judged-ComesFrom text _ refl
  answered-ComesFrom (err e) = inr (refl, refl)

  ComesFrom-flags :
      (completion : Result Text) (a : Reply × Text)
      → ComesFrom completion a
      → (a.0.escalated ≡ false) × (a.0.needs_technician ≡ cell.needs_technician)
  unfolding static_reply
  ComesFrom-flags completion (r, source) (inl (text, _, v, _)) = rw v.replied (refl, refl)
  ComesFrom-flags completion (r, source) (inr (e, _)) = rw e (refl, refl)

module _ {fl : Floats} {W : Type 0} (uc : AdvisoryUseCase fl W)
    (request : AdvisoryMessageRequest) where
  -- The combination that the table is asked for: the status and the indicator of the stored row.
  abbrev pub stored_combo : Inspection fl → Combo
  stored_combo inspection =
      combo_for inspection.status (deref_or_empty inspection.dominant_indicator) request

  -- The call of the model, from the world behind the reads.
  abbrev pub model_call : (w : W) → Admitted uc request w → Cell → Result Text × W
  model_call w a cell =
      uc.llm.complete
        (render_prompt fl
          (prompt_input fl cell a.inspection (quality_of (baseline_read uc request w a).0) request))
        (baseline_read uc request w a).1

  pub record IsAnswered (w : W) (a : Admitted uc request w) (r : AdvisoryMessageResponse)
      : Type 0 where
    pub cell : Cell
    pub decided : lookup decision_table (stored_combo a.inspection) ≡ ok cell
    pub reply : Reply
    pub source : Text
    pub responded : r ≡ to_response reply source
    pub provenance : ComesFrom uc a.inspection cell (model_call w a cell).0 (reply, source)
    pub not_escalated : reply.escalated ≡ false
    pub technician : reply.needs_technician ≡ cell.needs_technician
    pub sent : send uc request w ≡ (ok r, (model_call w a cell).1)

  -- An admitted request without a danger keyword, on an inspection with one of the four statuses, is
  -- always answered, whatever the model does: with a completion that passed the guard and the source
  -- "llm", or with the static reply and the source "fallback_static". The cell is the table's
  -- answer for the status and indicator of the stored inspection, the flag for a technician is the
  -- cell's, and the answer is not escalated.
  pub send-IsAnswered :
      (w : W) (a : Admitted uc request w)
      → contains_danger_keyword uc.unicode request.user_message ≡ false
      → In a.inspection.status statuses
      → (r : AdvisoryMessageResponse) × IsAnswered w a r
  unfolding send_usual reply
  send-IsAnswered w a safe known =
      let (cell, decided) = table_covers_statuses (stored_combo a.inspection) known in
      let answer = answered uc cell a.inspection (model_call w a cell).0 in
      let from = answered-ComesFrom uc a.inspection cell (model_call w a cell).0 in
      let (calm, technician) =
        ComesFrom-flags uc a.inspection cell (model_call w a cell).0 answer from in
      (
        to_response answer.0 answer.1,
        record {
          cell = cell;
          decided = decided;
          reply = answer.0;
          source = answer.1;
          responded = refl;
          provenance = from;
          not_escalated = calm;
          technician = technician;
          sent = send_admitted uc request w a ∙ rw (safe, decided) refl;
        },
      )
