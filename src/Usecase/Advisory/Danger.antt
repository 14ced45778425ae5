-- ===== src/Usecase/Advisory/Danger.antt =====
-- What an operator who reports a danger is told.
use audiax_backend.Common.{◌≡◌, refl, ◌∙◌, inl, inr, true, ◌++◌}
use audiax_backend.Common.Text.{Text}
use audiax_backend.Constants.{status_critical, advisory_source_fallback_static, triage_disclaimer}
use audiax_backend.Exec.{Result, ok}
use audiax_backend.Floats.{Floats}
use audiax_backend.Entity.{Inspection}
use audiax_backend.Model.{AdvisoryMessageRequest, AdvisoryMessageResponse}
use audiax_backend.Advisory.Table.Coverage.{table_covers_statuses, critical_answer, stop_first}
use audiax_backend.Advisory.Static.{static_reply}
use audiax_backend.Advisory.Static.Sections.{static_answer_gate}
use audiax_backend.Usecase.Ports.{LlmProvider}
use audiax_backend.Advisory.Guard.{LlmOutput}
use audiax_backend.Usecase.Advisory.Access.{Admitted, baseline_read, send_admitted}
use audiax_backend.Usecase.Advisory.{
  to_response, calibration_quality_for, AdvisoryUseCase, contains_danger_keyword, combo_for,
  deref_or_empty, calibration_quality_for, send_danger, send,
}

-- The answer to a danger: escalated, with a technician, marked as not the model's, and its first
-- words say to stop the machine.
pub record IsAlarm (r : AdvisoryMessageResponse) : Type 0 where
  pub escalated : r.escalated ≡ true
  pub needs_technician : r.needs_technician ≡ true
  pub source : r.source ≡ advisory_source_fallback_static
  pub disclaimer : r.disclaimer ≡ triage_disclaimer
  pub rest : Text
  pub stops_first : r.reply ≡ stop_first ++ rest

module _ {fl : Floats} {W : Type 0} (uc : AdvisoryUseCase fl W)
    (request : AdvisoryMessageRequest) where
  send_danger_lem :
      (inspection : Inspection fl) (w : W)
      → (r : AdvisoryMessageResponse) × (send_danger uc inspection request w ≡ (ok r, w))
        × IsAlarm r
  unfolding send_danger static_reply
  send_danger_lem inspection w =
      let q = combo_for status_critical (deref_or_empty inspection.dominant_indicator) request in
      let (c, found) = table_covers_statuses q (inr (inr (inl refl))) in
      let (technician, gate) = critical_answer q c refl found in
      let (rest, starts) = static_answer_gate c (λ e. cc (gate, e)) in
      (
        to_response (record (static_reply c) { escalated = true }) advisory_source_fallback_static,
        rw found refl,
        record {
          escalated = refl;
          needs_technician = technician;
          source = refl;
          disclaimer = refl;
          rest = rest;
          stops_first = rw gate at starts;
        },
      )

  -- An admitted request whose message holds a danger keyword is answered, whatever the inspection
  -- says: the answer is an alarm, and the world is left as the reads before it left it.
  pub danger-IsAlarm :
      (w : W) (a : Admitted uc request w)
      → contains_danger_keyword uc.unicode request.user_message ≡ true
      → (r : AdvisoryMessageResponse) × (send uc request w
          ≡ (ok r, (baseline_read uc request w a).1))
        × IsAlarm r
  danger-IsAlarm w a danger =
      let (r, sent, alarm) = send_danger_lem a.inspection (baseline_read uc request w a).1 in
      (r, send_admitted uc request w a ∙ (rw danger sent), alarm)

  -- With a danger keyword in the message the model has no part in the result, be it an answer or an
  -- error: another provider and another reading of completions give the same result and world.
  pub danger_ignores_llm :
      (llm : LlmProvider W) (decode : Text → Result LlmOutput) (w : W)
      → contains_danger_keyword uc.unicode request.user_message ≡ true
      → send (record uc { llm = llm; decode = decode }) request w ≡ send uc request w
  unfolding send calibration_quality_for send_danger
  danger_ignores_llm llm decode w danger = rw danger refl
