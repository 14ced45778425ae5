-- ===== src/Usecase/Inspection/Evidence.antt =====
-- The card of an inspection, and the clip behind it.
use audiax_backend.Common.{◌≡◌, refl, ◌≢◌, true, false, [], ◌∷◌, none}
use audiax_backend.Common.Text.{Text, text}
use audiax_backend.Errors.{Error, rejected, wrap, record_not_found, is, as_rejected, as_validation}
use audiax_backend.Exec.{Result, ok, err, pure, on_error, ◌>>=◌}
use audiax_backend.Floats.{Floats}
use audiax_backend.Entity.{Machine, Baseline, Inspection}
use audiax_backend.Model.{AudioRequest, AiHealthCard, InspectionResponse, inspection_to_response}
use audiax_backend.Usecase.Codec.{Codec}
use audiax_backend.Usecase.Ports.{ObjectStore}
use audiax_backend.Usecase.Validation.{validate_struct}
use audiax_backend.Usecase.Inspection.{
  InspectionUseCase, is_anomalous, disclaimer_of, keep_evidence, health_card, record_card, inspect,
  no_baseline, uncalibrated_reason,
}
use audiax_backend.Http.ErrorHandler.{respond, error_handler}

module _ {fl : Floats} {c : Codec} {W : Type 0} (uc : InspectionUseCase fl c W)
    (request : AudioRequest) where
  -- A clip that scores neither WARNING nor CRITICAL is not uploaded: with any other object store the
  -- inspection has the same result and leaves the same world.
  pub calm_clip_not_stored :
      (store : ObjectStore W) (w : W) (machine : Machine) (baseline : Baseline)
      (card : AiHealthCard fl) (w' : W)
      → health_card uc request w ≡ (ok (machine, (baseline, card)), w')
      → is_anomalous card.status ≡ false
      → inspect (record uc { store = store }) request w ≡ inspect uc request w
  unfolding inspect record_card keep_evidence health_card
  calm_clip_not_stored store w machine baseline card w' got calm = rw (got, calm) refl

  disclaimer_given : (d : Text) → disclaimer_of d ≢ []
  disclaimer_given [] = λ e. cc
  disclaimer_given (x ∷ d) = λ e. cc

  created-disclaimer :
      (d : Text) (p : Result (Inspection fl) × W) (r : InspectionResponse fl) (w' : W)
      → ((do
        inspection ← (λ (v : W). p)
        pure (inspection_to_response fl inspection (disclaimer_of d)))
          p.1)
        ≡ (ok r, w')
      → r.disclaimer ≢ []
  created-disclaimer d (ok i, v) r w' h = λ empty. disclaimer_given d cc
  created-disclaimer d (err e, v) r w' h = cc

  kept-disclaimer :
      (d : Text) (p : Result (Inspection fl) × W) (r : InspectionResponse fl) (w' : W)
      → ((do
        inspection ← (λ (v : W). p)
        inspection ← on_error (wrap (text "create inspection: ")) (uc.inspections.create inspection)
        pure (inspection_to_response fl inspection (disclaimer_of d)))
          p.1)
        ≡ (ok r, w')
      → r.disclaimer ≢ []
  kept-disclaimer d (ok i, v) r w' h =
      created-disclaimer d
        (on_error (wrap (text "create inspection: ")) (uc.inspections.create i) v) r w' h
  kept-disclaimer d (err e, v) r w' h = cc

  carded-disclaimer :
      (p : Result (Machine × (Baseline × AiHealthCard fl)) × W) (r : InspectionResponse fl) (w' : W)
      → ((do found ← (λ (v : W). p); record_card uc request found.0 found.1.0 found.1.1) p.1)
        ≡ (ok r, w')
      → r.disclaimer ≢ []
  unfolding record_card
  carded-disclaimer (ok (machine, (baseline, card)), v) r w' h =
      kept-disclaimer card.disclaimer _ r w' h
  carded-disclaimer (err e, v) r w' h = cc

  -- No card is shipped without a disclaimer, whatever the AI service sends.
  pub card_has_disclaimer :
      (w : W) (r : InspectionResponse fl) (w' : W)
      → inspect uc request w ≡ (ok r, w')
      → r.disclaimer ≢ []
  unfolding inspect
  card_has_disclaimer w r w' h = carded-disclaimer (health_card uc request w) r w' h

  -- A valid request for a machine of the caller's without an active baseline: the AI service is not called, nothing is
  -- written, and the client is told with status 422 to calibrate.
  pub uncalibrated_is_rejected :
      (machine : Machine) (w w₁ w₂ : W) (e : Error)
      → validate_struct (uc.validate request) ≡ none
      → uc.machines.find_by_id_for_user request.machine_id request.user_id w ≡ (ok machine, w₁)
      → uc.baselines.find_active_for_machine machine.id w₁ ≡ (err e, w₂)
      → is e record_not_found ≡ true
      → (failure : Error) × (inspect uc request w ≡ (err failure, w₂))
        × (error_handler failure ≡ respond 422 uncalibrated_reason)
  unfolding inspect health_card no_baseline error_handler as_rejected as_validation
  uncalibrated_is_rejected machine w w₁ w₂ e valid owned missing gone =
      (rejected uncalibrated_reason, rw (valid, owned, missing, gone) refl, refl)
