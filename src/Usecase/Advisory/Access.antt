-- ===== src/Usecase/Advisory/Access.antt =====
-- A request that may be answered: it is valid, and the machine and the inspection that it names are
-- found for its user. What the reads before the answer do.
use audiax_backend.Common.{◌≡◌, refl, none}
use audiax_backend.Exec.{Result, ok}
use audiax_backend.Floats.{Floats}
use audiax_backend.Entity.{Machine, Baseline, Inspection}
use audiax_backend.Model.{AdvisoryMessageRequest}
use audiax_backend.Usecase.Validation.{validate_struct}
use audiax_backend.Usecase.Advisory.{
  AdvisoryUseCase, quality_of, calibration_quality_for, send_by_message, send,
}

pub record Admitted {fl : Floats} {W : Type 0} (uc : AdvisoryUseCase fl W)
    (request : AdvisoryMessageRequest) (w : W) : Type 0 where
  pub valid : validate_struct (uc.validate request) ≡ none
  pub machine : Machine
  pub after_machine : W
  pub owned :
      uc.machines.find_by_id_for_user request.machine_id request.user_id w
      ≡ (ok machine, after_machine)
  pub inspection : Inspection fl
  pub after_inspection : W
  pub found :
      uc.inspections.find_by_id_for_machine request.inspection_id machine.id after_machine
      ≡ (ok inspection, after_inspection)

module _ {fl : Floats} {W : Type 0} (uc : AdvisoryUseCase fl W) (request : AdvisoryMessageRequest)
    (w : W) where
  -- The read of the baseline, whose failure is no failure of the turn.
  abbrev pub baseline_read : Admitted uc request w → Result Baseline × W
  baseline_read a = uc.baselines.find_by_id a.inspection.baseline_id a.after_inspection

  pub send_admitted :
      (a : Admitted uc request w)
      → send uc request w
        ≡ send_by_message uc a.inspection
            (quality_of (baseline_read a).0)
            request
            (baseline_read a).1
  unfolding send calibration_quality_for
  send_admitted a = rw (a.valid, a.owned, a.found) refl
