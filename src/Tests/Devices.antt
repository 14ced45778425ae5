-- ===== src/Tests/Devices.antt =====
-- The theorems on machines, baselines and inspections at a concrete input.
use Prim.Native.Nat.{◌^◌}
use audiax_backend.Common.{ℕ, ◌*◌, ◌<◌, ◌∷◌, ◌≡◌, refl, ◌≢◌, ◌↔◌, none, some, [], List, In}
use audiax_backend.Common.Int.{pos, mul}
use audiax_backend.Common.Text.{Text, text, ◌==◌}
use audiax_backend.Common.Text.Decimal.{itoa}
use audiax_backend.Constants.{status_normal, triage_disclaimer}
use audiax_backend.Errors.{duplicated_key, wrap, Error, sentinel, record_not_found, is}
use audiax_backend.Exec.{Exec, raise, ok, err, pure}
use audiax_backend.Entity.{Machine, Baseline}
use audiax_backend.Model.{
  AiBaseline, CreateMachineRequest, machine_to_response, InspectionResponse, MachineResponse,
}
use audiax_backend.Usecase.Validation.{validate_struct}
use audiax_backend.Usecase.Machine.{MachineUseCase, update}
use audiax_backend.Usecase.Machine.Columns.{Requests, IsAnswer, update_writes_requested}
use audiax_backend.Usecase.Baseline.{checked_columns, row}
use audiax_backend.Usecase.Baseline.Entity.{IsEncoding, checked_columns_iff}
use audiax_backend.Usecase.Inspection.{
  InspectionUseCase, record_card, keep_evidence, payload, is_anomalous, inspect, health_card,
  baseline_payload, uncalibrated_reason,
}
use audiax_backend.Usecase.Inspection.Payload.{payload_round_trip}
use audiax_backend.Usecase.Inspection.Evidence.{card_has_disclaimer, uncalibrated_is_rejected}
use audiax_backend.Http.ErrorHandler.{respond, error_handler}
use audiax_backend.Tests.World.{machines, World, ceiling_fan, baselines, numbers}
use audiax_backend.Tests.Services.{
  bytes, bytes_laws, ai_baseline, encoded, machine_use_case, inspection_use_case, recording,
  renaming,
}

update_writes_requested_example :
    (columns : List (Text × Text)) × ((name value : Text)
      → In (name, value) columns ↔ Requests (renaming (text "m1")) (name, value))
    × (columns ≡ []
        → update machine_use_case (renaming (text "m1")) []
          ≡ (ok (machine_to_response ceiling_fan), []))
    × ((given : Machine) (w : World)
        → columns ≢ []
        → machine_use_case.machines.update ceiling_fan columns [] ≡ (ok given, w)
        → (response : MachineResponse) × (update machine_use_case (renaming (text "m1")) []
            ≡ (ok response, w))
          × IsAnswer (renaming (text "m1")) given response)
unfolding ◌==◌ validate_struct
update_writes_requested_example =
    update_writes_requested machine_use_case (renaming (text "m1")) [] ceiling_fan [] refl refl

checked_columns_iff_example :
    ((checked_columns bytes ai_baseline ≡ ok encoded) ↔ IsEncoding bytes ai_baseline encoded)
    × ((n d : ℕ)
        → pos 1 ≡ pos n
        → pos 2 ≡ pos d
        → n < 2 ^ 31
        → d < 2 ^ 31
        → checked_columns bytes ai_baseline ≡ ok encoded
        → 4 ≡ n * d * 2)
checked_columns_iff_example = checked_columns_iff bytes ai_baseline encoded

-- 2^62 windows of two numbers need 2^64 bytes, which is 0 in 64 bits: no byte is enough.
abbrev enormous : AiBaseline (List ℕ) (List ℕ)
enormous = record ai_baseline {
  n_windows = pos (2 ^ 62);
  embedding_shape = pos (2 ^ 62) ∷ pos 2 ∷ [];
  embeddings_b64 = [];
}

enormous_accepted :
    checked_columns bytes enormous
    ≡ ok (record { embeddings = []; stats = 5 ∷ []; notes = b'{' ∷ []; dim = pos 2 })
unfolding checked_columns ◌==◌ mul
enormous_accepted = refl

abbrev committed : Baseline
committed = row bytes (text "id") (text "m1") 7 ai_baseline encoded

abbrev never_written : Text → Text → Exec World Unit
never_written id path = raise (sentinel record_not_found)

payload_round_trip_example :
    payload bytes (text "Kipas") committed
    ≡ ok (record ai_baseline { machine_label = text "Kipas"; notes = some [] })
unfolding checked_columns ◌==◌ itoa mul
payload_round_trip_example =
    payload_round_trip bytes bytes_laws ai_baseline encoded 7 (text "id") (text "m1") (text "Kipas")
      (text "abcd") refl refl refl refl

-- The machine has been calibrated.
abbrev with_baseline : InspectionUseCase numbers bytes World
with_baseline = record inspection_use_case {
  baselines = record baselines { find_active_for_machine = λ id. pure committed };
}

abbrev scored_normal : InspectionResponse numbers
scored_normal = record {
  id = text "id";
  machine_id = text "m1";
  baseline_id = text "id";
  status = status_normal;
  z_score = some 40;
  health_score = none;
  dominant_indicator = none;
  reason = none;
  disclaimer = triage_disclaimer;
  inspected_at = 9;
}

card_has_disclaimer_example : scored_normal.disclaimer ≢ []
unfolding ◌==◌ validate_struct health_card baseline_payload payload is_anomalous inspect record_card
    keep_evidence
card_has_disclaimer_example = card_has_disclaimer with_baseline recording [] scored_normal [] refl

uncalibrated_is_rejected_example :
    (failure : Error) × (inspect inspection_use_case recording [] ≡ (err failure, []))
    × (error_handler failure ≡ respond 422 uncalibrated_reason)
unfolding ◌==◌ validate_struct is
uncalibrated_is_rejected_example =
    uncalibrated_is_rejected inspection_use_case recording ceiling_fan [] [] []
      (sentinel record_not_found) refl refl refl refl

-- The insert breaks the unique index.
abbrev full : MachineUseCase World
full = record machine_use_case {
  machines = record machines {
    create = λ machine. raise (wrap (text "insert: ") (sentinel duplicated_key));
  };
}

abbrev naming : CreateMachineRequest
naming = record { user_id = text "u1"; label = text "Kipas"; location = none; description = none }
