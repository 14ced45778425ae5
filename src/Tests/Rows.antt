-- ===== src/Tests/Rows.antt =====
-- The theorems on the rows of baselines, over a table in memory.
use audiax_backend.Common.{
  ◌≡◌, refl, sym, ap, inl, inr, true, false, none, List, [], ◌∷◌, arith, Bool-cases,
}
use audiax_backend.Common.Int.{pos, mul}
use audiax_backend.Common.Text.{text, ◌==◌}
use audiax_backend.Common.Text.Decimal.{value_from}
use audiax_backend.Errors.{Error, record_not_found, is}
use audiax_backend.Exec.{Result, ok, err, pure}
use audiax_backend.Entity.{Baseline}
use audiax_backend.Model.{BaselineResponse}
use audiax_backend.Usecase.Validation.{valid, validate_struct}
use audiax_backend.Usecase.Ports.{MachineRepository}
use audiax_backend.Usecase.Baseline.{
  BaselineUseCase, calibrate, calibrated, find_owned_machine_for_baseline, baseline_entity,
  checked_columns, replace_baseline, store_calibration_audio,
}
use audiax_backend.Repository.Gorm.{Table}
use audiax_backend.Repository.Gorm.Laws.{TableLaws}
use audiax_backend.Repository.Schemas.{baseline_schema, baseline_text, baseline_flag, baseline_set}
use audiax_backend.Repository.Base
use audiax_backend.Repository.Baselines.{
  baseline_repository, find_active_for_machine, deactivate_all_for_machine, update_audio_path,
}
use audiax_backend.Repository.Baselines.Frame.{Frame}
use audiax_backend.Repository.Baselines.Active.{active_of, IsSingle}
use audiax_backend.Repository.Baselines.Invariant.{reachable-IsSingle, here, next, calibrating}
use audiax_backend.Repository.Baselines.Next.{calibrated_baseline_found}
use audiax_backend.Tests.World.{ceiling_fan, numbers}
use audiax_backend.Tests.Services.{bytes, ai_baseline, normal_card, recording}
use audiax_backend.Tests.Tables.{memory, memory_laws, removed, removed-IsDeletion}

abbrev World : Type 0
World = List Baseline

abbrev baseline_table : Table Baseline World
baseline_table = memory baseline_schema (removed baseline_schema)

baseline_laws : TableLaws baseline_schema (λ rows. rows) baseline_table
baseline_laws =
    memory_laws baseline_schema (removed baseline_schema) (removed-IsDeletion baseline_schema)

-- A body that fails is undone.
abbrev settled : Result Baseline × World → World → Result Baseline × World
settled (ok b, v) w = (ok b, v)
settled (err e, v) w = (err e, w)

abbrev machines : MachineRepository World
machines = record {
  create = pure;
  find_by_id_for_user = λ id user. pure ceiling_fan;
  list_for_user = λ user. pure (ceiling_fan ∷ []);
  update = λ machine columns. pure machine;
  delete = λ machine. pure tt;
}

abbrev calibrating_use_case : BaselineUseCase numbers bytes World
calibrating_use_case = record {
  validate = λ request. valid;
  machines = machines;
  baselines = baseline_repository baseline_table;
  ai = record {
    calibrate = λ audio filename label. pure ai_baseline;
    inspect = λ audio filename baseline. pure normal_card;
  };
  store = record { put = λ path content type. pure tt };
  transaction = λ body w. settled (body w) w;
  now = λ w. (9, w);
  new_id = λ w. (text "id", w);
}

settled_commits :
    (p : Result Baseline × World) (w w' : World) (b : Baseline)
    → settled p w ≡ (ok b, w')
    → (v : World) × (p ≡ (ok b, v)) × (w' ≡ v)
settled_commits (ok a, v) w w' b h = (w', h, refl)
settled_commits (err e, v) w w' b h = cc

settled_rolls_back :
    (p : Result Baseline × World) (w w' : World) (e : Error) → settled p w ≡ (err e, w') → w' ≡ w
settled_rolls_back (ok a, v) w w' e h = cc
settled_rolls_back (err x, v) w w' e h = sym (ap (λ p. p.1) h)

frame : Frame (λ rows. rows) calibrating_use_case
frame = record {
  machines_keep = λ id user_id w. refl;
  ai_keeps = λ audio filename label w. refl;
  store_keeps = λ path audio type w. refl;
  now_keeps = λ w. refl;
  new_id_keeps = λ w. refl;
  commits = λ body w w' b h. settled_commits (body w) w w' b h;
  rolls_back = λ body w w' e h. settled_rolls_back (body w) w w' e h;
}

abbrev old_baseline : Baseline
old_baseline = record {
  id = text "b0";
  machine_id = text "m1";
  schema_version = text "1";
  model_fingerprint = text "f";
  n_windows = pos 1;
  embedding_dim = pos 2;
  embedding_dtype = text "float16";
  embeddings = text "abcd";
  backend_stats = 5 ∷ [];
  notes = [];
  calibration_quality = text "baik";
  calibration_audio_path = none;
  is_active = true;
  calibrated_at = 1;
  created_at = 1;
}

abbrev before : World
before = old_baseline ∷ []

before-IsSingle : IsSingle before
before-IsSingle machine_id = elim (Bool-cases (active_of machine_id old_baseline)) [
  | inl active ↦ rw active (omega arith)
  | inr idle ↦ rw idle (omega arith)
]

abbrev after : World
after = (calibrate calibrating_use_case recording before).1

reachable-IsSingle_example : IsSingle after
reachable-IsSingle_example =
    reachable-IsSingle baseline_laws calibrating_use_case frame before after
      (next here (calibrating recording before)) before-IsSingle

abbrev new_response : BaselineResponse
new_response = record {
  id = text "id";
  machine_id = text "m1";
  model_fingerprint = text "f";
  n_windows = pos 1;
  calibration_quality = text "baik";
  is_active = true;
  calibrated_at = value_from 0 (text "7");
}

calibrated_baseline_found_example :
    ((b : Baseline) (w : World)
      → find_active_for_machine baseline_table (text "m1") after ≡ (ok b, w)
      → b.id ≡ text "id")
    × ((e : Error) (w : World)
        → find_active_for_machine baseline_table (text "m1") after ≡ (err e, w)
        → is e record_not_found ≡ false)
unfolding calibrate calibrated find_owned_machine_for_baseline baseline_entity checked_columns
    replace_baseline store_calibration_audio deactivate_all_for_machine update_audio_path
    Base.create baseline_text baseline_flag baseline_set validate_struct ◌==◌ mul
calibrated_baseline_found_example =
    calibrated_baseline_found baseline_laws calibrating_use_case frame recording before after
      new_response refl
