-- ===== src/Usecase/Baseline/Audio.antt =====
-- The recording of a calibration is kept where it can be, and nothing depends on it.
use audiax_backend.Common.Text.{Text}
use audiax_backend.Exec.{Result, ok, bind, Exec, ◌>>=◌}
use audiax_backend.Floats.{Floats}
use audiax_backend.Entity.{Baseline}
use audiax_backend.Model.{AudioRequest, BaselineResponse, baseline_to_response}
use audiax_backend.Usecase.Codec.{Codec}
use audiax_backend.Usecase.Baseline.{BaselineUseCase}
use audiax_backend.Usecase.Ports.{ObjectStore}

-- The use case with another object store and another way to write the path of a recording.
abbrev pub with_recorder :
    {fl : Floats} {c : Codec} {W : Type 0}
    → BaselineUseCase fl c W
    → ObjectStore W
    → (Text → Text → Exec W Unit)
    → BaselineUseCase fl c W
with_recorder uc store update = record uc {
  store = store;
  baselines = record uc.baselines { update_audio_path = update };
}

module _ {fl : Floats} {c : Codec} {W : Type 0} (uc : BaselineUseCase fl c W)
    (request : AudioRequest) (w : W) where
  abbrev answer : Result Baseline × W → Result BaselineResponse
  answer (r, _) = bind r λ b. ok (baseline_to_response b)
