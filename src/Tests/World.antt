-- ===== src/Tests/World.antt =====
-- Concrete parameters and inputs: numbers with two decimals, lower case on ASCII, one machine with one
-- inspection, and a model that always answers with the same completion.
use Prim.Native.Nat.{◌*◌, ◌/◌, ◌%◌}
use audiax_backend.Common.{
  ℕ, zero, suc, ◌+◌, ◌-◌, refl, true, false, not, ◌&&◌, Option, none, some, List, [], ◌∷◌, ◌++◌,
  arith, ltb, leb, nat_eq, all, if◌then◌else◌,
}
use audiax_backend.Common.Text.{Text, text, ◌==◌, is_empty, ascii_lower, Unicode}
use audiax_backend.Common.Text.Decimal.{itoa, is_digit, value_from}
use audiax_backend.Constants.{status_critical, status_warning}
use audiax_backend.Errors.{sentinel, record_not_found}
use audiax_backend.Exec.{pure, raise, ok, err}
use audiax_backend.Floats.{Floats, FloatLaws}
use audiax_backend.Entity.{Machine, Inspection}
use audiax_backend.Model.{AdvisoryMessageRequest}
use audiax_backend.Advisory.{Cell}
use audiax_backend.Advisory.Rules.{Combo}
use audiax_backend.Advisory.Guard.{LlmOutput}
use audiax_backend.Usecase.Ports.{
  MachineRepository, BaselineRepository, InspectionRepository, LlmProvider,
}
use audiax_backend.Usecase.Validation.{valid}
use audiax_backend.Usecase.Advisory.{AdvisoryUseCase}

abbrev pub ascii : Unicode
ascii = record { lower = ascii_lower; lower_ascii = λ c h. refl }

abbrev hundredths : ℕ → ℕ → ℕ
hundredths m zero = m * 100
hundredths m (suc zero) = m * 10
hundredths m (suc (suc _)) = m

abbrev whole_number : Text → Option ℕ
whole_number s = if all is_digit s && not (is_empty s) then some (value_from 0 s * 100) else none

abbrev pub numbers : Floats
numbers = record {
  Float = ℕ;
  literal = hundredths;
  parse = whole_number;
  show = λ n. itoa (n / 100);
  format1 = λ n. itoa (n / 100) ++ (text "." ++ itoa (n / 10 % 10));
  sub = λ m n. (m - n) + (n - m);
  abs = λ n. n;
  trunc = λ n. n / 100 * 100;
  eq = nat_eq;
  lt = ltb;
  le = leb;
}

pub numbers_laws : FloatLaws numbers
numbers_laws = record { parse_near = λ c s x _ _. ground arith }

abbrev pub warm : Cell
warm = record {
  key = text "CRITICAL|*|*|*";
  urgency = text "segera";
  safety_gate = text "Matikan mesin.";
  checklist = text "Tunggu 15 menit." ∷ text "Periksa baut." ∷ [];
  escalate_if = text "Getaran tetap ada.";
  recheck_hours = 24;
  needs_technician = true;
}

abbrev pub critical : Combo
critical = record {
  status = status_critical;
  indicator = text "bearing";
  drive = text "belt";
  recency = text ">6bln";
}

abbrev pub good_output : LlmOutput
good_output = record {
  jawaban = text "Matikan mesin, lalu periksa baut.";
  langkah_berikutnya = text "Tunggu 15 menit.";
  perlu_teknisi = false;
  eskalasi = true;
}

abbrev pub ceiling_fan : Machine
ceiling_fan = record {
  id = text "m1";
  user_id = text "u1";
  label = text "Kipas";
  location = none;
  description = none;
  created_at = 1;
  updated_at = 1;
  deleted_at = none;
}

abbrev pub last_inspection : Inspection numbers
last_inspection = record {
  id = text "i1";
  machine_id = text "m1";
  baseline_id = text "b1";
  status = status_warning;
  z_score = some 400;
  health_score = none;
  dominant_indicator = some (text "bearing");
  reason = none;
  audio_path = none;
  inspected_at = 2;
  created_at = 2;
}

-- The world is the prompts that the model has been asked.
abbrev pub World : Type 0
World = List Text

abbrev pub machines : MachineRepository World
machines = record {
  create = pure;
  find_by_id_for_user = λ id user.
      if id == text "m1" && user == text "u1"
      then pure ceiling_fan
      else raise (sentinel record_not_found);
  list_for_user = λ user. pure (ceiling_fan ∷ []);
  update = λ machine columns. pure machine;
  delete = λ machine. pure tt;
}

abbrev pub baselines : BaselineRepository World
baselines = record {
  create = pure;
  find_active_for_machine = λ id. raise (sentinel record_not_found);
  deactivate_all_for_machine = λ id. pure tt;
  list_for_machine = λ id. pure [];
  update_audio_path = λ id path. pure tt;
  find_by_id = λ id. raise (sentinel record_not_found);
}

abbrev pub inspections : InspectionRepository numbers World
inspections = record {
  create = pure;
  list_for_machine = λ id limit. pure (last_inspection ∷ []);
  find_by_id_for_machine = λ id machine.
      if id == text "i1" && machine == text "m1"
      then pure last_inspection
      else raise (sentinel record_not_found);
}

abbrev pub model : LlmProvider World
model = record { complete = λ prompt w. (ok (text "{}"), prompt ∷ w) }

abbrev pub silent_model : LlmProvider World
silent_model = record { complete = λ prompt w. (err (sentinel record_not_found), w) }

abbrev pub advisory : AdvisoryUseCase numbers World
advisory = record {
  unicode = ascii;
  decode = λ raw. ok good_output;
  validate = λ request. valid;
  machines = machines;
  baselines = baselines;
  inspections = inspections;
  llm = model;
}

abbrev pub asking : Text → Text → Text → AdvisoryMessageRequest
asking machine inspection message = record {
  user_id = text "u1";
  machine_id = machine;
  inspection_id = inspection;
  history = [];
  user_message = message;
  context = record {
    drive_type = text "belt";
    recency = text ">6bln";
    machine_age = text "<1th";
    hours_per_day = text "8-16";
    has_backup = true;
    load_state = text "normal";
  };
}
