-- ===== src/Tests/Services.antt =====
-- Concrete use cases: encodings that keep their bytes, an AI service with one answer, and one user.
use audiax_backend.Common.{ℕ, ◌+◌, ◌≡◌, refl, sym, none, some, List, [], ◌∷◌, if◌then◌else◌}
use audiax_backend.Common.Int.{ℤ, pos, negsuc}
use audiax_backend.Common.Text.{Text, text, ◌==◌}
use audiax_backend.Common.Text.Decimal.{itoa, value_from}
use audiax_backend.Constants.{embedding_dtype_float16, status_normal}
use audiax_backend.Errors.{opaque, sentinel, record_not_found, redis_nil}
use audiax_backend.Exec.{Result, ok, err, pure, raise}
use audiax_backend.Entity.{User}
use audiax_backend.Model.{
  AudioRequest, AiBaseline, AiHealthCard, UpdateMachineRequest, LoginUserRequest, UpdateUserRequest,
}
use audiax_backend.Usecase.Codec.{Codec, CodecLaws}
use audiax_backend.Usecase.Ports.{AiService, ObjectStore, UserRepository, SessionRepository}
use audiax_backend.Usecase.Validation.{valid}
use audiax_backend.Usecase.Machine.{MachineUseCase}
use audiax_backend.Usecase.Baseline.{BaselineUseCase, Encoded}
use audiax_backend.Usecase.Inspection.{InspectionUseCase}
use audiax_backend.Usecase.User.{UserUseCase}
use audiax_backend.Tests.World.{World, machines, baselines, inspections, numbers, ascii}

abbrev unbrace : List ℕ → Result (List ℕ)
unbrace [] = err (opaque (text "unexpected end of JSON input"))
unbrace (b ∷ bytes) = ok bytes

abbrev show_int : ℤ → Text
show_int (pos n) = itoa n
show_int (negsuc n) = b'-' ∷ itoa (n + 1)

abbrev pub bytes : Codec
bytes = record {
  Stats = List ℕ;
  Notes = List ℕ;
  empty_notes = [];
  marshal_stats = ok;
  unmarshal_stats = ok;
  marshal_notes = λ n. ok (b'{' ∷ n);
  unmarshal_notes = unbrace;
  marshal_baseline = λ b. ok b.backend_stats;
  encode_to_string = λ s. s;
  decode_string = ok;
  format_time = itoa;
  parse_time = λ s. ok (value_from 0 s);
  show_number = show_int;
  show_shape = λ s. [];
}

same_notes :
    (n : List ℕ) (s : List ℕ) → Path (Result (List ℕ)) (ok (b'{' ∷ n)) (ok s) → unbrace s ≡ ok n
same_notes n [] h = cc
same_notes n (b ∷ s) h = cc

pub bytes_laws : CodecLaws bytes
bytes_laws = record {
  unmarshal_stats-marshal_stats = λ s b h. sym h;
  unmarshal_notes-marshal_notes = same_notes;
  marshal_notes-ne-nil = λ n b h e. cc;
  decode_string-encode_to_string = λ b. refl;
}

abbrev pub ai_baseline : AiBaseline (List ℕ) (List ℕ)
ai_baseline = record {
  schema_version = text "1";
  machine_label = text "Kipas lama";
  created_at = text "7";
  model_fingerprint = text "f";
  n_windows = pos 1;
  embedding_shape = pos 1 ∷ pos 2 ∷ [];
  embedding_dtype = embedding_dtype_float16;
  embeddings_b64 = text "abcd";
  backend_stats = 5 ∷ [];
  calibration_quality = text "baik";
  notes = none;
}

abbrev pub encoded : Encoded bytes
encoded = record { embeddings = text "abcd"; stats = 5 ∷ []; notes = b'{' ∷ []; dim = pos 2 }

abbrev pub normal_card : AiHealthCard numbers
normal_card = record {
  status = status_normal;
  z_score = some 40;
  health_score = none;
  calibration_quality = text "baik";
  dominant_indicator = none;
  disclaimer = [];
  reason = none;
}

abbrev pub ai : AiService numbers (List ℕ) (List ℕ) World
ai = record {
  calibrate = λ audio filename label. pure ai_baseline;
  inspect = λ audio filename baseline. pure normal_card;
}

abbrev pub store : ObjectStore World
store = record { put = λ path content type w. (ok tt, path ∷ w) }

abbrev pub no_store : ObjectStore World
no_store = record { put = λ path content type. raise (opaque (text "no bucket")) }

abbrev pub machine_use_case : MachineUseCase World
machine_use_case = record {
  validate_create = λ request. valid;
  validate_update = λ request. valid;
  machines = machines;
  new_id = λ w. (text "id", w);
}

abbrev pub baseline_use_case : BaselineUseCase numbers bytes World
baseline_use_case = record {
  validate = λ request. valid;
  machines = machines;
  baselines = baselines;
  ai = ai;
  store = no_store;
  transaction = λ body. body;
  now = λ w. (9, w);
  new_id = λ w. (text "id", w);
}

abbrev pub inspection_use_case : InspectionUseCase numbers bytes World
inspection_use_case = record {
  validate = λ request. valid;
  machines = machines;
  baselines = baselines;
  inspections = inspections;
  ai = ai;
  store = store;
  now = λ w. (9, w);
  new_id = λ w. (text "id", w);
}

abbrev pub recording : AudioRequest
recording = record {
  user_id = text "u1";
  machine_id = text "m1";
  filename = text "a.wav";
  audio = 1 ∷ 2 ∷ [];
}

abbrev pub renaming : Text → UpdateMachineRequest
renaming machine_id = record {
  user_id = text "u1";
  machine_id = machine_id;
  label = some (text " Kipas baru ");
  location = none;
  description = none;
}

abbrev pub operator : User
operator = record {
  id = text "u1";
  email = text "a@b.id";
  name = text "Ana";
  password_hash = text "rahasia";
  created_at = 1;
  updated_at = 1;
}

abbrev pub users : UserRepository World
users = record {
  create = pure;
  find_by_id = λ id. pure operator;
  find_by_email =
      λ email. if email == text "a@b.id" then pure operator else raise (sentinel record_not_found);
  update = λ user columns. pure user;
}

abbrev pub sessions : SessionRepository World
sessions = record {
  create = λ user ttl. pure (text "t1");
  find_user_id =
      λ token. if token == text "t1" then pure (text "u1") else raise (sentinel redis_nil);
  delete = λ token. pure tt;
  delete_all_for_user = λ user w. (ok tt, user ∷ w);
}

abbrev pub user_use_case : UserUseCase World
user_use_case = record {
  unicode = ascii;
  validate_register = λ request. valid;
  validate_login = λ request. valid;
  validate_update = λ request. valid;
  users = users;
  sessions = sessions;
  session_ttl = 100;
  generate = pure;
  matches = λ hash password. hash == password;
  now = λ w. (9, w);
  new_id = λ w. (text "id", w);
}

abbrev pub signing_in : Text → LoginUserRequest
signing_in email = record { email = email; password = text "salah" }

abbrev pub new_password : UpdateUserRequest
new_password = record { user_id = text "u1"; name = none; password = some (text "baru1234") }
