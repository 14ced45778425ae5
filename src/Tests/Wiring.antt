-- ===== src/Tests/Wiring.antt =====
-- The wired program over constant tables, the Redis in memory and an AI service that refuses every
-- recording.
use audiax_backend.Common.{ℕ, true, none, some, List, [], ◌∷◌, if◌then◌else◌}
use audiax_backend.Common.Text.{Text, text, ◌==◌}
use audiax_backend.Errors.{sentinel, record_not_found}
use audiax_backend.Exec.{Result, ok, err, pure}
use audiax_backend.Entity.{User, Machine}
use audiax_backend.Model.{Auth}
use audiax_backend.Usecase.Validation.{valid}
use audiax_backend.Repository.Gorm.{Query, Condition, equal, flag, Table}
use audiax_backend.Config.HttpClient.{HttpClient, Reply}
use audiax_backend.Config.Load.{Parsers, read_config}
use audiax_backend.Http.Request.{HttpRequest, BodyParser, readable}
use audiax_backend.App.{Dependencies}
use audiax_backend.Tests.World.{ascii, numbers, ceiling_fan, good_output, asking}
use audiax_backend.Tests.Services.{bytes, ai_baseline, normal_card, renaming, operator}
use audiax_backend.Tests.Sessions.{Memory, redis}

abbrev pub constant : {A : Type 0} → (Query → Result A) → Table A Memory
constant answer = record {
  create = pure;
  take = λ q w. (answer q, w);
  find = λ q. pure [];
  updates = λ row columns. pure row;
  update = λ q column value. pure tt;
  delete = λ row. pure tt;
}

abbrev pub nothing : {A : Type 0} → Query → Result A
nothing q = err (sentinel record_not_found)

-- a user of every id
abbrev pub any_user : List Condition → Result User
any_user (equal column id ∷ rest) = ok (record operator { id = id })
any_user (flag column ∷ rest) = err (sentinel record_not_found)
any_user [] = err (sentinel record_not_found)

-- the machine "m1", whoever asks
abbrev pub by_id : List Condition → Result Machine
by_id (equal column id ∷ rest) =
    if id == text "m1" then ok ceiling_fan else err (sentinel record_not_found)
by_id (flag column ∷ rest) = err (sentinel record_not_found)
by_id [] = err (sentinel record_not_found)

abbrev pub parsers : Parsers
parsers = record {
  Level = ℕ;
  level_info = 0;
  atoi = λ s. none;
  parse_duration = λ s. none;
  unmarshal_level = λ s. none;
}

abbrev pub getenv : Text → Text
getenv key = if key == text "PORT" then text "80a" else text "http://x/"

abbrev pub too_loud : Reply
too_loud = record { status_code = 400; body = text "terlalu bising" }

abbrev pub refusing : HttpClient Memory
refusing = record { new_request = λ url. none; send = λ post w. (some too_loud, w) }

abbrev pub parser : BodyParser
parser = record {
  register = λ body. none;
  login = λ body. none;
  update_user = λ body.
      some (record { user_id = body; name = some (text "Ana"); password = some (text "baru1234") });
  create_machine = λ body.
      some (record { user_id = body; label = text "Kipas"; location = none; description = none });
  update_machine = λ body. some (record (renaming body) { user_id = body });
  advisory_message = λ body. some (record (asking body body (text "Aman?")) { user_id = body });
}

abbrev pub deps : Dependencies numbers bytes ℕ Memory
deps = record {
  config = read_config parsers getenv;
  session_ttl = 100;
  user_table = constant (λ q. any_user q.conditions);
  machine_table = constant (λ q. by_id q.conditions);
  baseline_table = constant nothing;
  inspection_table = constant nothing;
  redis = redis;
  ai_client = refusing;
  storage_client = refusing;
  llm_client = refusing;
  ai_codec = record {
    write_form = λ form. ok (form.content, text "multipart/form-data");
    decode_detail = λ raw. raw;
    decode_baseline = λ raw. ok ai_baseline;
    decode_card = λ raw. ok normal_card;
  };
  ollama_codec = record { marshal_request = λ request. ok []; decode_content = ok };
  validator = record { struct = λ fields. valid; is_email = λ s. true };
  parser = parser;
  unicode = ascii;
  decode = λ raw. ok good_output;
  generate = pure;
  matches = λ hash password. hash == password;
  transaction = λ body. body;
  now = λ w. (9, w);
  new_id = λ w. (text "id", w);
  template_hash = text "h";
}

abbrev pub session : Auth
session = record { user_id = text "u1"; token = text "t1" }

abbrev pub asked_for : Text → HttpRequest
asked_for machine_id = record {
  authorization = text "Bearer t1";
  machine_id = machine_id;
  inspection_id = text "i1";
  body = text "u1";
  form_file = some (record { filename = text "a.wav"; size = 2; content = readable (1 ∷ 2 ∷ []) });
}
