-- ===== src/Constants.antt =====
-- internal/constants/constants.go: the named values that the modelled parts use.
use audiax_backend.Common.{ℕ, List, [], ◌∷◌}
use audiax_backend.Common.Text.{Text, text}

abbrev pub session_key_prefix : Text
session_key_prefix = text "session:"

abbrev pub user_session_index_prefix : Text
user_session_index_prefix = text "user_sessions:"

-- a time.Duration counts nanoseconds
abbrev pub session_index_ttl_margin : ℕ
session_index_ttl_margin = 3600000000000

abbrev pub auth_scheme : Text
auth_scheme = text "Bearer"

-- Health card statuses
abbrev pub status_normal : Text
status_normal = text "NORMAL"

abbrev pub status_warning : Text
status_warning = text "WARNING"

abbrev pub status_critical : Text
status_critical = text "CRITICAL"

abbrev pub status_uncalibrated : Text
status_uncalibrated = text "KALIBRASI_KURANG"

abbrev pub embedding_dtype_float16 : Text
embedding_dtype_float16 = text "float16"

abbrev pub triage_disclaimer : Text
triage_disclaimer =
    text "Alat bantu triase, bukan diagnosis mengikat -- tetap perlu inspeksi teknisi."

abbrev pub audio_form_field : Text
audio_form_field = text "audio"

abbrev pub max_audio_upload_bytes : ℕ
max_audio_upload_bytes = 16777216

abbrev pub calibration_audio_prefix : Text
calibration_audio_prefix = text "calibrations/"

abbrev pub inspection_audio_prefix : Text
inspection_audio_prefix = text "inspections/"

abbrev pub audio_content_type : Text
audio_content_type = text "audio/wav"

abbrev pub inspection_history_limit : ℕ
inspection_history_limit = 100

abbrev pub advisory_max_history_turns : ℕ
advisory_max_history_turns = 8

abbrev pub advisory_forbidden_diagnosis_phrases : List Text
advisory_forbidden_diagnosis_phrases =
    text "bearing aus"
    ∷ text "bearing rusak"
    ∷ text "impeler pecah"
    ∷ text "motor terbakar"
    ∷ text "kerusakan pada"
    ∷ text "disebabkan oleh"
    ∷ text "sisa umur"
    ∷ text "akan rusak dalam"
    ∷ text "memprediksi umur"
    ∷ []

abbrev pub advisory_source_llm : Text
advisory_source_llm = text "llm"

abbrev pub advisory_source_fallback_static : Text
advisory_source_fallback_static = text "fallback_static"

abbrev pub danger_keywords : List Text
danger_keywords =
    text "bau gosong"
    ∷ text "bau terbakar"
    ∷ text "asap"
    ∷ text "berasap"
    ∷ text "percikan"
    ∷ text "api"
    ∷ text "panas berlebih"
    ∷ text "sangat panas"
    ∷ text "getaran keras"
    ∷ text "bergetar hebat"
    ∷ text "bunyi ledakan"
    ∷ text "macet"
    ∷ text "tersendat"
    ∷ []

-- Defaults of the configuration; a duration counts nanoseconds
abbrev pub default_app_name : Text
default_app_name = text "audiax"

abbrev pub default_app_env : Text
default_app_env = text "development"

abbrev pub default_port : ℕ
default_port = 3000

abbrev pub default_log_level : Text
default_log_level = text "info"

abbrev pub default_db_max_idle_conns : ℕ
default_db_max_idle_conns = 5

abbrev pub default_db_max_open_conns : ℕ
default_db_max_open_conns = 20

abbrev pub default_db_conn_max_life : ℕ
default_db_conn_max_life = 1800000000000

abbrev pub default_db_slow_threshold : ℕ
default_db_slow_threshold = 200000000

abbrev pub default_session_ttl : ℕ
default_session_ttl = 604800000000000

abbrev pub default_bcrypt_cost : ℕ
default_bcrypt_cost = 12

abbrev pub default_shutdown_timeout : ℕ
default_shutdown_timeout = 15000000000

abbrev pub default_cors_origins : Text
default_cors_origins = text "*"

abbrev pub default_ai_timeout : ℕ
default_ai_timeout = 240000000000

abbrev pub default_storage_bucket : Text
default_storage_bucket = text "audiax-audio"

abbrev pub default_advisory_timeout : ℕ
default_advisory_timeout = 5000000000

abbrev pub default_ollama_url : Text
default_ollama_url = text "http://ollama:11434"

abbrev pub env_production : Text
env_production = text "production"

abbrev pub ai_calibrate_path : Text
ai_calibrate_path = text "/v1/calibrate"

abbrev pub ai_inspect_path : Text
ai_inspect_path = text "/v1/inspect"

abbrev pub ai_machine_label_form_field : Text
ai_machine_label_form_field = text "machine_label"

abbrev pub ai_baseline_form_field : Text
ai_baseline_form_field = text "baseline_json"

abbrev pub ollama_chat_path : Text
ollama_chat_path = text "/api/chat"

abbrev pub advisory_num_predict : ℕ
advisory_num_predict = 220

abbrev pub ollama_model_name : Text
ollama_model_name = text "audiax-advisor"
