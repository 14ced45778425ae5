-- ===== src/Config/Load.antt =====
-- internal/config/config.go. The environment, after godotenv has filled it in, is a function; the
-- parsers of strconv, time and slog are parameters.
pub mod Required
use mathlib.Core.List.{reverse}
use audiax_backend.Common.{ℕ, Bool, Option, none, some, [], ◌∷◌, nat_eq, if◌then◌else◌}
use audiax_backend.Common.Int.{ℤ, pos}
use audiax_backend.Common.Text.{Text, text, ◌==◌, is_empty, trim_space}
use audiax_backend.Constants.{
  default_app_name, default_app_env, default_port, default_log_level, default_db_max_idle_conns,
  default_db_max_open_conns, default_db_conn_max_life, default_db_slow_threshold,
  default_session_ttl, default_bcrypt_cost, default_shutdown_timeout, default_cors_origins,
  default_ai_timeout, default_storage_bucket, default_advisory_timeout, default_ollama_url,
  env_production,
}
use audiax_backend.Errors.{opaque}
use audiax_backend.Exec.{Result, ok, err}

-- strconv.Atoi, time.ParseDuration and slog.Level.UnmarshalText, with `none` for an error, and
-- slog.LevelInfo
pub record Parsers : Type 1 where
  pub Level : Type 0
  pub level_info : Level
  pub atoi : Text → Option ℤ
  pub parse_duration : Text → Option ℤ
  pub unmarshal_level : Text → Option Level

pub record Config (Level : Type 0) : Type 0 where
  pub app_name : Text
  pub env : Text
  pub port : ℤ
  pub log_level : Level
  pub database_url : Text
  pub db_max_idle_conns : ℤ
  pub db_max_open_conns : ℤ
  pub db_conn_max_life : ℤ
  pub db_slow_threshold : ℤ
  pub redis_url : Text
  pub ai_service_url : Text
  pub ai_timeout : ℤ
  pub ollama_url : Text
  pub advisory_timeout : ℤ
  pub supabase_url : Text
  pub supabase_service_key : Text
  pub storage_bucket : Text
  pub session_ttl : ℤ
  pub bcrypt_cost : ℤ
  pub shutdown_timeout : ℤ
  pub cors_origins : Text

-- strings.TrimRight(s, "/")
abbrev pub without_slashes : Text → Text
without_slashes [] = []
without_slashes (c ∷ s) = if nat_eq c b'/' then without_slashes s else c ∷ s

unfoldable pub trim_right_slashes : Text → Text
trim_right_slashes s = reverse (without_slashes (reverse s))

abbrev pub or_fallback {ℓ} : {A : Type ℓ} → Option A → A → A
or_fallback none fallback = fallback
or_fallback (some a) fallback = a

unfoldable pub is_production : {Level : Type 0} → Config Level → Bool
is_production cfg = cfg.env == env_production

module _ (parsers : Parsers) (getenv : Text → Text) where
  unfoldable pub env : Text → Text → Text
  env key fallback =
      let value = trim_space (getenv key) in if is_empty value then fallback else value

  unfoldable pub env_int : Text → ℕ → ℤ
  env_int key fallback = or_fallback (parsers.atoi (env key [])) (pos fallback)

  unfoldable pub env_duration : Text → ℕ → ℤ
  env_duration key fallback = or_fallback (parsers.parse_duration (env key [])) (pos fallback)

  unfoldable pub log_level : Text → parsers.Level
  log_level s = or_fallback (parsers.unmarshal_level s) parsers.level_info

  -- the struct that `Load` builds before its checks
  unfoldable pub read_config : Config parsers.Level
  read_config = record {
    app_name = env (text "APP_NAME") default_app_name;
    env = env (text "APP_ENV") default_app_env;
    port = env_int (text "PORT") default_port;
    log_level = log_level (env (text "LOG_LEVEL") default_log_level);
    database_url = getenv (text "DATABASE_URL");
    db_max_idle_conns = env_int (text "DB_MAX_IDLE_CONNS") default_db_max_idle_conns;
    db_max_open_conns = env_int (text "DB_MAX_OPEN_CONNS") default_db_max_open_conns;
    db_conn_max_life = env_duration (text "DB_CONN_MAX_LIFETIME") default_db_conn_max_life;
    db_slow_threshold = env_duration (text "DB_SLOW_THRESHOLD") default_db_slow_threshold;
    redis_url = getenv (text "REDIS_URL");
    ai_service_url = trim_right_slashes (getenv (text "AI_SERVICE_URL"));
    ai_timeout = env_duration (text "AI_TIMEOUT") default_ai_timeout;
    ollama_url = trim_right_slashes (env (text "OLLAMA_URL") default_ollama_url);
    advisory_timeout = env_duration (text "ADVISORY_TIMEOUT") default_advisory_timeout;
    supabase_url = trim_right_slashes (getenv (text "SUPABASE_URL"));
    supabase_service_key = getenv (text "SUPABASE_SERVICE_KEY");
    storage_bucket = env (text "STORAGE_BUCKET") default_storage_bucket;
    session_ttl = env_duration (text "SESSION_TTL") default_session_ttl;
    bcrypt_cost = env_int (text "BCRYPT_COST") default_bcrypt_cost;
    shutdown_timeout = env_duration (text "SHUTDOWN_TIMEOUT") default_shutdown_timeout;
    cors_origins = env (text "CORS_ORIGINS") default_cors_origins;
  }

  unfoldable pub load : Result (Config parsers.Level)
  load =
      let cfg = read_config in
      if is_empty cfg.database_url
      then err (opaque (text "DATABASE_URL is required"))
      else if is_empty cfg.redis_url
      then err (opaque (text "REDIS_URL is required"))
      else if is_empty cfg.ai_service_url
      then err (opaque (text "AI_SERVICE_URL is required"))
      else if is_empty cfg.supabase_url
      then err (opaque (text "SUPABASE_URL is required"))
      else if is_empty cfg.supabase_service_key
      then err (opaque (text "SUPABASE_SERVICE_KEY is required"))
      else ok cfg
