-- ===== src/App.antt =====
-- internal/app/app.go: the wiring of the repositories, the use cases and the routes. The options of
-- fiber and its middlewares for request ids, recovery and CORS are not modelled.
pub mod Tenancy
pub mod Outage
pub mod SignOut
pub mod PasswordChange
use audiax_backend.Common.{ℕ, Bool, List}
use audiax_backend.Common.Text.{Text, Unicode}
use audiax_backend.Exec.{Result, Exec}
use audiax_backend.Floats.{Floats}
use audiax_backend.Entity.{Time, User, Machine, Baseline, Inspection}
use audiax_backend.Constants.{ollama_model_name}
use audiax_backend.Config.HttpClient.{HttpClient}
use audiax_backend.Config.Load.{Config}
use audiax_backend.Config.AiService.Calls.{AiCodec, ai_service}
use audiax_backend.Config.LlmService.Calls.{OllamaCodec, llm_service}
use audiax_backend.Config.Storage.Calls.{object_store}
use audiax_backend.Repository.Gorm.{Table}
use audiax_backend.Repository.Session.Redis.{RedisClient}
use audiax_backend.Repository.Session.{session_repository}
use audiax_backend.Repository.Users.{user_repository}
use audiax_backend.Repository.Machines.{machine_repository}
use audiax_backend.Repository.Baselines.{baseline_repository}
use audiax_backend.Repository.Inspections.{inspection_repository}
use audiax_backend.Usecase.User.{UserUseCase}
use audiax_backend.Usecase.Machine.{MachineUseCase}
use audiax_backend.Usecase.Baseline.{BaselineUseCase}
use audiax_backend.Usecase.Inspection.{InspectionUseCase}
use audiax_backend.Usecase.Advisory.{AdvisoryUseCase}
use audiax_backend.Model.{
  RegisterUserRequest, LoginUserRequest, UpdateUserRequest, CreateMachineRequest,
  UpdateMachineRequest, AudioRequest, AdvisoryMessageRequest,
}
use audiax_backend.Advisory.Guard.{LlmOutput}
use audiax_backend.Usecase.Codec.{Codec}
use audiax_backend.Usecase.Ports.{
  MachineRepository, BaselineRepository, InspectionRepository, AiService, ObjectStore, LlmProvider,
}
use audiax_backend.Usecase.Validation.{Outcome}
use audiax_backend.Usecase.Validation.Tags.{
  StructValidator, register_fields, login_fields, update_user_fields, create_machine_fields,
  update_machine_fields, audio_fields, advisory_message_fields,
}
use audiax_backend.Http.Request.{BodyParser}
use audiax_backend.Http.Routes.{RouteConfig, Route, setup}

-- validate.Struct at the types of the requests
pub record Validator : Type 0 where
  pub register : RegisterUserRequest → Outcome
  pub login : LoginUserRequest → Outcome
  pub update_user : UpdateUserRequest → Outcome
  pub create_machine : CreateMachineRequest → Outcome
  pub update_machine : UpdateMachineRequest → Outcome
  pub audio : AudioRequest → Outcome
  pub advisory_message : AdvisoryMessageRequest → Outcome

-- Dependencies: the tables of gorm, Redis, a client of net/http for each service with its timeout,
-- the configuration, and the libraries that the use cases call. `session_ttl` is cfg.SessionTTL;
-- `generate` is bcrypt at cfg.BcryptCost.
pub record Dependencies (fl : Floats) (c : Codec) (Level W : Type 0) : Type 0 where
  pub config : Config Level
  pub session_ttl : Time
  pub user_table : Table User W
  pub machine_table : Table Machine W
  pub baseline_table : Table Baseline W
  pub inspection_table : Table (Inspection fl) W
  pub redis : RedisClient W
  pub ai_client : HttpClient W
  pub storage_client : HttpClient W
  pub llm_client : HttpClient W
  pub ai_codec : AiCodec fl c.Stats c.Notes
  pub ollama_codec : OllamaCodec
  pub validator : StructValidator
  pub parser : BodyParser
  pub unicode : Unicode
  pub decode : Text → Result LlmOutput
  pub generate : Text → Exec W Text
  pub matches : Text → Text → Bool
  pub transaction : Exec W Baseline → Exec W Baseline
  pub now : W → Time × W
  pub new_id : W → Text × W
  pub template_hash : Text

module _ {fl : Floats} {c : Codec} {Level W : Type 0} (deps : Dependencies fl c Level W) where
  open deps use {config}

  -- config.NewValidator, at the tags of each request
  abbrev pub validator : Validator
  validator = record {
    register = λ r. deps.validator.struct (register_fields r);
    login = λ r. deps.validator.struct (login_fields r);
    update_user = λ r. deps.validator.struct (update_user_fields r);
    create_machine = λ r. deps.validator.struct (create_machine_fields r);
    update_machine = λ r. deps.validator.struct (update_machine_fields r);
    audio = λ r. deps.validator.struct (audio_fields r);
    advisory_message = λ r. deps.validator.struct (advisory_message_fields r);
  }

  abbrev pub machines : MachineRepository W
  machines = machine_repository deps.machine_table

  abbrev pub baselines : BaselineRepository W
  baselines = baseline_repository deps.baseline_table

  abbrev pub inspections : InspectionRepository fl W
  inspections = inspection_repository deps.inspection_table

  abbrev pub ai : AiService fl c.Stats c.Notes W
  ai = ai_service deps.ai_codec deps.ai_client config.ai_service_url

  abbrev pub store : ObjectStore W
  store = object_store (record {
    base_url = config.supabase_url;
    service_key = config.supabase_service_key;
    bucket = config.storage_bucket;
    client = deps.storage_client;
  })

  abbrev pub llm : LlmProvider W
  llm = llm_service deps.ollama_codec deps.llm_client config.ollama_url ollama_model_name

  abbrev pub user_use_case : UserUseCase W
  user_use_case = record {
    unicode = deps.unicode;
    validate_register = validator.register;
    validate_login = validator.login;
    validate_update = validator.update_user;
    users = user_repository deps.user_table;
    sessions = session_repository deps.redis;
    session_ttl = deps.session_ttl;
    generate = deps.generate;
    matches = deps.matches;
    now = deps.now;
    new_id = deps.new_id;
  }

  abbrev pub machine_use_case : MachineUseCase W
  machine_use_case = record {
    validate_create = validator.create_machine;
    validate_update = validator.update_machine;
    machines = machines;
    new_id = deps.new_id;
  }

  abbrev pub baseline_use_case : BaselineUseCase fl c W
  baseline_use_case = record {
    validate = validator.audio;
    machines = machines;
    baselines = baselines;
    ai = ai;
    store = store;
    transaction = deps.transaction;
    now = deps.now;
    new_id = deps.new_id;
  }

  abbrev pub inspection_use_case : InspectionUseCase fl c W
  inspection_use_case = record {
    validate = validator.audio;
    machines = machines;
    baselines = baselines;
    inspections = inspections;
    ai = ai;
    store = store;
    now = deps.now;
    new_id = deps.new_id;
  }

  abbrev pub advisory_use_case : AdvisoryUseCase fl W
  advisory_use_case = record {
    unicode = deps.unicode;
    decode = deps.decode;
    validate = validator.advisory_message;
    machines = machines;
    baselines = baselines;
    inspections = inspections;
    llm = llm;
  }

  -- `New`, up to the routes
  abbrev pub route_config : RouteConfig fl c W
  route_config = record {
    parser = deps.parser;
    users = user_use_case;
    machines = machine_use_case;
    baselines = baseline_use_case;
    inspections = inspection_use_case;
    advisory = advisory_use_case;
    template_hash = deps.template_hash;
  }

  unfoldable pub new_app : List (Route fl W)
  new_app = setup route_config
