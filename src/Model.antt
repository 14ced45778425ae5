-- ===== src/Model.antt =====
-- internal/model: requests and responses, and internal/model/converter.
use audiax_backend.Common.Int.{ℤ}
use audiax_backend.Common.{ℕ, Bool, Option, List, map}
use audiax_backend.Common.Text.{Text}
use audiax_backend.Floats.{Floats}
use audiax_backend.Entity.{Time, User, Machine, Baseline, Inspection}

pub record AdvisoryTurn : Type 0 where
  pub role : Text
  pub content : Text

pub record AdvisoryContext : Type 0 where
  pub drive_type : Text
  pub recency : Text
  pub machine_age : Text
  pub hours_per_day : Text
  pub has_backup : Bool
  pub load_state : Text

pub record AdvisoryMessageRequest : Type 0 where
  pub user_id : Text
  pub machine_id : Text
  pub inspection_id : Text
  pub history : List AdvisoryTurn
  pub user_message : Text
  pub context : AdvisoryContext

pub record AdvisoryMessageResponse : Type 0 where
  pub reply : Text
  pub next_step : Text
  pub needs_technician : Bool
  pub escalated : Bool
  pub source : Text
  pub disclaimer : Text

pub record CreateMachineRequest : Type 0 where
  pub user_id : Text
  pub label : Text
  pub location : Option Text
  pub description : Option Text

pub record UpdateMachineRequest : Type 0 where
  pub user_id : Text
  pub machine_id : Text
  pub label : Option Text
  pub location : Option Text
  pub description : Option Text

pub record MachineResponse : Type 0 where
  pub id : Text
  pub label : Text
  pub location : Option Text
  pub description : Option Text
  pub created_at : Time
  pub updated_at : Time

pub record UserResponse : Type 0 where
  pub id : Text
  pub email : Text
  pub name : Text
  pub created_at : Time
  pub updated_at : Time

pub record SessionResponse : Type 0 where
  pub token : Text
  pub expires_at : Time

pub record RegisterUserRequest : Type 0 where
  pub email : Text
  pub name : Text
  pub password : Text

pub record LoginUserRequest : Type 0 where
  pub email : Text
  pub password : Text

pub record UpdateUserRequest : Type 0 where
  pub user_id : Text
  pub name : Option Text
  pub password : Option Text

-- the body of the multipart form; InspectMachineRequest and CalibrateMachineRequest have the same fields
pub record AudioRequest : Type 0 where
  pub user_id : Text
  pub machine_id : Text
  pub filename : Text
  pub audio : List ℕ

pub record InspectionResponse (fl : Floats) : Type 0 where
  pub id : Text
  pub machine_id : Text
  pub baseline_id : Text
  pub status : Text
  pub z_score : Option fl.Float
  pub health_score : Option fl.Float
  pub dominant_indicator : Option Text
  pub reason : Option Text
  pub disclaimer : Text
  pub inspected_at : Time

pub record BaselineResponse : Type 0 where
  pub id : Text
  pub machine_id : Text
  pub model_fingerprint : Text
  pub n_windows : ℤ
  pub calibration_quality : Text
  pub is_active : Bool
  pub calibrated_at : Time

-- the baseline as the AI service writes and reads it; the statistics and the notes are JSON objects
-- that the program hands on, and a missing object is `none`
pub record AiBaseline (Stats Notes : Type 0) : Type 0 where
  pub schema_version : Text
  pub machine_label : Text
  pub created_at : Text
  pub model_fingerprint : Text
  pub n_windows : ℤ
  pub embedding_shape : List ℤ
  pub embedding_dtype : Text
  pub embeddings_b64 : Text
  pub backend_stats : Stats
  pub calibration_quality : Text
  pub notes : Option Notes

pub record AiHealthCard (fl : Floats) : Type 0 where
  pub status : Text
  pub z_score : Option fl.Float
  pub health_score : Option fl.Float
  pub calibration_quality : Text
  pub dominant_indicator : Option Text
  pub disclaimer : Text
  pub reason : Option Text

pub record Auth : Type 0 where
  pub user_id : Text
  pub token : Text

-- internal/model/converter
abbrev pub machine_to_response : Machine → MachineResponse
machine_to_response m = record {
  id = m.id;
  label = m.label;
  location = m.location;
  description = m.description;
  created_at = m.created_at;
  updated_at = m.updated_at;
}

abbrev pub machines_to_responses : List Machine → List MachineResponse
machines_to_responses = map machine_to_response

abbrev pub user_to_response : User → UserResponse
user_to_response u = record {
  id = u.id;
  email = u.email;
  name = u.name;
  created_at = u.created_at;
  updated_at = u.updated_at;
}

abbrev pub baseline_to_response : Baseline → BaselineResponse
baseline_to_response b = record {
  id = b.id;
  machine_id = b.machine_id;
  model_fingerprint = b.model_fingerprint;
  n_windows = b.n_windows;
  calibration_quality = b.calibration_quality;
  is_active = b.is_active;
  calibrated_at = b.calibrated_at;
}

abbrev pub baselines_to_responses : List Baseline → List BaselineResponse
baselines_to_responses = map baseline_to_response

module _ (fl : Floats) where
  abbrev pub inspection_to_response : Inspection fl → Text → InspectionResponse fl
  inspection_to_response i disclaimer = record {
    id = i.id;
    machine_id = i.machine_id;
    baseline_id = i.baseline_id;
    status = i.status;
    z_score = i.z_score;
    health_score = i.health_score;
    dominant_indicator = i.dominant_indicator;
    reason = i.reason;
    disclaimer = disclaimer;
    inspected_at = i.inspected_at;
  }

  abbrev pub inspections_to_responses : List (Inspection fl) → Text → List (InspectionResponse fl)
  inspections_to_responses is disclaimer = map (λ i. inspection_to_response i disclaimer) is

pub record ErrorResponse : Type 0 where
  pub error : Text
  pub fields : List (Text × Text)
