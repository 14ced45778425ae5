-- ===== src/Entity.antt =====
-- internal/entity: the rows of the database. A point in time is a number; a *string column is an
-- `Option`.
use audiax_backend.Common.Int.{ℤ}
use audiax_backend.Common.{ℕ, Bool, Option, List}
use audiax_backend.Common.Text.{Text}
use audiax_backend.Floats.{Floats}

abbrev pub Time : Type 0
Time = ℕ

pub record User : Type 0 where
  pub id : Text
  pub email : Text
  pub name : Text
  pub password_hash : Text
  pub created_at : Time
  pub updated_at : Time

pub record Machine : Type 0 where
  pub id : Text
  pub user_id : Text
  pub label : Text
  pub location : Option Text
  pub description : Option Text
  pub created_at : Time
  pub updated_at : Time
  pub deleted_at : Option Time

pub record Baseline : Type 0 where
  pub id : Text
  pub machine_id : Text
  pub schema_version : Text
  pub model_fingerprint : Text
  pub n_windows : ℤ
  pub embedding_dim : ℤ
  pub embedding_dtype : Text
  pub embeddings : List ℕ
  pub backend_stats : List ℕ
  pub notes : List ℕ
  pub calibration_quality : Text
  pub calibration_audio_path : Option Text
  pub is_active : Bool
  pub calibrated_at : Time
  pub created_at : Time

pub record Inspection (fl : Floats) : Type 0 where
  pub id : Text
  pub machine_id : Text
  pub baseline_id : Text
  pub status : Text
  pub z_score : Option fl.Float
  pub health_score : Option fl.Float
  pub dominant_indicator : Option Text
  pub reason : Option Text
  pub audio_path : Option Text
  pub inspected_at : Time
  pub created_at : Time
