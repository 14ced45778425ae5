-- ===== src/Advisory.antt =====
-- internal/advisory: the rule engine (Rules, Table), the reply without a model (Static), the
-- prompt (Prompt) and the checks on a model's completion (Guard, Numbers).
pub mod Rules
pub mod Table
pub mod Static
pub mod Numbers
pub mod Guard
pub mod Prompt
use audiax_backend.Common.{ℕ, Bool, List}
use audiax_backend.Common.Text.{Text}

-- One row of decision_table.json. The hours are never negative in the table.
pub record Cell : Type 0 where
  pub key : Text
  pub urgency : Text
  pub safety_gate : Text
  pub checklist : List Text
  pub escalate_if : Text
  pub recheck_hours : ℕ
  pub needs_technician : Bool

pub record Reply : Type 0 where
  pub answer : Text
  pub next_step : Text
  pub needs_technician : Bool
  pub escalated : Bool
