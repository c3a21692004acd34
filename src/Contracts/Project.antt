-- ===== src/Contracts/Project.antt =====
-- shared/contracts/dto/project.py, shared/models/project.py, shared/models/user.py: the columns of
-- `projects` and `users` that the handlers of this development read.
use codegen_orchestrator.Prelude.{ℕ, String, Bool, Option}
use codegen_orchestrator.Contracts.Column.{Column}
use codegen_orchestrator.Contracts.Json.{Dict}

pub data ProjectStatus : Type 0 where
  draft active paused archived : ProjectStatus

pub record Project : Type 0 where
  pub id : String
  pub owner_id : ℕ
  pub initiating_run_id : Option String
  pub status : Column ProjectStatus
  pub config : Option Dict

pub record User : Type 0 where
  pub id : ℕ
  pub telegram_id : ℕ
  pub is_admin : Bool
