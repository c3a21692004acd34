-- ===== src/Owners/Record.antt =====
-- shared/contracts/dto/owner_notification.py: the record of an owed message, as a run's metadata
-- holds it.
use codegen_orchestrator.Prelude.{ℕ, String, Bool, true, false, Option, ◌≡◌}
use codegen_orchestrator.Contracts.Json.{Json, null}
use codegen_orchestrator.Contracts.Story.{StoryStatus}
use codegen_orchestrator.Session.{Result, ok}

pub data OwnerNotificationState : Type 0 where
  owed delivered unaddressable abandoned voided : OwnerNotificationState

pub record OwnerNotification : Type 0 where
  pub event : String
  pub text : String
  pub story_id : String
  pub project_id : String
  pub terminal_status : StoryStatus
  pub task_id : Option String
  pub state : OwnerNotificationState
  pub owed_at : ℕ
  pub attempts : ℕ
  pub detail : Option String

abbrev pub is_owed : OwnerNotificationState → Bool
is_owed owed = true
is_owed _ = false

abbrev pub is_null : Json → Bool
is_null null = true
is_null _ = false

-- `OwnerNotification.model_validate` and `record.model_dump(mode="json")`, which pydantic derives from
-- the fields: a record is written as a value that is not `None`, and reads back as it was.
pub record Codec : Type 0 where
  pub model_dump : OwnerNotification → Json
  pub model_validate : Json → Result OwnerNotification
  pub dumps_value : (r : OwnerNotification) → is_null (model_dump r) ≡ false
  pub validates_dump : (r : OwnerNotification) → model_validate (model_dump r) ≡ ok r
