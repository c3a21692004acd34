-- ===== src/Contracts/Message.antt =====
-- shared/contracts/queues/engineering.py, architect.py and po.py: the messages that are published. The
-- ids that the source writes as "" are `none`.
use codegen_orchestrator.Prelude.{ℕ, String, Bool, Option}

-- shared/contracts/vocab.py
pub data ActionType : Type 0 where
  create feature fix : ActionType

pub data Message : Type 0 where
  engineering_message :
      (task_id project_id initiating_run_id : String)
      → (telegram_chat_id : Option ℕ) → ActionType
      → (description planning_task_id story_id : Option String) → (skip_deploy : Bool)
      → (branch : Option String) → Message
  architect_message :
      (story_id project_id : String)
      → (telegram_chat_id : Option ℕ) → (is_reopen : Bool) → (user_report : Option String) → Message
  -- `POSystemEvent`
  owner_event :
      (event task_id text story_id : String)
      → (telegram_chat_id owner_user_id : Option ℕ) → (project_id : String) → Message
