-- ===== src/Fixtures.antt =====
-- Rows and circumstances that the tests share.
use codegen_orchestrator.Prelude.{ℕ, String, true, false, none, some, List, [], ◌∷◌}
use codegen_orchestrator.Prelude.Int.{pos}
use codegen_orchestrator.Contracts.Column.{known}
use codegen_orchestrator.Contracts.Task.{Task, TaskStatus, TaskType}
use codegen_orchestrator.Contracts.Run.{Run, RunStatus, RunType}
use codegen_orchestrator.Contracts.Story.{Story, StoryStatus, StoryType}
use codegen_orchestrator.Contracts.Project.{Project, ProjectStatus, User}
use codegen_orchestrator.Contracts.Json.{Json}
use codegen_orchestrator.Contracts.Access.{
  TemporaryAccessGrant, TemporaryAccessStatus, TemporaryAccessRevokeReason,
}
use codegen_orchestrator.Session.{Db, Env}

abbrev pub empty_db : Db
empty_db = record {
  tasks = [];
  task_events = [];
  stories = [];
  runs = [];
  grants = [];
  projects = [];
  users = [];
}

abbrev pub owner : User
owner = record { id = 7; telegram_id = 4242; is_admin = false }

abbrev pub project : Project
project = record {
  id = "p";
  owner_id = 7;
  initiating_run_id = some "run-0";
  status = known ProjectStatus.active;
  config = some (("workspace_ready", Json.boolean true) ∷ []);
}

abbrev pub task_with : TaskStatus → TaskType → Task
task_with status type = record {
  id = "t";
  project_id = "p";
  type = known type;
  title = "Say hello";
  description = none;
  status = known status;
  priority = pos 5;
  acceptance_criteria = none;
  current_iteration = 0;
  max_iterations = 3;
  plan = none;
  need_e2e = false;
  created_by = "system";
  source_brainstorm_id = none;
  repository_id = none;
  story_id = some "s";
  blocked_by_task_id = none;
  failure_metadata = none;
}

abbrev pub with_task : Task → Db
with_task t = record empty_db { tasks = t ∷ []; projects = project ∷ []; users = owner ∷ [] }

abbrev pub env_at : ℕ → String → Env
env_at now id = record { now = now; fresh_id = id; broker_up = true; keys_valid = true }

abbrev pub story_with : StoryStatus → Story
story_with status = record {
  id = "s";
  project_id = "p";
  parent_story_id = none;
  title = "A bot that says hello";
  description = none;
  acceptance_criteria = none;
  type = StoryType.product;
  status = known status;
  priority = pos 0;
  blocked_by_story_id = none;
  created_by = "system";
  user_report = none;
  quarantine_reason = none;
  pr_number = none;
}

abbrev pub with_stories : List Story → Db
with_stories stories = record empty_db {
  stories = stories;
  projects = project ∷ [];
  users = owner ∷ [];
}

abbrev pub run_with : RunType → RunStatus → Run
run_with type status = record {
  id = "r";
  type = known type;
  status = known status;
  project_id = some "p";
  user_id = none;
  run_metadata = some [];
  result = none;
  error_message = none;
  error_traceback = none;
  started_at = none;
  completed_at = none;
  callback_stream = none;
  story_id = none;
  task_id = none;
  iteration = none;
  observability = [];
}

abbrev pub with_run : Run → Db
with_run r = record empty_db { runs = r ∷ [] }

abbrev pub grant_with : TemporaryAccessStatus → TemporaryAccessGrant
grant_with status = record {
  id = "g";
  project_id = "p";
  env_key = "BOT_OWNER";
  subject = "qa";
  head_sha = "abc";
  qa_run_id = "r";
  grant_run_id = "d";
  qa_message = record { application_id = 12; rest = [] };
  status = status;
  granted_at = 100;
  qa_dispatched_at = none;
  revoked_at = none;
  revoke_reason = some TemporaryAccessRevokeReason.run_terminal;
  revoke_run_id = none;
  revoke_attempts = 0;
  escalated_at = none;
  last_error = none;
  observed_at = none;
  observation_id = none;
  slot_clear_since = none;
  slot_clear_readings = 0;
  reopened_at = none;
}

abbrev pub with_grant : TemporaryAccessGrant → Run → Db
with_grant g r = record empty_db { grants = g ∷ []; runs = r ∷ [] }
