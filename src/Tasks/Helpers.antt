-- ===== src/Tasks/Helpers.antt =====
-- services/api/src/routers/_task_helpers.py, and the request bodies of the task endpoints.
use codegen_orchestrator.Prelude.{
  ℕ, String, Bool, false, Option, none, some, [], ◌∷◌, ◌++◌, if◌then◌else◌,
}
use codegen_orchestrator.Prelude.Int.{ℤ}
use codegen_orchestrator.Prelude.Table
use codegen_orchestrator.Contracts.Column.{Column, known, unknown, Patch}
use codegen_orchestrator.Contracts.Json.{Json, Dict}
use codegen_orchestrator.Contracts.Task.{
  Task, TaskEvent, TaskStatus, backlog, todo, TaskType, TaskEventType, status_change, can_move, is,
}
use codegen_orchestrator.Session.{
  Db, Env, Handler, Result, err, not_found, unprocessable, pure, raise, lift, gets, require, modify,
  commit, rollback, check, ◌>>=◌, ◌>>◌,
}

-- The body of the action endpoints.
pub record TaskTransition : Type 0 where
  pub reason : Option String
  pub actor : String
  pub details : Dict

-- The body of `POST /tasks/` and `POST /tasks/push`.
pub record TaskCreate : Type 0 where
  pub project_id : String
  pub type : TaskType
  pub title : String
  pub status : TaskStatus
  pub description : Option String
  pub acceptance_criteria : Option String
  pub priority : ℤ
  pub max_iterations : ℕ
  pub need_e2e : Bool
  pub created_by : String
  pub source_brainstorm_id : Option String
  pub repository_id : Option String
  pub story_id : Option String
  pub blocked_by_task_id : Option String
  pub failure_metadata : Option Json

-- The body of `PATCH /tasks/{task_id}`.
pub record TaskUpdate : Type 0 where
  pub project_id : Patch String
  pub title : Patch String
  pub description : Patch String
  pub plan : Patch String
  pub acceptance_criteria : Patch String
  pub priority : Patch ℤ
  pub need_e2e : Patch Bool
  pub repository_id : Patch String
  pub story_id : Patch String
  pub blocked_by_task_id : Patch String
  pub source_brainstorm_id : Patch String
  pub current_iteration : Patch ℕ
  pub failure_metadata : Patch Json

-- The body of `POST /tasks/{task_id}/events`.
pub record TaskEventCreate : Type 0 where
  pub event_type : TaskEventType
  pub iteration : Option ℕ
  pub details : Dict
  pub actor : String

abbrev pub task_key : Task → String
task_key t = t.id

abbrev pub find_task : String → Db → Option Task
find_task id db = Table.find task_key id db.tasks

abbrev pub status_is : Column TaskStatus → TaskStatus → Bool
status_is (known s) t = is s t
status_is (unknown _) t = false

unfoldable pub get_task : String → Handler Task
get_task id = do found ← gets (find_task id); lift (require not_found found)

-- The ORM object was changed in place; the flush writes its row.
unfoldable pub save_task : Task → Handler (Unit {0})
save_task t = modify (λ db. record db { tasks = Table.save task_key t db.tasks })

unfoldable pub add_event : TaskEvent → Handler (Unit {0})
add_event e = modify (λ db. record db { task_events = db.task_events ++ (e ∷ []) })

unfoldable pub create_status_event :
    Task → Column TaskStatus → Column TaskStatus → String → Dict → Handler (Unit {0})
unfolding add_event
create_status_event task from to actor details = add_event (record {
  task_id = task.id;
  event_type = status_change;
  from_status = some from;
  to_status = some to;
  iteration = none;
  details = details;
  actor = actor;
})

unfoldable pub validate_transition : Column TaskStatus → Column TaskStatus → Result (Unit {0})
validate_transition (known from) (known to) = check (can_move from to) unprocessable
validate_transition (known from) (unknown _) = err unprocessable
validate_transition (unknown _) to = err unprocessable

unfoldable pub commit_or_raise_fk : Env → Handler (Unit {0})
commit_or_raise_fk env = if env.keys_valid then commit else (do rollback; raise unprocessable)

-- `task.status = to` and the event that records it.
unfoldable pub move : Task → Column TaskStatus → String → Dict → Handler Task
unfolding save_task create_status_event
move task to actor details = do
  let moved = record task { status = to }
  save_task moved
  create_status_event task task.status to actor details
  pure moved

-- The auto-promotion of a backlog task, in `start_task` and `spawn_worker`.
unfoldable pub promote : Task → String → Handler Task
unfolding move
promote task actor =
    if status_is task.status backlog then move task (known todo) actor [] else pure task
