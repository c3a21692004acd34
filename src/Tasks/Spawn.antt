-- ===== src/Tasks/Spawn.antt =====
-- `spawn_worker` of services/api/src/routers/_task_actions.py.
use codegen_orchestrator.Prelude.{
  String, Bool, false, not, ◌&&◌, is_some, Option, none, some, [], ◌∷◌, ◌++◌, ◌=ₛ◌, if◌then◌else◌,
}
use codegen_orchestrator.Contracts.Column.{Column, known, unknown}
use codegen_orchestrator.Contracts.Json.{Json}
use codegen_orchestrator.Contracts.Task.{Task, TaskStatus, backlog, todo, in_dev, TaskType}
use codegen_orchestrator.Contracts.Run.{Run, RunStatus, RunType}
use codegen_orchestrator.Contracts.Message.{ActionType, engineering_message}
use codegen_orchestrator.Recipients.{
  find_project, resolve_project_chat_id, initiating_run_or_conflict,
}
use codegen_orchestrator.Session.{
  Env, Handler, Fault, Result, ok, err, not_found, unprocessable, internal, pure, raise, lift, gets,
  require, check, modify, commit, publish, ◌>>=◌, ◌>>◌,
}
use codegen_orchestrator.Runs.Rows.{find_run}
use codegen_orchestrator.Tasks.Helpers.{status_is, get_task, validate_transition, move, promote}

-- Text that is empty counts as missing.
abbrev pub or_text : Option String → Option String → Option String
or_text none other = other
or_text (some t) other = if t =ₛ "" then other else some t

-- `ActionType` of `task.type or "feature"`: there is none for a refactoring task, and pydantic
-- refuses the message.
unfoldable pub spawn_action : Column TaskType → Result ActionType
spawn_action (known TaskType.create) = ok ActionType.create
spawn_action (known TaskType.feature) = ok ActionType.feature
spawn_action (known TaskType.fix) = ok ActionType.fix
spawn_action (known TaskType.refactor) = err internal
spawn_action (unknown t) = if t =ₛ "" then ok ActionType.feature else err internal

-- Why a worker is not started for a task; a text that is no status makes `TaskStatus` raise.
abbrev pub not_startable : Column TaskStatus → Fault
not_startable (known s) = unprocessable
not_startable (unknown s) = internal

-- The move to `in_dev` that `spawn_worker` makes for a task that has not started.
unfoldable pub start_for_worker : Task → String → Handler Task
unfolding promote validate_transition move
start_for_worker task actor =
    if status_is task.status backlog
    then (do
      task ← promote task actor
      lift (validate_transition task.status (known in_dev))
      move task (known in_dev) actor [])
    else if status_is task.status todo
    then (do
      lift (validate_transition task.status (known in_dev))
      move task (known in_dev) actor [])
    else if status_is task.status in_dev
    then pure task
    else raise (not_startable task.status)

unfoldable pub spawned_run : Env → Task → Run
spawned_run env task = record {
  id = env.fresh_id;
  type = known RunType.engineering;
  status = known RunStatus.queued;
  project_id = some task.project_id;
  user_id = none;
  run_metadata = some (("triggered_by", Json.text "admin") ∷ ("task_id", Json.text task.id) ∷ []);
  result = none;
  error_message = none;
  error_traceback = none;
  started_at = none;
  completed_at = none;
  callback_stream = none;
  story_id = task.story_id;
  task_id = some task.id;
  iteration = none;
  observability = [];
}

-- Whether the commit accepts the row of the new run: its key is not taken and its keys are valid.
unfoldable pub accepts_run : Env → Option Run → Bool
accepts_run env taken = not (is_some taken) && env.keys_valid

unfoldable pub spawn_worker :
    Env → String → (actor : String) (description : Option String) → Handler Run
unfolding get_task start_for_worker accepts_run
spawn_worker env id actor description = do
  task ← get_task id
  found ← gets (find_project task.project_id)
  project ← lift (require not_found found)
  initiating ← lift (initiating_run_or_conflict project)
  task ← start_for_worker task actor
  let run = spawned_run env task
  taken ← gets (find_run run.id)
  lift (check (accepts_run env taken) internal)
  modify (λ db. record db { runs = db.runs ++ (run ∷ []) })
  commit
  chat ← gets (resolve_project_chat_id task.project_id)
  action ← lift (spawn_action task.type)
  publish env (
      engineering_message run.id task.project_id initiating chat action
        (or_text description task.description) (some task.id) (or_text task.story_id none) false
        none)
  pure run
