-- ===== src/Tasks/Actions.antt =====
-- services/api/src/routers/_task_actions.py and `cancel_task` of tasks.py: the transitions.
use codegen_orchestrator.Prelude.{String, Option, none, some, List, [], ◌∷◌, ◌=ₛ◌, if◌then◌else◌}
use codegen_orchestrator.Contracts.Column.{Column, known}
use codegen_orchestrator.Contracts.Json
use codegen_orchestrator.Contracts.Json.{Json, Dict}
use codegen_orchestrator.Contracts.Task.{
  Task, TaskStatus, backlog, in_dev, in_ci, testing, done, failed, cancelled, note, read_status,
}
use codegen_orchestrator.Session.{Handler, unprocessable, pure, lift, require, commit, ◌>>=◌, ◌>>◌}
use codegen_orchestrator.Tasks.Helpers.{
  TaskTransition, status_is, get_task, add_event, validate_transition, move, promote,
}

unfoldable pub start_task : String → TaskTransition → Handler Task
unfolding get_task promote validate_transition move
start_task id body = do
  task ← get_task id
  task ← promote task body.actor
  lift (validate_transition task.status (known in_dev))
  task ← move task (known in_dev) body.actor body.details
  commit
  pure task

-- _COMPLETE_PATH
unfoldable pub complete_path : Column TaskStatus → Option (List TaskStatus)
complete_path (known in_dev) = some (in_ci ∷ testing ∷ done ∷ [])
complete_path (known in_ci) = some (testing ∷ done ∷ [])
complete_path (known testing) = some (done ∷ [])
complete_path _ = none

unfoldable pub move_along : Task → List TaskStatus → String → Dict → Handler Task
unfolding move
move_along task [] actor details = pure task
move_along task (next ∷ path) actor details = do
  task' ← move task (known next) actor details
  move_along task' path actor details

unfoldable pub complete_task : String → TaskTransition → Handler Task
unfolding get_task complete_path move_along
complete_task id body = do
  task ← get_task id
  path ← lift (require unprocessable (complete_path task.status))
  task ← move_along task path body.actor body.details
  commit
  pure task

-- `details["reason"] = body.reason`, for a reason that is not empty.
unfoldable pub with_reason : TaskTransition → Dict
with_reason body = elim body.reason [
  | none ↦ body.details
  | some r ↦ if r =ₛ "" then body.details else Json.put "reason" (Json.text r) body.details
]

unfoldable pub fail_task : String → TaskTransition → Handler Task
unfolding get_task validate_transition move with_reason
fail_task id body = do
  task ← get_task id
  lift (validate_transition task.status (known failed))
  task ← move task (known failed) body.actor (with_reason body)
  commit
  pure task

unfoldable pub reopen_task : String → TaskTransition → Handler Task
unfolding get_task validate_transition move with_reason
reopen_task id body = do
  task ← get_task id
  lift (validate_transition task.status (known backlog))
  task ← move task (known backlog) body.actor (with_reason body)
  commit
  pure task

unfoldable pub resume_task : String → (guidance actor : String) → Handler Task
unfolding get_task validate_transition move add_event
resume_task id guidance actor = do
  task ← get_task id
  lift (validate_transition task.status (known in_dev))
  task ← move task (known in_dev) actor (("guidance", Json.text guidance) ∷ [])
  add_event (record {
    task_id = task.id;
    event_type = note;
    from_status = none;
    to_status = none;
    iteration = none;
    details = ("action", Json.text "guidance") ∷ ("guidance", Json.text guidance) ∷ [];
    actor = actor;
  })
  commit
  pure task

unfoldable pub transition_task : String → (to_status : String) → TaskTransition → Handler Task
unfolding get_task validate_transition move
transition_task id to_status body = do
  task ← get_task id
  lift (validate_transition task.status (read_status to_status))
  task ← move task (read_status to_status) body.actor body.details
  commit
  pure task

unfoldable pub cancel_task : String → Handler Task
unfolding get_task validate_transition move
cancel_task id = do
  task ← get_task id
  if status_is task.status cancelled then pure task else do
    lift (validate_transition task.status (known cancelled))
    task ← move task (known cancelled) "system" []
    commit
    pure task
