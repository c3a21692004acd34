-- ===== src/Dispatch/Publish.antt =====
-- services/scheduler/src/tasks/task_dispatcher.py: what goes into a new attempt, and how it is
-- published. `str` stands for Python's `str` on a JSON value that is not a text.
use Prim.Native.String.{◌++◌ as append}
use codegen_orchestrator.Prelude.{
  ℕ, String, Bool, true, false, Option, none, some, List, [], ◌∷◌, ◌=ₛ◌, if◌then◌else◌, or_else,
}
use codegen_orchestrator.Contracts.Column.{Column, known, unknown, unset, set}
use codegen_orchestrator.Contracts.Json
use codegen_orchestrator.Contracts.Json.{
  Json, Dict, truthy, text, number, boolean, null, object, field, end_fields,
}
use codegen_orchestrator.Contracts.Task.{
  Task, TaskEvent, TaskType, TaskEventType, in_dev, iteration_end,
}
use codegen_orchestrator.Contracts.Run.{RunStatus, RunType, RunCreate, RunUpdate}
use codegen_orchestrator.Contracts.Message.{Message, ActionType, engineering_message}
use codegen_orchestrator.Session.{ok, discard}
use codegen_orchestrator.Runs.Update.{create_run, update_run}
use codegen_orchestrator.Dispatch.Attempts.{transition}
use codegen_orchestrator.Dispatch.Recipient.{service, resolve_project_recipient}
use codegen_orchestrator.Dispatch.Client.{Client, request, return, attempt, publish, ◌>>=◌, ◌>>◌}

abbrev is_iteration_end : TaskEventType → Bool
is_iteration_end iteration_end = true
is_iteration_end _ = false

module _ (str : Json → String) where
  -- What an f-string makes of a value.
  abbrev pub formatted : Json → String
  formatted (text t) = t
  formatted v = str v

  abbrev pub commit_note : Json → String
  commit_note v = if truthy v then append " (commit: " (append (formatted v) ")") else ""

  unfoldable pub context_line : TaskEvent → Option String
  unfolding truthy Json.get
  context_line e =
      let summary = or_else (Json.get "summary" e.details) (text "") in
      let commit = or_else (Json.get "commit_sha" e.details) (text "") in
      if is_iteration_end e.event_type
      then if truthy summary
        then some (append "- " (append (formatted summary) (commit_note commit)))
        else none
      else none

  unfoldable pub context_lines : List TaskEvent → List String
  unfolding context_line
  context_lines [] = []
  context_lines (e ∷ es) = elim (context_line e) [
    | none ↦ context_lines es
    | some l ↦ l ∷ context_lines es
  ]

  -- `"\n".join(lines)`
  unfoldable pub join_lines : List String → String
  join_lines [] = ""
  join_lines (l ∷ []) = l
  join_lines (l ∷ m ∷ ls) = append l (append "\n" (join_lines (m ∷ ls)))

  abbrev context_of : List String → String
  unfolding join_lines
  context_of [] = ""
  context_of (l ∷ ls) =
      append "## Context from completed tasks\n" (append (join_lines (l ∷ ls)) "\n\n")

  unfoldable pub build_cumulative_context : List TaskEvent → String
  unfolding context_lines join_lines
  build_cumulative_context events = context_of (context_lines events)

abbrev optional_text : Option String → Json
optional_text none = null
optional_text (some t) = text t

unfoldable pub attempt_metadata : Task → (initiating_run_id : String) → Dict
attempt_metadata task initiating_run_id =
    ("triggered_by", text "dispatcher")
    ∷ ("story_id", optional_text task.story_id)
    ∷ ("task_id", text task.id)
    ∷ ("initiating_run_id", text initiating_run_id)
    ∷ ("iteration", number task.current_iteration)
    ∷ []

unfoldable pub attempt_run : Task → (run_id initiating_run_id : String) → RunCreate
unfolding attempt_metadata
attempt_run task run_id initiating_run_id = record {
  id = run_id;
  type = known RunType.engineering;
  project_id = some task.project_id;
  user_id = none;
  story_id = none;
  task_id = some task.id;
  run_metadata = attempt_metadata task initiating_run_id;
  callback_stream = none;
}

-- `EngineeringRunResult(engineering_status=FAILED).model_dump(mode="json")`
abbrev pub failed_result : Json
failed_result = object (
    field "engineering_status" (text "failed") (
      field "commit_sha" null (
        field "selected_modules" null (
          field "test_results" null (
            field "allocation_failure_reason" null (
              field "allocation_required_ram_mb" null
                (field "allocation_min_disk_mb" null end_fields)))))))

unfoldable pub publish_failed_update : Task → (initiating_run_id : String) → RunUpdate
unfolding attempt_metadata Json.put
publish_failed_update task initiating_run_id = record {
  status = set (some (known RunStatus.failed));
  run_metadata = set (
      some (
        Json.put "publish_failed" (boolean true)
          (Json.put "iteration" null (attempt_metadata task initiating_run_id))));
  result = set (some failed_result);
  error_message = set (some "dispatch publish failed");
  error_traceback = unset;
  started_at = unset;
  completed_at = unset;
  iteration = unset;
  observability = [];
}

-- There is no action for a refactoring task. A task of an unknown type was refused when it was read.
unfoldable pub dispatch_action : Column TaskType → ActionType
dispatch_action (known TaskType.create) = ActionType.create
dispatch_action (known TaskType.feature) = ActionType.feature
dispatch_action (known TaskType.fix) = ActionType.fix
dispatch_action (known TaskType.refactor) = ActionType.feature
dispatch_action (unknown _) = ActionType.feature

abbrev branch_of : Option String → Option String
branch_of none = none
branch_of (some s) = if s =ₛ "" then none else some (append "story/" s)

unfoldable pub attempt_message :
    Task → (description initiating_run_id run_id : String) → (telegram_chat_id : Option ℕ) → Message
unfolding dispatch_action
attempt_message task description initiating_run_id run_id chat =
    engineering_message run_id task.project_id initiating_run_id chat (dispatch_action task.type)
      (some description) (some task.id) task.story_id true (branch_of task.story_id)

-- `uuid.uuid4().hex[:12]` is the random text that the next request would meet.
unfoldable pub new_run_id : Client String
new_run_id w = (ok (append "eng-" (w.coming 0).env.fresh_id), w)

-- The run is closed when its message was not published.
unfoldable pub close_unpublished :
    Task → (run_id initiating_run_id : String) → Option (Unit {0}) → Client (Option String)
unfolding publish_failed_update
close_unpublished task run_id initiating_run_id (some _) = return (some run_id)
close_unpublished task run_id initiating_run_id none = do
  request (λ env.
      discard (update_run env service run_id (publish_failed_update task initiating_run_id)))
  return none

unfoldable pub create_and_publish_run :
    Task → (description initiating_run_id : String) → Client (Option String)
unfolding attempt_run resolve_project_recipient attempt_message new_run_id close_unpublished attempt
create_and_publish_run task description initiating_run_id = do
  run_id ← new_run_id
  request (λ env. discard (create_run env (attempt_run task run_id initiating_run_id)))
  recipient ← resolve_project_recipient task.project_id
  published ← attempt (
      publish
        (attempt_message task description initiating_run_id run_id recipient.telegram_chat_id))
  close_unpublished task run_id initiating_run_id published

-- The second try, if the first one raised.
unfoldable pub retried : String → Option (Unit {0}) → Client (Option (Unit {0}))
unfolding transition attempt
retried task_id (some u) = return (some u)
retried task_id none = attempt (transition task_id in_dev)

abbrev succeeded : Option (Unit {0}) → Bool
succeeded none = false
succeeded (some _) = true

unfoldable pub transition_to_in_dev : (task_id : String) → Client Bool
unfolding transition attempt retried
transition_to_in_dev task_id = do
  first ← attempt (transition task_id in_dev)
  second ← retried task_id first
  return (succeeded second)
