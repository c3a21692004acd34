-- ===== src/Dispatch/Tick.antt =====
-- services/scheduler/src/tasks/task_dispatcher.py: `dispatch_todo_tasks`. The API client is that of
-- services/scheduler/src/clients/api.py.
use Prim.Native.String.{◌++◌ as append}
use codegen_orchestrator.Prelude.{
  ℕ, suc, String, Bool, true, false, Option, none, some, List, [], ◌∷◌, ◌++◌, ◌=ₛ◌, ◌&&◌, not,
  if◌then◌else◌, or_else,
}
use codegen_orchestrator.Contracts.Column.{Column, known, unknown}
use codegen_orchestrator.Contracts.Json
use codegen_orchestrator.Contracts.Json.{Json, Dict, truthy}
use codegen_orchestrator.Contracts.Task.{Task, TaskEvent, TaskStatus, todo, done, value}
use codegen_orchestrator.Contracts.Project.{Project, ProjectStatus}
use codegen_orchestrator.Session.{Result, ok, err, internal}
use codegen_orchestrator.Tasks.Helpers as Endpoint
use codegen_orchestrator.Tasks.Helpers.{status_is}
use codegen_orchestrator.Dispatch.Reads.{TaskFilters, list_tasks}
use codegen_orchestrator.Dispatch.Reads as Reads
use codegen_orchestrator.Dispatch.Client.{Client, request, return, from_result, ◌>>=◌}
use codegen_orchestrator.Dispatch.Attempts.{
  PriorAttempt, completes, story_blocks_dispatch, handle_prior_attempt,
}
use codegen_orchestrator.Dispatch.Recipient.{get_project}
use codegen_orchestrator.Dispatch.Publish.{
  build_cumulative_context, create_and_publish_run, transition_to_in_dev,
}

abbrev is_known {ℓ} : {A : Type ℓ} → Column A → Bool
is_known (known _) = true
is_known (unknown _) = false

-- `TaskDTO.model_validate`
abbrev pub check_task : Task → Result Task
check_task t = if is_known t.status && is_known t.type then ok t else err internal

abbrev cons_checked : Result Task → Result (List Task) → Result (List Task)
cons_checked (err f) rest = err f
cons_checked (ok t) (err f) = err f
cons_checked (ok t) (ok ts) = ok (t ∷ ts)

unfoldable pub check_tasks : List Task → Result (List Task)
check_tasks [] = ok []
check_tasks (t ∷ ts) = cons_checked (check_task t) (check_tasks ts)

unfoldable pub get_task : String → Client Task
get_task id = do row ← request (λ env. Endpoint.get_task id); from_result (check_task row)

unfoldable pub get_tasks : TaskFilters → Client (List Task)
unfolding check_tasks
get_tasks filters = do rows ← request (λ env. list_tasks filters); from_result (check_tasks rows)

abbrev pub by_status : TaskStatus → TaskFilters
by_status s = record { status = some (value s); story_id = none }

abbrev pub by_story : String → TaskFilters
by_story id = record { status = none; story_id = some id }

abbrev pub internal_project_id : String
internal_project_id = "033c2033-fc75-4d86-ade2-08efe7b15a5e"

-- An optional text that is there and is not empty.
abbrev pub given : Option String → Option String
given none = none
given (some t) = if t =ₛ "" then none else some t

unfoldable pub done_blocker : Option String → Client Bool
unfolding get_task
done_blocker none = return true
done_blocker (some id) = do blocker ← get_task id; return (status_is blocker.status done)

-- Nothing blocks the task, or its blocker is done.
unfoldable pub blocker_resolved : Task → Client Bool
unfolding done_blocker
blocker_resolved task = done_blocker (given task.blocked_by_task_id)

abbrev pub paired : Project → Option String → Option (Project × String)
paired p none = none
paired p (some run) = some (p, run)

-- `require_initiating_run`, where the project predates run ownership: `none`.
abbrev pub with_run : Option Project → Option (Project × String)
with_run none = none
with_run (some p) = paired p (given p.initiating_run_id)

unfoldable pub project_and_initiating_run : String → Client (Option (Project × String))
unfolding get_project
project_and_initiating_run project_id = do
  project ← get_project project_id
  return (with_run project)

abbrev pub is_draft : Column ProjectStatus → Bool
is_draft (known ProjectStatus.draft) = true
is_draft _ = false

-- `(project.config or {}).get("workspace_ready")`
abbrev pub workspace_ready : Project → Bool
unfolding truthy Json.get
workspace_ready p = truthy (or_else (Json.get "workspace_ready" (or_else p.config [])) Json.null)

unfoldable pub siblings_of : Option String → Client (List Task)
unfolding get_tasks
siblings_of none = return []
siblings_of (some story_id) = get_tasks (by_story story_id)

unfoldable pub read_siblings : Task → Client (List Task)
unfolding get_tasks siblings_of
read_siblings task = siblings_of (given task.story_id)

-- The events of the other tasks of the story that are done.
unfoldable pub sibling_events : Task → List Task → Client (List TaskEvent)
sibling_events task [] = return []
sibling_events task (s ∷ ss) = do
  events ←
      if not (s.id =ₛ task.id) && status_is s.status done
      then request (λ env. Reads.get_task_events s.id)
      else return []
  rest ← sibling_events task ss
  return (events ++ rest)

unfoldable pub count : Bool → ℕ → ℕ
count true n = suc n
count false n = n

module _ (str : Json → String) where
  abbrev pub enriched : Task → List TaskEvent → String
  unfolding build_cumulative_context
  enriched task events = append (build_cumulative_context str events) (or_else task.description "")

  -- What the tick does once a message may be out.
  unfoldable pub finish : Task → Option String → Client Bool
  unfolding transition_to_in_dev
  finish task none = return false
  finish task (some run_id) = transition_to_in_dev task.id

  unfoldable pub start_attempt : Task → (initiating_run_id : String) → List Task → Client Bool
  unfolding sibling_events create_and_publish_run finish
  start_attempt task initiating_run_id siblings = do
    events ← sibling_events task siblings
    run_id ← create_and_publish_run task (enriched task events) initiating_run_id
    finish task run_id

  unfoldable pub after_prior :
      Task → (initiating_run_id : String) → List Task → Option PriorAttempt → Client Bool
  unfolding start_attempt
  after_prior task initiating_run_id siblings (some prior) = return (completes prior)
  after_prior task initiating_run_id siblings none = start_attempt task initiating_run_id siblings

  unfoldable pub dispatch_unblocked : Task → (initiating_run_id : String) → Client Bool
  unfolding read_siblings story_blocks_dispatch handle_prior_attempt after_prior
  dispatch_unblocked task initiating_run_id = do
    siblings ← read_siblings task
    if story_blocks_dispatch siblings
        then return false
        else do prior ← handle_prior_attempt task; after_prior task initiating_run_id siblings prior

  unfoldable pub dispatch_resolved : Task → Option (Project × String) → Client Bool
  unfolding dispatch_unblocked
  dispatch_resolved task none = return false
  dispatch_resolved task (some (project, initiating_run_id)) =
      if is_draft project.status
      then return false
      else if workspace_ready project
      then dispatch_unblocked task initiating_run_id
      else return false

  -- The body of the loop, and whether it counts the task as dispatched.
  unfoldable pub dispatch_task : Task → Client Bool
  unfolding blocker_resolved project_and_initiating_run dispatch_resolved
  dispatch_task task = do
    free ← blocker_resolved task
    if not free
        then return false
        else if task.project_id =ₛ internal_project_id
        then return false
        else do
          resolved ← project_and_initiating_run task.project_id
          dispatch_resolved task resolved

  -- An exception ends the loop.
  unfoldable pub dispatch_each : List Task → Client ℕ
  unfolding dispatch_task count
  dispatch_each [] = return 0
  dispatch_each (t ∷ ts) = do
    counted ← dispatch_task t
    n ← dispatch_each ts
    return (count counted n)

  unfoldable pub dispatch_todo_tasks : Client ℕ
  unfolding get_tasks dispatch_each
  dispatch_todo_tasks = do tasks ← get_tasks (by_status todo); dispatch_each tasks
