-- ===== src/Dispatch/Attempts.antt =====
-- services/scheduler/src/tasks/task_dispatcher.py: the attempts that a task already had.
-- Of a run's result only the engineering status is read; its other fields are taken as valid.
use codegen_orchestrator.Prelude.{
  String, Bool, true, false, Option, none, some, List, [], ◌∷◌, ◌=ₛ◌, ◌||◌, if◌then◌else◌, any,
}
use codegen_orchestrator.Contracts.Column.{known, unknown}
use codegen_orchestrator.Contracts.Json
use codegen_orchestrator.Contracts.Json.{Json, Dict, json_eq, lookup_field}
use codegen_orchestrator.Contracts.Task.{
  Task, TaskStatus, in_dev, in_ci, testing, done, failed, waiting_human_review, value,
}
use codegen_orchestrator.Contracts.Run.{Run, RunStatus}
use codegen_orchestrator.Session.{Result, ok, err, internal, discard}
use codegen_orchestrator.Tasks.Helpers.{TaskTransition, status_is}
use codegen_orchestrator.Tasks.Actions.{transition_task}
use codegen_orchestrator.Dispatch.Reads.{list_engineering_runs}
use codegen_orchestrator.Dispatch.Client.{Client, request, return, from_result, ◌>>=◌, ◌>>◌}

pub data EngineeringStatus : Type 0 where
  idle finished gave_up unsuccessful : EngineeringStatus

abbrev read_engineering_status : String → Option EngineeringStatus
read_engineering_status text =
    if text =ₛ "idle"
    then some idle
    else if text =ₛ "done"
    then some finished
    else if text =ₛ "gave_up"
    then some gave_up
    else if text =ₛ "failed"
    then some unsuccessful
    else none

abbrev as_text : Json → Option String
as_text (Json.text t) = some t
as_text _ = none

unfoldable pub engineering_status : Json → Option EngineeringStatus
engineering_status (Json.object fields) = elim (lookup_field "engineering_status" fields) [
  | none ↦ none
  | some v ↦ elim (as_text v) [ none ↦ none | some t ↦ read_engineering_status t ]
]
engineering_status _ = none

-- `RunDTO`, as far as the dispatcher reads it.
pub record RunView : Type 0 where
  pub id : String
  pub status : RunStatus
  pub iteration : Option Json
  pub outcome : Option EngineeringStatus

-- `_TERMINAL_STATUSES_REQUIRING_RESULT`
abbrev requires_result : RunStatus → Bool
requires_result RunStatus.completed = true
requires_result RunStatus.failed = true
requires_result _ = false

abbrev read_outcome : RunStatus → Option Json → Result (Option EngineeringStatus)
read_outcome status none = if requires_result status then err internal else ok none
read_outcome status (some Json.null) = if requires_result status then err internal else ok none
read_outcome status (some result) = elim (engineering_status result) [
  | none ↦ err internal
  | some o ↦ ok (some o)
]

abbrev view_of : Run → RunStatus → Dict → Result (Option EngineeringStatus) → Result RunView
view_of r status metadata (err f) = err f
view_of r status metadata (ok outcome) = ok (record {
  id = r.id;
  status = status;
  iteration = Json.get "iteration" metadata;
  outcome = outcome;
})

-- `RunDTO.model_validate`
unfoldable pub read_run : Run → Result RunView
unfolding engineering_status
read_run r = elim r.project_id [
  | none ↦ err internal
  | some _ ↦ elim r.status [
    | unknown _ ↦ err internal
    | known status ↦ elim r.run_metadata [
      | none ↦ err internal
      | some metadata ↦ view_of r status metadata (read_outcome status r.result)
    ]
  ]
]

abbrev cons_ok {ℓ} : {A : Type ℓ} → Result A → Result (List A) → Result (List A)
cons_ok (err f) rest = err f
cons_ok (ok a) (err f) = err f
cons_ok (ok a) (ok as') = ok (a ∷ as')

-- `[RunDTO.model_validate(r) for r in resp.json()]`
unfoldable pub read_runs : List Run → Result (List RunView)
unfolding read_run
read_runs [] = ok []
read_runs (r ∷ rs) = cons_ok (read_run r) (read_runs rs)

unfoldable pub list_runs : (task_id : String) → Client (List RunView)
unfolding read_runs list_engineering_runs
list_runs task_id = do
  rows ← request (λ env. list_engineering_runs task_id)
  from_result (read_runs rows)

-- `_LIVE_RUN_STATUSES`
abbrev pub is_live : RunStatus → Bool
is_live RunStatus.queued = true
is_live RunStatus.running = true
is_live _ = false

unfoldable pub first_live : List RunView → Option RunView
first_live [] = none
first_live (r ∷ rs) = if is_live r.status then some r else first_live rs

abbrev pub is_iteration : Task → Option Json → Bool
is_iteration task none = false
is_iteration task (some n) = json_eq n (Json.number task.current_iteration)

unfoldable pub first_of_iteration : Task → List RunView → Option RunView
first_of_iteration task [] = none
first_of_iteration task (r ∷ rs) =
    if is_iteration task r.iteration then some r else first_of_iteration task rs

unfoldable pub find_unfinished_run : Task → Client (Option RunView)
unfolding list_runs first_live
find_unfinished_run task = do runs ← list_runs task.id; return (first_live runs)

unfoldable pub find_dispatched_run : Task → Client (Option RunView)
unfolding list_runs first_of_iteration
find_dispatched_run task = do runs ← list_runs task.id; return (first_of_iteration task runs)

abbrev pub dispatcher : TaskTransition
dispatcher = record { reason = none; actor = "dispatcher"; details = [] }

-- `api_client.transition_task(task_id, status, "dispatcher")`
unfoldable pub transition : (task_id : String) → TaskStatus → Client (Unit {0})
transition task_id status =
    request (λ env. discard (transition_task task_id (value status) dispatcher))

abbrev gave_up_is : Option EngineeringStatus → Bool
gave_up_is (some gave_up) = true
gave_up_is _ = false

-- services/scheduler/src/tasks/worker_liveness.py
unfoldable pub terminal_task_statuses : RunView → List TaskStatus
terminal_task_statuses run = elim run.status [
  | RunStatus.completed ↦ in_ci ∷ testing ∷ done ∷ []
  | RunStatus.failed ↦ if gave_up_is run.outcome then waiting_human_review ∷ [] else failed ∷ []
  | _ ↦ failed ∷ []
]

unfoldable pub transition_all : (task_id : String) → List TaskStatus → Client (Unit {0})
unfolding transition
transition_all task_id [] = return tt
transition_all task_id (s ∷ ss) = do transition task_id s; transition_all task_id ss

unfoldable pub recover_dispatched_task : (task_id : String) → RunView → Client (Unit {0})
unfolding transition transition_all terminal_task_statuses
recover_dispatched_task task_id run = do
  transition task_id in_dev
  transition_all task_id (terminal_task_statuses run)

unfoldable pub story_blocks_dispatch : List Task → Bool
story_blocks_dispatch siblings =
    any (λ t. status_is t.status in_dev) siblings
    || any (λ t. status_is t.status waiting_human_review) siblings

pub data PriorAttempt : Type 0 where
  recovered blocked replayed : PriorAttempt

-- `_DISPATCH_COMPLETING`
abbrev pub completes : PriorAttempt → Bool
completes recovered = true
completes blocked = false
completes replayed = true

abbrev own_or_other : Bool → PriorAttempt
own_or_other own = if own then recovered else blocked

-- What the newest finished run of this iteration leads to, if there is one.
unfoldable pub replay : Task → Option RunView → Client (Option PriorAttempt)
unfolding recover_dispatched_task
replay task none = return none
replay task (some run) = do recover_dispatched_task task.id run; return (some replayed)

-- What an unfinished run leads to, if there is one.
unfoldable pub handle_unfinished : Task → Option RunView → Client (Option PriorAttempt)
unfolding transition find_dispatched_run replay
handle_unfinished task (some run) = do
  transition task.id in_dev
  return (some (own_or_other (is_iteration task run.iteration)))
handle_unfinished task none = do prior ← find_dispatched_run task; replay task prior

unfoldable pub handle_prior_attempt : Task → Client (Option PriorAttempt)
unfolding find_unfinished_run handle_unfinished
handle_prior_attempt task = do
  unfinished ← find_unfinished_run task
  handle_unfinished task unfinished
