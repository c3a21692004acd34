-- ===== src/Tasks/Samples.antt =====
-- Tests of the task endpoints, and their theorems at concrete requests.
use codegen_orchestrator.Prelude.{true, false, none, some, List, [], ◌∷◌, ◌≡◌, refl, ◌⊎◌}
use codegen_orchestrator.Prelude.Int.{pos}
use codegen_orchestrator.Prelude.Table
use codegen_orchestrator.Contracts.Column.{known, fits_integer}
use codegen_orchestrator.Contracts.Run.{Run}
use codegen_orchestrator.Contracts.Task.{TaskType, backlog, in_ci, done, cancelled, can_move}
use codegen_orchestrator.Session.{Env, ok, err, unprocessable, respond, discard, ◌>>=◌}
use codegen_orchestrator.Fixtures.{empty_db, task_with, with_task, env_at}
use codegen_orchestrator.Tasks.Helpers.{TaskTransition, TaskCreate}
use codegen_orchestrator.Tasks.Actions.{start_task, complete_task}
use codegen_orchestrator.Tasks.Crud.{push_task, min_backlog_priority, create_task}
use codegen_orchestrator.Tasks.Requests.{
  TaskRequest, create, start, complete, handle_task, serve_tasks,
}
use codegen_orchestrator.Tasks.Steps.{◌⟶*◌}
use codegen_orchestrator.Tasks.Refinement.{handle_task-⟶*}
use codegen_orchestrator.Tasks.History.{IsTraced, serve_tasks-IsTraced, trail}
use codegen_orchestrator.Tasks.Terminal.{status_of, serve_tasks-cancelled}
use codegen_orchestrator.Tasks.Outcomes.{is_working, complete_task_outcome}
use codegen_orchestrator.Tasks.Atomic.{handle_task-Refuses}
use codegen_orchestrator.Tasks.Backlog.{IsAbove, push_task-first}

abbrev body : TaskTransition
body = record { reason = none; actor = "system"; details = [] }

abbrev env : Env
env = env_at 1000 "t"

abbrev new_body : TaskCreate
new_body = record {
  project_id = "p";
  type = TaskType.feature;
  title = "Say hello";
  status = backlog;
  description = none;
  acceptance_criteria = none;
  priority = pos 0;
  max_iterations = 3;
  need_e2e = false;
  created_by = "system";
  source_brainstorm_id = none;
  repository_id = none;
  story_id = none;
  blocked_by_task_id = none;
  failure_metadata = none;
}

abbrev whole_life : List (Env × TaskRequest)
whole_life = (env, create new_body) ∷ (env, start "t" body) ∷ (env, complete "t" body) ∷ []

whole_life_done : status_of "t" (serve_tasks whole_life empty_db) ≡ some (known done)
unfolding serve_tasks handle_task create_task fits_integer start_task complete_task discard can_move
    Table.find Table.save ◌>>=◌
whole_life_done = refl

empty_db-IsTraced : IsTraced empty_db
unfolding trail Table.find
empty_db-IsTraced = record { stored = λ k t e. cc; missing = λ k e. refl }

handle_task-⟶*_example :
    with_task (task_with backlog TaskType.fix)
    ⟶* (respond (handle_task env (start "t" body)) (with_task (task_with backlog TaskType.fix))).db
handle_task-⟶*_example =
    handle_task-⟶* env (start "t" body) (with_task (task_with backlog TaskType.fix))

serve_tasks-IsTraced_example : IsTraced (serve_tasks whole_life empty_db)
serve_tasks-IsTraced_example = serve_tasks-IsTraced whole_life empty_db empty_db-IsTraced

serve_tasks-cancelled_example :
    status_of "t" (serve_tasks whole_life (with_task (task_with cancelled TaskType.fix)))
    ≡ some (known cancelled)
unfolding Table.find
serve_tasks-cancelled_example =
    serve_tasks-cancelled whole_life "t" (with_task (task_with cancelled TaskType.fix)) refl

complete_task_outcome_example :
    let db = with_task (task_with in_ci TaskType.fix) in
    let r = respond (complete_task "t" body) db in
    ((is_working (known in_ci) ≡ true)
      × (r.answer ≡ ok (task_with done TaskType.fix))
      × (status_of "t" r.db ≡ some (known done)))
    ⊎ ((is_working (known in_ci) ≡ false) × (r.answer ≡ err unprocessable) × (r.db ≡ db))
unfolding Table.find
complete_task_outcome_example =
    complete_task_outcome "t" body (with_task (task_with in_ci TaskType.fix))
      (task_with in_ci TaskType.fix) refl

handle_task-Refuses_example :
    (respond (handle_task env (start "t" body)) (with_task (task_with done TaskType.fix))).db
    ≡ with_task (task_with done TaskType.fix)
unfolding handle_task start_task discard can_move Table.find ◌>>=◌
handle_task-Refuses_example =
    handle_task-Refuses env (start "t" body) (with_task (task_with done TaskType.fix)) unprocessable
      refl (λ e. cc)

push_task-first_example : IsAbove (pos 4) (with_task (task_with backlog TaskType.fix)).tasks
unfolding push_task fits_integer min_backlog_priority Table.find ◌>>=◌
push_task-first_example =
    push_task-first (env_at 1000 "u") new_body (with_task (task_with backlog TaskType.fix))
      (record (task_with backlog TaskType.feature) { id = "u"; priority = pos 4; story_id = none })
      refl
