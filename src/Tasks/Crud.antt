-- ===== src/Tasks/Crud.antt =====
-- services/api/src/routers/tasks.py: creating and editing tasks, and the events that clients add.
use codegen_orchestrator.Prelude.{
  String, Option, none, some, List, [], ◌∷◌, ◌++◌, Bool, ◌||◌, if◌then◌else◌, or_else, is_some,
}
use codegen_orchestrator.Prelude.Int.{ℤ, pos, leb_ℤ, pred_ℤ}
use codegen_orchestrator.Contracts.Column.{fits_integer, known, patched, sets_null, assigned}
use codegen_orchestrator.Contracts.Task.{Task, backlog}
use codegen_orchestrator.Session.{
  Env, Handler, internal, unprocessable, pure, raise, check, lift, gets, require, modify, commit,
  rollback, ◌>>=◌, ◌>>◌,
}
use codegen_orchestrator.Tasks.Helpers.{
  find_task, status_is, get_task, save_task, add_event, commit_or_raise_fk, TaskCreate, TaskUpdate,
  TaskEventCreate,
}

-- A row is added unless its priority does not fit the column, its key is taken, or a foreign key is
-- not accepted.
unfoldable pub insert_task : Env → Task → Handler Task
unfolding commit_or_raise_fk
insert_task env task = do
  lift (check (fits_integer task.priority) internal)
  taken ← gets (find_task task.id)
  if is_some taken then (do rollback; raise unprocessable) else do
    modify (λ db. record db { tasks = db.tasks ++ (task ∷ []) })
    commit_or_raise_fk env
    pure task

unfoldable pub new_task : Env → TaskCreate → ℤ → Task
new_task env body priority = record {
  id = env.fresh_id;
  project_id = body.project_id;
  type = known body.type;
  title = body.title;
  description = body.description;
  status = known body.status;
  priority = priority;
  acceptance_criteria = body.acceptance_criteria;
  current_iteration = 0;
  max_iterations = body.max_iterations;
  plan = none;
  need_e2e = body.need_e2e;
  created_by = body.created_by;
  source_brainstorm_id = body.source_brainstorm_id;
  repository_id = body.repository_id;
  story_id = body.story_id;
  blocked_by_task_id = body.blocked_by_task_id;
  failure_metadata = body.failure_metadata;
}

unfoldable pub create_task : Env → TaskCreate → Handler Task
unfolding insert_task new_task
create_task env body = insert_task env (new_task env body body.priority)

-- `select(func.min(Task.priority)).where(Task.status == "backlog")`
unfoldable pub min_backlog_priority : List Task → Option ℤ
min_backlog_priority [] = none
min_backlog_priority (t ∷ ts) =
    let rest = min_backlog_priority ts in
    if status_is t.status backlog
    then some
        (elim rest [ none ↦ t.priority | some p ↦ if leb_ℤ t.priority p then t.priority else p ])
    else rest

unfoldable pub push_task : Env → TaskCreate → Handler Task
unfolding insert_task new_task min_backlog_priority
push_task env body = do
  least ← gets (λ db. min_backlog_priority db.tasks)
  insert_task env (new_task env body (pred_ℤ (or_else least (pos 0))))

unfoldable pub violates : TaskUpdate → Bool
violates body =
    sets_null body.project_id
    || sets_null body.title
    || sets_null body.priority
    || sets_null body.need_e2e
    || sets_null body.current_iteration

-- The `setattr` loop of `update_task`; `none` is a row that the database refuses.
unfoldable pub update_fields : TaskUpdate → Task → Option Task
update_fields body task =
    if violates body
    then none
    else some (record task {
      project_id = assigned body.project_id task.project_id;
      title = assigned body.title task.title;
      description = patched body.description task.description;
      plan = patched body.plan task.plan;
      acceptance_criteria = patched body.acceptance_criteria task.acceptance_criteria;
      priority = assigned body.priority task.priority;
      need_e2e = assigned body.need_e2e task.need_e2e;
      repository_id = patched body.repository_id task.repository_id;
      story_id = patched body.story_id task.story_id;
      blocked_by_task_id = patched body.blocked_by_task_id task.blocked_by_task_id;
      source_brainstorm_id = patched body.source_brainstorm_id task.source_brainstorm_id;
      current_iteration = assigned body.current_iteration task.current_iteration;
      failure_metadata = patched body.failure_metadata task.failure_metadata;
    })

unfoldable pub update_task : Env → String → TaskUpdate → Handler Task
unfolding get_task update_fields save_task commit_or_raise_fk
update_task env id body = do
  task ← get_task id
  updated ← lift (require unprocessable (update_fields body task))
  lift (check (fits_integer updated.priority) internal)
  save_task updated
  commit_or_raise_fk env
  pure updated

unfoldable pub create_task_event : String → TaskEventCreate → Handler (Unit {0})
unfolding get_task add_event
create_task_event id body = do
  _ ← get_task id
  add_event (record {
    task_id = id;
    event_type = body.event_type;
    from_status = none;
    to_status = none;
    iteration = body.iteration;
    details = body.details;
    actor = body.actor;
  })
  commit
