-- ===== src/Tasks/Refinement.antt =====
-- Every request changes the task tables by legal steps.
use codegen_orchestrator.Prelude.{
  String, ◌&&◌, none, some, ◌≡◌, refl, inl, inr, arith, Bool-cases, Option-cases, or_else,
}
use codegen_orchestrator.Prelude.Int.{pos, pred_ℤ}
use codegen_orchestrator.Contracts.Column.{known, fits_integer}
use codegen_orchestrator.Contracts.Task.{Task, TaskStatus}
use codegen_orchestrator.Session.{Db, Env, respond, db-discard, ◌>>=◌}
use codegen_orchestrator.Tasks.Helpers.{TaskCreate, TaskUpdate, TaskEventCreate, find_task}
use codegen_orchestrator.Tasks.Steps.{note_step, insert_step, edit_step, ◌⟶*◌, here, next}
use codegen_orchestrator.Tasks.Crud.{
  create_task, push_task, update_task, create_task_event, insert_task, update_fields,
  min_backlog_priority, new_task,
}
use codegen_orchestrator.Tasks.Requests.{
  TaskRequest, create, push, update, start, complete, fail, reopen, resume, transition, cancel,
  spawn, note as note_request, handle_task,
}
use codegen_orchestrator.Tasks.Moves.{
  to_eq, find_task-own, fail_task-⟶*, reopen_task-⟶*, transition_task-⟶*, start_task-⟶*,
  resume_task-⟶*, cancel_task-⟶*,
}
use codegen_orchestrator.Tasks.Paths.{complete_task-⟶*, spawn_worker-⟶*}

insert_task-⟶* :
    (env : Env) (t : Task) (s : TaskStatus) (db : Db)
    → t.status ≡ known s
    → db ⟶* (respond (insert_task env t) db).db
unfolding insert_task ◌>>=◌
insert_task-⟶* env t s db p = elim (Option-cases (find_task t.id db)) [
  | inr (old, e) ↦ elim (Bool-cases (fits_integer t.priority)) [
    | inl l ↦ to_eq here (ground arith)
    | inr l ↦ to_eq here (ground arith)
  ]
  | inl e ↦ elim (Bool-cases (env.keys_valid && fits_integer t.priority)) [
    | inl k ↦ next here (insert_step t s e p (ground arith))
    | inr k ↦ to_eq here (ground arith)
  ]
]

create_task-⟶* :
    (env : Env) (body : TaskCreate) (db : Db) → db ⟶* (respond (create_task env body) db).db
create_task-⟶* env body db =
    unfold create_task new_task in
    insert_task-⟶* env (new_task env body body.priority) body.status db refl

push_task-⟶* :
    (env : Env) (body : TaskCreate) (db : Db) → db ⟶* (respond (push_task env body) db).db
push_task-⟶* env body db =
    unfold push_task new_task ◌>>=◌ in
    insert_task-⟶* env
      (new_task env body (pred_ℤ (or_else (min_backlog_priority db.tasks) (pos 0)))) body.status db
      refl

update_fields-keeps :
    (body : TaskUpdate) (t t' : Task)
    → update_fields body t ≡ some t'
    → (t'.id ≡ t.id) × (t'.status ≡ t.status)
unfolding update_fields
update_fields-keeps body t t' h = ground arith

update_task-⟶* :
    (env : Env) (id : String) (body : TaskUpdate) (db : Db)
    → db ⟶* (respond (update_task env id body) db).db
unfolding update_task ◌>>=◌
update_task-⟶* env id body db = elim (Option-cases (find_task id db)) [
  | inl e ↦ to_eq here (ground arith)
  | inr (t, e) ↦ elim (Option-cases (update_fields body t)) [
    | inl n ↦ to_eq here (ground arith)
    | inr (t', u) ↦ elim (Bool-cases (env.keys_valid && fits_integer t'.priority)) [
      | inl k ↦
          let (same_id, same_status) = update_fields-keeps body t t' u in
          next here (edit_step t t' (find_task-own db id t e) same_id same_status (ground arith))
      | inr k ↦ to_eq here (ground arith)
    ]
  ]
]

create_task_event-⟶* :
    (id : String) (body : TaskEventCreate) (db : Db)
    → db ⟶* (respond (create_task_event id body) db).db
unfolding create_task_event ◌>>=◌
create_task_event-⟶* id body db = elim (Option-cases (find_task id db)) [
  | inl e ↦ to_eq here (ground arith)
  | inr (t, e) ↦ next here (
      note_step
        (record {
          task_id = id;
          event_type = body.event_type;
          from_status = none;
          to_status = none;
          iteration = body.iteration;
          details = body.details;
          actor = body.actor;
        })
        t e refl refl (ground arith))
]

-- Every request for a task changes the task tables by legal steps, whatever it answers: each move
-- is an edge of the transition table and is recorded in the task's history, other events carry no
-- status, new tasks take a new key, and edits keep the status.
pub handle_task-⟶* :
    (env : Env) (request : TaskRequest) (db : Db) → db ⟶* (respond (handle_task env request) db).db
unfolding handle_task
handle_task-⟶* env (create body) db = to_eq (create_task-⟶* env body db) (db-discard _ db)
handle_task-⟶* env (push body) db = to_eq (push_task-⟶* env body db) (db-discard _ db)
handle_task-⟶* env (update id body) db = to_eq (update_task-⟶* env id body db) (db-discard _ db)
handle_task-⟶* env (start id body) db = to_eq (start_task-⟶* id body db) (db-discard _ db)
handle_task-⟶* env (complete id body) db = to_eq (complete_task-⟶* id body db) (db-discard _ db)
handle_task-⟶* env (fail id body) db = to_eq (fail_task-⟶* id body db) (db-discard _ db)
handle_task-⟶* env (reopen id body) db = to_eq (reopen_task-⟶* id body db) (db-discard _ db)
handle_task-⟶* env (resume id guidance actor) db =
    to_eq (resume_task-⟶* id guidance actor db) (db-discard _ db)
handle_task-⟶* env (transition id to body) db =
    to_eq (transition_task-⟶* id body db to) (db-discard _ db)
handle_task-⟶* env (cancel id) db = to_eq (cancel_task-⟶* id db) (db-discard _ db)
handle_task-⟶* env (spawn id actor description) db =
    to_eq (spawn_worker-⟶* env id actor description db) (db-discard _ db)
handle_task-⟶* env (note_request id body) db = create_task_event-⟶* id body db
