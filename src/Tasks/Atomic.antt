-- ===== src/Tasks/Atomic.antt =====
-- A request that is refused changes nothing.
use codegen_orchestrator.Prelude.{
  String, Option, or_else, ◌≡◌, ◌≢◌, ◌∙◌, refl, arith, Option-cases, inl, inr,
}
use codegen_orchestrator.Prelude.Int.{pos, pred_ℤ}
use codegen_orchestrator.Contracts.Column.{Column}
use codegen_orchestrator.Contracts.Task.{Task, TaskType}
use codegen_orchestrator.Session.{
  Db, Env, Session, Handler, Fault, Result, ok, err, internal, opened, respond, discard, db-discard,
  continue, pure, ◌>>=◌,
}
use codegen_orchestrator.Tasks.Helpers.{
  find_task, TaskTransition, TaskCreate, TaskUpdate, TaskEventCreate,
}
use codegen_orchestrator.Tasks.Actions.{
  start_task, complete_task, complete_path, fail_task, reopen_task, resume_task, transition_task,
  cancel_task,
}
use codegen_orchestrator.Tasks.Crud.{
  create_task, push_task, update_task, create_task_event, insert_task, new_task,
  min_backlog_priority,
}
use codegen_orchestrator.Tasks.Spawn.{spawn_worker, spawn_action}
use codegen_orchestrator.Tasks.Paths.{refused, prepared, start_for_worker-Prepared}
use codegen_orchestrator.Tasks.Outcomes.{complete_along, complete_refused}
use codegen_orchestrator.Tasks.Requests.{
  TaskRequest, create, push, update, start, complete, fail, reopen, resume, transition, cancel,
  spawn, note, handle_task,
}

-- A refusal, an answer of less than 500, leaves the database as it was.
abbrev pub Refuses : {A : Type 0} → Handler A → Db → Type 0
Refuses m db = (f : Fault) → (respond m db).answer ≡ err f → f ≢ internal → (respond m db).db ≡ db

module _ (id : String) (body : TaskTransition) (db : Db) where
  start_task-Refuses : Refuses (start_task id body) db
  unfolding start_task ◌>>=◌
  start_task-Refuses f e n = ground arith

  fail_task-Refuses : Refuses (fail_task id body) db
  unfolding fail_task ◌>>=◌
  fail_task-Refuses f e n = ground arith

  reopen_task-Refuses : Refuses (reopen_task id body) db
  unfolding reopen_task ◌>>=◌
  reopen_task-Refuses f e n = ground arith

  transition_task-Refuses : (to : String) → Refuses (transition_task id to body) db
  unfolding transition_task ◌>>=◌
  transition_task-Refuses to f e n = ground arith

  complete_task-Refuses : Refuses (complete_task id body) db
  complete_task-Refuses f e n = elim (Option-cases (find_task id db)) [
    | inl m ↦ unfold complete_task ◌>>=◌ in ground arith
    | inr (t, m) ↦ elim (Option-cases (complete_path t.status)) [
      | inl p ↦ (complete_refused id body db t m p).1
      | inr (path, p) ↦ cc ((complete_along id body db t path m p).0)
    ]
  ]

module _ (id : String) (db : Db) where
  resume_task-Refuses : (guidance actor : String) → Refuses (resume_task id guidance actor) db
  unfolding resume_task ◌>>=◌
  resume_task-Refuses guidance actor f e n = ground arith

  cancel_task-Refuses : Refuses (cancel_task id) db
  unfolding cancel_task ◌>>=◌
  cancel_task-Refuses f e n = ground arith

spawn_action-internal : (c : Column TaskType) (f : Fault) → spawn_action c ≡ err f → f ≡ internal
unfolding spawn_action
spawn_action-internal c f e = ground arith

module _ (env : Env) (db : Db) where
  insert_task-Refuses : (t : Task) → Refuses (insert_task env t) db
  unfolding insert_task ◌>>=◌
  insert_task-Refuses t f e n = ground arith

  create_task-Refuses : (body : TaskCreate) → Refuses (create_task env body) db
  unfolding create_task
  create_task-Refuses body f e n = insert_task-Refuses (new_task env body body.priority) f e n

  push_task-Refuses : (body : TaskCreate) → Refuses (push_task env body) db
  unfolding push_task ◌>>=◌
  push_task-Refuses body f e n =
      insert_task-Refuses
        (new_task env body (pred_ℤ (or_else (min_backlog_priority db.tasks) (pos 0)))) f e n

  update_task-Refuses : (id : String) (body : TaskUpdate) → Refuses (update_task env id body) db
  unfolding update_task ◌>>=◌
  update_task-Refuses id body f e n = ground (arith)

  spawn_worker-Refuses :
      (id actor : String) (description : Option String)
      → Refuses (spawn_worker env id actor description) db
  unfolding spawn_worker ◌>>=◌
  spawn_worker-Refuses id actor description f e n = elim (Option-cases (find_task id db)) [
    | inl m ↦ ground arith
    | inr (t, m) ↦ elim (start_for_worker-Prepared db id t actor (opened db) refl m) [
      | refused g q ↦ ground arith
      | prepared t' u q steps ↦
          ground (arith, spawn_action-internal t.type f, spawn_action-internal t'.type f)
    ]
  ]

create_task_event-Refuses :
    (id : String) (body : TaskEventCreate) (db : Db) → Refuses (create_task_event id body) db
unfolding create_task_event ◌>>=◌
create_task_event-Refuses id body db f e n = ground arith

answer-discard :
    {A : Type 0} (m : Handler A) (db : Db) (f : Fault)
    → (respond (discard m) db).answer ≡ err f
    → (respond m db).answer ≡ err f
unfolding discard ◌>>=◌
answer-discard m db f e = let (r, s) = m (opened db) in go r s e
  where
    go :
        {A : Type 0} (r : Result A) (s : Session)
        → (continue r (λ _. pure tt) s).0 ≡ err f
        → r ≡ err f
    go (ok a) s h = cc
    go (err g) s h = ground arith

Refuses-discard : {A : Type 0} (m : Handler A) (db : Db) → Refuses m db → Refuses (discard m) db
Refuses-discard m db h f e n = db-discard m db ∙ h f (answer-discard m db f e) n

-- A task request that is answered with a 4xx status leaves the database exactly as it was.
pub handle_task-Refuses :
    (env : Env) (request : TaskRequest) (db : Db) → Refuses (handle_task env request) db
unfolding handle_task
handle_task-Refuses env (create body) db = Refuses-discard _ db (create_task-Refuses env db body)
handle_task-Refuses env (push body) db = Refuses-discard _ db (push_task-Refuses env db body)
handle_task-Refuses env (update id body) db =
    Refuses-discard _ db (update_task-Refuses env db id body)
handle_task-Refuses env (start id body) db = Refuses-discard _ db (start_task-Refuses id body db)
handle_task-Refuses env (complete id body) db =
    Refuses-discard _ db (complete_task-Refuses id body db)
handle_task-Refuses env (fail id body) db = Refuses-discard _ db (fail_task-Refuses id body db)
handle_task-Refuses env (reopen id body) db = Refuses-discard _ db (reopen_task-Refuses id body db)
handle_task-Refuses env (resume id guidance actor) db =
    Refuses-discard _ db (resume_task-Refuses id db guidance actor)
handle_task-Refuses env (transition id to body) db =
    Refuses-discard _ db (transition_task-Refuses id body db to)
handle_task-Refuses env (cancel id) db = Refuses-discard _ db (cancel_task-Refuses id db)
handle_task-Refuses env (spawn id actor description) db =
    Refuses-discard _ db (spawn_worker-Refuses env db id actor description)
handle_task-Refuses env (note id body) db = create_task_event-Refuses id body db
