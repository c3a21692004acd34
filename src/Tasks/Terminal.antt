-- ===== src/Tasks/Terminal.antt =====
-- A cancelled task stays cancelled.
use codegen_orchestrator.Prelude.{
  String, false, Option, none, some, List, [], ◌∷◌, ◌≡◌, refl, arith, eq_iff,
}
use codegen_orchestrator.Prelude.Table
use codegen_orchestrator.Contracts.Column.{Column, known}
use codegen_orchestrator.Contracts.Task.{TaskStatus, cancelled, can_move}
use codegen_orchestrator.Session.{Db, Env, respond}
use codegen_orchestrator.Tasks.Helpers.{task_key, find_task}
use codegen_orchestrator.Tasks.Steps.{
  TaskStep, move_step, note_step, insert_step, edit_step, run_step, ◌⟶*◌, here, next,
}
use codegen_orchestrator.Tasks.Requests.{TaskRequest, handle_task, serve_tasks}
use codegen_orchestrator.Tasks.Refinement.{handle_task-⟶*}

-- The status column of a task, if there is one.
abbrev pub status_of : String → Db → Option (Column TaskStatus)
status_of id db = elim (find_task id db) [ none ↦ none | some t ↦ some t.status ]

not-can_move-cancelled : (s : TaskStatus) → can_move cancelled s ≡ false
unfolding can_move
not-can_move-cancelled s = refl

module _ (id : String) where
  TaskStep-cancelled :
      {db db' : Db}
      → TaskStep db db'
      → status_of id db ≡ some (known cancelled)
      → status_of id db' ≡ some (known cancelled)
  TaskStep-cancelled {db} (move_step t from to actor details e p c q) h = ground (
    arith,
    q,
    not-can_move-cancelled to,
    Table.find-save task_key (record t { status = known to }) id db.tasks,
    eq_iff t.id id,
  )
  TaskStep-cancelled {db} (note_step ev t e p r q) h = ground (arith, q)
  TaskStep-cancelled {db} (insert_step t s e p q) h =
      ground (arith, q, Table.find-append task_key t id db.tasks)
  TaskStep-cancelled {db} (edit_step t t' e p r q) h =
      ground (arith, q, Table.find-save task_key t' id db.tasks, eq_iff t'.id id)
  TaskStep-cancelled {db} (run_step r q) h = ground (arith, q)

  ⟶*-cancelled :
      {db db' : Db}
      → db ⟶* db'
      → status_of id db ≡ some (known cancelled)
      → status_of id db' ≡ some (known cancelled)
  ⟶*-cancelled here h = h
  ⟶*-cancelled (next steps step) h = TaskStep-cancelled step (⟶*-cancelled steps h)

-- No sequence of task requests brings a cancelled task back: it stays stored, and cancelled.
pub serve_tasks-cancelled :
    (requests : List (Env × TaskRequest)) (id : String) (db : Db)
    → status_of id db ≡ some (known cancelled)
    → status_of id (serve_tasks requests db) ≡ some (known cancelled)
unfolding serve_tasks
serve_tasks-cancelled [] id db h = h
serve_tasks-cancelled ((env, r) ∷ rest) id db h =
    serve_tasks-cancelled rest id (respond (handle_task env r) db).db
      (⟶*-cancelled id (handle_task-⟶* env r db) h)
