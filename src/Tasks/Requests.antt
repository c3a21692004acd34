-- ===== src/Tasks/Requests.antt =====
-- The requests that change tasks, and the handler of each.
use codegen_orchestrator.Prelude.{List, [], ◌∷◌, String, Option}
use codegen_orchestrator.Session.{Env, Handler, Db, respond, discard}
use codegen_orchestrator.Tasks.Helpers.{TaskTransition, TaskCreate, TaskUpdate, TaskEventCreate}
use codegen_orchestrator.Tasks.Actions.{
  start_task, complete_task, fail_task, reopen_task, resume_task, transition_task, cancel_task,
}
use codegen_orchestrator.Tasks.Spawn.{spawn_worker}
use codegen_orchestrator.Tasks.Crud.{create_task, push_task, update_task, create_task_event}

pub data TaskRequest : Type 0 where
  create push : TaskCreate → TaskRequest
  update : String → TaskUpdate → TaskRequest
  start complete fail reopen : String → TaskTransition → TaskRequest
  resume : String → (guidance actor : String) → TaskRequest
  transition : String → (to_status : String) → TaskTransition → TaskRequest
  cancel : String → TaskRequest
  spawn : String → (actor : String) → (description : Option String) → TaskRequest
  note : String → TaskEventCreate → TaskRequest

unfoldable pub handle_task : Env → TaskRequest → Handler (Unit {0})
handle_task env (create body) = discard (create_task env body)
handle_task env (push body) = discard (push_task env body)
handle_task env (update id body) = discard (update_task env id body)
handle_task env (start id body) = discard (start_task id body)
handle_task env (complete id body) = discard (complete_task id body)
handle_task env (fail id body) = discard (fail_task id body)
handle_task env (reopen id body) = discard (reopen_task id body)
handle_task env (resume id guidance actor) = discard (resume_task id guidance actor)
handle_task env (transition id to body) = discard (transition_task id to body)
handle_task env (cancel id) = discard (cancel_task id)
handle_task env (spawn id actor description) = discard (spawn_worker env id actor description)
handle_task env (note id body) = create_task_event id body

-- The tables after a sequence of requests, one session each.
unfoldable pub serve_tasks : List (Env × TaskRequest) → Db → Db
serve_tasks [] db = db
serve_tasks ((env, r) ∷ rest) db = serve_tasks rest (respond (handle_task env r) db).db
