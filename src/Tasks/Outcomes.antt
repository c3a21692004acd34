-- ===== src/Tasks/Outcomes.antt =====
-- What the endpoints answer, and what they leave behind.
use codegen_orchestrator.Prelude.{
  String, Bool, true, false, none, some, List, ◌≡◌, ◌⊎◌, ◌∙◌, ap, arith, Option-cases, inl, inr,
}
use codegen_orchestrator.Contracts.Column.{Column, known}
use codegen_orchestrator.Contracts.Task.{Task, TaskStatus, in_dev, in_ci, testing, done}
use codegen_orchestrator.Session.{Db, ok, err, unprocessable, opened, respond, ◌>>=◌}
use codegen_orchestrator.Tasks.Helpers.{find_task, TaskTransition}
use codegen_orchestrator.Tasks.Actions.{complete_task, complete_path}
use codegen_orchestrator.Tasks.Terminal.{status_of}
use codegen_orchestrator.Tasks.Paths.{walked, last_task, move_along_lem, find_task-walked}

-- The endpoint completes exactly the tasks that are being worked on.
abbrev pub is_working : Column TaskStatus → Bool
is_working (known in_dev) = true
is_working (known in_ci) = true
is_working (known testing) = true
is_working _ = false

-- The endpoint's effect on a task with a path ahead of it.
pub complete_along :
    (id : String) (body : TaskTransition) (db : Db) (t : Task) (path : List TaskStatus)
    → find_task id db ≡ some t
    → complete_path t.status ≡ some path
    → let r = respond (complete_task id body) db in
      (r.answer ≡ ok (last_task t path)) × (r.db ≡ walked t path body.actor body.details db)
unfolding complete_task ◌>>=◌
complete_along id body db t path e p = (
  ground (arith, move_along_lem t path body.actor body.details (opened db)),
  ground (arith, move_along_lem t path body.actor body.details (opened db)),
)

pub complete_refused :
    (id : String) (body : TaskTransition) (db : Db) (t : Task)
    → find_task id db ≡ some t
    → complete_path t.status ≡ none
    → let r = respond (complete_task id body) db in (r.answer ≡ err unprocessable) × (r.db ≡ db)
unfolding complete_task ◌>>=◌
complete_refused id body db t e p = (ground arith, ground arith)

-- A path that `complete_path` gives ends in `done`, and it gives one to the working statuses.
complete_path-done :
    (t : Task) (path : List TaskStatus)
    → complete_path t.status ≡ some path
    → (is_working t.status ≡ true) × (last_task t path ≡ record t { status = known done })
unfolding complete_path last_task
complete_path-done t path e = ground arith

complete_path-none : (c : Column TaskStatus) → complete_path c ≡ none → is_working c ≡ false
unfolding complete_path
complete_path-none c e = ground arith

-- For a stored task, `complete_task` either finds it in `in_dev`, `in_ci` or `testing`, answers
-- with the task and leaves it stored as `done`, or finds it in any other status, answers 422 and
-- changes nothing.
pub complete_task_outcome :
    (id : String) (body : TaskTransition) (db : Db) (t : Task)
    → find_task id db ≡ some t
    → let r = respond (complete_task id body) db in
      ((is_working t.status ≡ true)
        × (r.answer ≡ ok (record t { status = known done }))
        × (status_of id r.db ≡ some (known done)))
      ⊎ ((is_working t.status ≡ false) × (r.answer ≡ err unprocessable) × (r.db ≡ db))
complete_task_outcome id body db t e = elim (Option-cases (complete_path t.status)) [
  | inl p ↦
      let (answer, same) = complete_refused id body db t e p in
      inr (complete_path-none t.status p, answer, same)
  | inr (path, p) ↦
      let (answer, after) = complete_along id body db t path e p in
      let (working, last) = complete_path-done t path p in
      inl (
        working,
        answer ∙ ap ok last,
        ground (arith, after, last, find_task-walked db id t path body.actor body.details e),
      )
]
