-- ===== src/Dispatch/Reads.antt =====
-- services/api/src/routers/tasks.py and runs.py: the lists that the dispatcher reads. A table's rows
-- stand in the order of their creation.
use codegen_orchestrator.Prelude.{
  String, Bool, true, false, Option, none, some, List, [], ◌∷◌, ◌++◌, ◌=ₛ◌, ◌&&◌, if◌then◌else◌,
  filter,
}
use codegen_orchestrator.Prelude.Int.{leb_ℤ}
use codegen_orchestrator.Contracts.Column.{Column, known, unknown}
use codegen_orchestrator.Contracts.Task.{Task, TaskEvent, TaskStatus, value}
use codegen_orchestrator.Contracts.Run.{Run, RunType}
use codegen_orchestrator.Session.{Handler, gets, ◌>>=◌}
use codegen_orchestrator.Tasks.Helpers.{get_task}

-- The text in the column.
abbrev status_text : Column TaskStatus → String
status_text (known s) = value s
status_text (unknown t) = t

-- The filters of `GET /tasks/` that the dispatcher uses; an empty text filters nothing.
pub record TaskFilters : Type 0 where
  pub status : Option String
  pub story_id : Option String

abbrev pub equals_text : Option String → Option String → Bool
equals_text none column = true
equals_text (some wanted) none = wanted =ₛ ""
equals_text (some wanted) (some text) = if wanted =ₛ "" then true else text =ₛ wanted

abbrev pub selects : TaskFilters → Task → Bool
selects filters task =
    equals_text filters.status (some (status_text task.status))
    && equals_text filters.story_id task.story_id

-- A row goes before the rows of a lower priority that were created later.
unfoldable pub insert_by_priority : Task → List Task → List Task
insert_by_priority t [] = t ∷ []
insert_by_priority t (u ∷ us) =
    let rest = insert_by_priority t us in
    if leb_ℤ t.priority u.priority then t ∷ u ∷ us else u ∷ rest

-- `order_by(Task.priority.asc(), Task.created_at.asc())`
unfoldable pub by_priority : List Task → List Task
unfolding insert_by_priority
by_priority [] = []
by_priority (t ∷ ts) = insert_by_priority t (by_priority ts)

unfoldable pub list_tasks : TaskFilters → Handler (List Task)
unfolding by_priority
list_tasks filters = gets (λ db. by_priority (filter (selects filters) db.tasks))

abbrev pub is_engineering : Column RunType → Bool
is_engineering (known RunType.engineering) = true
is_engineering (known RunType.deploy) = false
is_engineering (known RunType.qa) = false
is_engineering (unknown _) = false

abbrev pub is_of : String → Option String → Bool
is_of id none = false
is_of id (some other) = other =ₛ id

-- Newest first.
abbrev pub newest_first {ℓ} : {A : Type ℓ} → List A → List A
newest_first [] = []
newest_first (x ∷ xs) = newest_first xs ++ (x ∷ [])

-- `GET /runs/?task_id=…&run_type=engineering`, asked by a service.
unfoldable pub list_engineering_runs : (task_id : String) → Handler (List Run)
list_engineering_runs task_id =
    gets
      (λ db. newest_first (filter (λ r. is_of task_id r.task_id && is_engineering r.type) db.runs))

-- `GET /tasks/{task_id}/events`
unfoldable pub get_task_events : String → Handler (List TaskEvent)
get_task_events id = do _ ← get_task id; gets (λ db. filter (λ e. e.task_id =ₛ id) db.task_events)
