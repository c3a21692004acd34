-- ===== src/Tasks/Steps.antt =====
-- The legal steps of the task tables, which the endpoints of `Tasks.Requests` are held to.
use codegen_orchestrator.Prelude.{
  String, true, none, some, [], ◌∷◌, ◌++◌, ◌≡◌, refl, ◌⊎◌, inl, inr, Bool-cases,
}
use codegen_orchestrator.Prelude.Table
use codegen_orchestrator.Contracts.Column.{Column, known, unknown}
use codegen_orchestrator.Contracts.Json.{Dict}
use codegen_orchestrator.Contracts.Task.{Task, TaskEvent, TaskStatus, status_change, can_move}
use codegen_orchestrator.Contracts.Run.{Run}
use codegen_orchestrator.Session.{Db, ok, err, unprocessable}
use codegen_orchestrator.Tasks.Helpers.{task_key, find_task, validate_transition}

-- The tables after a task was moved and the move recorded.
abbrev pub stamped : Task → Column TaskStatus → String → Dict → Db → Db
stamped t to actor details db = record db {
  tasks = Table.save task_key (record t { status = to }) db.tasks;
  task_events =
      db.task_events
      ++ (record {
        task_id = t.id;
        event_type = status_change;
        from_status = some t.status;
        to_status = some to;
        iteration = none;
        details = details;
        actor = actor;
      }
          ∷ []);
}

pub data TaskStep (db db' : Db) : Type 0 where
  -- A stored task moves along an edge of the table, and the history gains that move.
  move_step :
      (t : Task) (from to : TaskStatus) (actor : String) (details : Dict)
      → find_task t.id db ≡ some t
      → t.status ≡ known from
      → can_move from to ≡ true
      → db' ≡ stamped t (known to) actor details db
      → TaskStep db db'
  -- The history of a stored task gains an event that is no move.
  note_step :
      (e : TaskEvent) (t : Task)
      → find_task e.task_id db ≡ some t
      → e.from_status ≡ none
      → e.to_status ≡ none
      → db' ≡ record db { task_events = db.task_events ++ (e ∷ []) }
      → TaskStep db db'
  -- A task is added under a new key, with any status.
  insert_step :
      (t : Task) (s : TaskStatus)
      → find_task t.id db ≡ none
      → t.status ≡ known s
      → db' ≡ record db { tasks = db.tasks ++ (t ∷ []) }
      → TaskStep db db'
  -- A stored task is edited, and keeps its key and its status.
  edit_step :
      (t t' : Task)
      → find_task t.id db ≡ some t
      → t'.id ≡ t.id
      → t'.status ≡ t.status
      → db' ≡ record db { tasks = Table.save task_key t' db.tasks }
      → TaskStep db db'
  -- A run is added, and the task tables stay as they are.
  run_step : (r : Run) → db' ≡ record db { runs = db.runs ++ (r ∷ []) } → TaskStep db db'

infix 40 ◌⟶*◌
pub data ◌⟶*◌ (db : Db) : Db → Type 0 where
  here : db ⟶* db
  next : {u v : Db} → db ⟶* u → TaskStep u v → db ⟶* v

pub Column-cases {ℓ} :
    {A : Type ℓ} (c : Column A) → ((a : A) × (c ≡ known a)) ⊎ ((t : String) × (c ≡ unknown t))
Column-cases (known a) = inl (a, refl)
Column-cases (unknown t) = inr (t, refl)

-- What a passed validation has checked.
pub data Validated (from to : Column TaskStatus) : Type 0 where
  passed :
      (f t : TaskStatus) → from ≡ known f → to ≡ known t → can_move f t ≡ true → Validated from to

pub validate_transition-cases :
    (from to : Column TaskStatus)
    → ((validate_transition from to ≡ ok tt) × Validated from to)
      ⊎ (validate_transition from to ≡ err unprocessable)
unfolding validate_transition
validate_transition-cases (known f) (known t) = elim (Bool-cases (can_move f t)) [
  | inl yes' ↦ inl (rw yes', passed f t refl refl yes')
  | inr no' ↦ inr (rw no')
]
validate_transition-cases (known f) (unknown _) = inr refl
validate_transition-cases (unknown _) to = inr refl
