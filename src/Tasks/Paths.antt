-- ===== src/Tasks/Paths.antt =====
-- `complete_task` and `spawn_worker` change the task tables by legal steps.
use codegen_orchestrator.Prelude.{
  String, true, Option, some, [], ◌∷◌, ◌≡◌, refl, subst, inl, inr, arith, Bool-cases, Option-cases,
  List, some-injective,
}
use codegen_orchestrator.Contracts.Column.{Column, known}
use codegen_orchestrator.Contracts.Json.{Dict}
use codegen_orchestrator.Contracts.Task.{
  Task, TaskStatus, backlog, todo, in_dev, in_ci, testing, can_move,
}
use codegen_orchestrator.Session.{Db, Env, Session, Fault, ok, err, Result-cases, respond, ◌>>=◌}
use codegen_orchestrator.Recipients.{find_project, initiating_run_or_conflict}
use codegen_orchestrator.Tasks.Helpers.{TaskTransition, find_task, status_is}
use codegen_orchestrator.Tasks.Steps.{run_step, ◌⟶*◌, here, next, passed, stamped}
use codegen_orchestrator.Tasks.Actions.{complete_task, complete_path, move_along}
use codegen_orchestrator.Tasks.Spawn.{
  spawn_worker, spawned_run, start_for_worker, not_startable, accepts_run,
}
use codegen_orchestrator.Runs.Rows.{find_run}
use codegen_orchestrator.Tasks.Moves.{to_eq, moved, find_task-stamped}

-- Every move of a path is an edge of the table.
abbrev pub IsPath : TaskStatus → List TaskStatus → Type 0
IsPath s [] = Unit
IsPath s (n ∷ path) = (can_move s n ≡ true) × IsPath n path

-- The tables, and the task, after the moves of a path.
unfoldable pub walked : Task → List TaskStatus → String → Dict → Db → Db
walked t [] actor details db = db
walked t (n ∷ path) actor details db =
    walked (record t { status = known n }) path actor details (stamped t (known n) actor details db)

unfoldable pub last_task : Task → List TaskStatus → Task
last_task t [] = t
last_task t (n ∷ path) = last_task (record t { status = known n }) path

pub move_along_lem :
    (t : Task) (path : List TaskStatus) (actor : String) (details : Dict) (s : Session)
    → move_along t path actor details s
      ≡ (ok (last_task t path), record s { working = walked t path actor details s.working })
unfolding move_along walked last_task ◌>>=◌
move_along_lem t [] actor details s = refl
move_along_lem t (n ∷ path) actor details s =
    move_along_lem (record t { status = known n }) path actor details
      (record s { working = stamped t (known n) actor details s.working })

walked-⟶* :
    (db u : Db) (id : String) (t : Task) (s : TaskStatus) (path : List TaskStatus) (actor : String)
    (details : Dict)
    → db ⟶* u
    → find_task id u ≡ some t
    → t.status ≡ known s
    → IsPath s path
    → db ⟶* walked t path actor details u
unfolding walked
walked-⟶* db u id t s [] actor details steps e p h = steps
walked-⟶* db u id t s (n ∷ path) actor details steps e p h =
    walked-⟶* db (stamped t (known n) actor details u) id (record t { status = known n }) n path
      actor details (moved db u id t (known n) actor details steps e (passed s n p refl h.0))
      (find_task-stamped u id t (known n) actor details e) refl h.1

pub find_task-walked :
    (u : Db) (id : String) (t : Task) (path : List TaskStatus) (actor : String) (details : Dict)
    → find_task id u ≡ some t
    → find_task id (walked t path actor details u) ≡ some (last_task t path)
unfolding walked last_task
find_task-walked u id t [] actor details e = e
find_task-walked u id t (n ∷ path) actor details e =
    find_task-walked (stamped t (known n) actor details u) id (record t { status = known n }) path
      actor details (find_task-stamped u id t (known n) actor details e)

complete_path-IsPath :
    (c : Column TaskStatus) (path : List TaskStatus)
    → complete_path c ≡ some path
    → (s : TaskStatus) × (c ≡ known s) × IsPath s path
unfolding complete_path can_move
complete_path-IsPath (known in_dev) path e =
    (in_dev, refl, subst (IsPath in_dev) (some-injective _ _ e) (refl, (refl, (refl, tt))))
complete_path-IsPath (known in_ci) path e =
    (in_ci, refl, subst (IsPath in_ci) (some-injective _ _ e) (refl, (refl, tt)))
complete_path-IsPath (known testing) path e =
    (testing, refl, subst (IsPath testing) (some-injective _ _ e) (refl, tt))
complete_path-IsPath _ path e = cc

pub complete_task-⟶* :
    (id : String) (body : TaskTransition) (db : Db) → db ⟶* (respond (complete_task id body) db).db
unfolding complete_task ◌>>=◌
complete_task-⟶* id body db = elim (Option-cases (find_task id db)) [
  | inl e ↦ to_eq here (ground arith)
  | inr (t, e) ↦ elim (Option-cases (complete_path t.status)) [
    | inl n ↦ to_eq here (ground arith)
    | inr (path, p) ↦
        let (s, q, h) = complete_path-IsPath t.status path p in
        to_eq (walked-⟶* db db id t s path body.actor body.details here e q h) (
          ground (
            arith,
            move_along_lem t path body.actor body.details
                (record { working = db; committed = db; outbox = [] }),
          ))
  ]
]

-- What `start_for_worker` does to a task of the session: it is refused and changes nothing, or it
-- leaves the tables some legal steps further.
pub data Prepared (db : Db) (t : Task) (actor : String) (s : Session) : Type 0 where
  refused : (f : Fault) → start_for_worker t actor s ≡ (err f, s) → Prepared db t actor s
  prepared :
      (t' : Task) (u : Db)
      → start_for_worker t actor s ≡ (ok t', record s { working = u })
      → db ⟶* u
      → Prepared db t actor s

pub start_for_worker-Prepared :
    (db : Db) (id : String) (t : Task) (actor : String) (s : Session)
    → s.working ≡ db
    → find_task id db ≡ some t
    → Prepared db t actor s
unfolding start_for_worker ◌>>=◌ can_move
start_for_worker-Prepared db id t actor s w e = elim (Bool-cases (status_is t.status backlog)) [
  | inl b ↦
      let t' : Task = record t { status = known todo } in
      let u : Db = stamped t (known todo) actor [] db in
      prepared (record t { status = known in_dev }) (stamped t' (known in_dev) actor [] u)
        (ground arith)
        (moved db u id t' (known in_dev) actor []
          (moved db db id t (known todo) actor [] here e
            (passed backlog todo (ground arith) refl refl))
          (find_task-stamped db id t (known todo) actor [] e) (passed todo in_dev refl refl refl))
  | inr n ↦ elim (Bool-cases (status_is t.status todo)) [
    | inl b ↦
        prepared (record t { status = known in_dev }) (stamped t (known in_dev) actor [] db)
          (ground arith)
          (moved db db id t (known in_dev) actor [] here e
            (passed todo in_dev (ground arith) refl refl))
    | inr m ↦ elim (Bool-cases (status_is t.status in_dev)) [
      | inl b ↦ prepared t db (ground arith) here
      | inr k ↦ refused (not_startable t.status) (ground arith)
    ]
  ]
]

pub spawn_worker-⟶* :
    (env : Env) (id actor : String) (description : Option String) (db : Db)
    → db ⟶* (respond (spawn_worker env id actor description) db).db
unfolding spawn_worker ◌>>=◌
spawn_worker-⟶* env id actor description db = elim (Option-cases (find_task id db)) [
  | inl e ↦ to_eq here (ground arith)
  | inr (t, e) ↦ elim (Option-cases (find_project t.project_id db)) [
    | inl n ↦ to_eq here (ground arith)
    | inr (project, p) ↦ elim (Result-cases (initiating_run_or_conflict project)) [
      | inl (f, r) ↦ to_eq here (ground arith)
      | inr (run, r) ↦
          let s : Session = record { working = db; committed = db; outbox = [] } in
          elim (start_for_worker-Prepared db id t actor s refl e) [
            | refused f q ↦ to_eq here (ground arith)
            | prepared t' u q steps ↦
                elim (Bool-cases (accepts_run env (find_run (spawned_run env t').id u))) [
                  | inl a ↦ next steps (run_step (spawned_run env t') (ground arith))
                  | inr a ↦ to_eq here (ground arith)
                ]
          ]
    ]
  ]
]
