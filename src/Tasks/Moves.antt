-- ===== src/Tasks/Moves.antt =====
-- The endpoints that make one validated move, or two, change the task tables by legal steps.
use codegen_orchestrator.Prelude.{
  String, none, some, [], ◌∷◌, ◌≡◌, refl, sym, subst, inl, inr, arith, Bool-cases, Option-cases,
  eq_refl,
}
use codegen_orchestrator.Prelude.Table
use codegen_orchestrator.Contracts.Column.{Column, known}
use codegen_orchestrator.Contracts.Json
use codegen_orchestrator.Contracts.Json.{Dict}
use codegen_orchestrator.Contracts.Task.{
  Task, TaskStatus, backlog, todo, in_dev, failed, cancelled, note, can_move, read_status,
}
use codegen_orchestrator.Session.{Db, respond, ◌>>=◌}
use codegen_orchestrator.Tasks.Helpers.{TaskTransition, task_key, find_task, status_is}
use codegen_orchestrator.Tasks.Steps.{
  move_step, note_step, ◌⟶*◌, here, next, Validated, passed, validate_transition-cases, stamped,
}
use codegen_orchestrator.Tasks.Actions.{
  start_task, fail_task, reopen_task, resume_task, transition_task, cancel_task, with_reason,
}

-- Steps to an equal database.
pub to_eq : {db u v : Db} → db ⟶* u → v ≡ u → db ⟶* v
to_eq {db} steps e = subst (λ d. db ⟶* d) (sym e) steps

-- A task found by a key is found by its own.
pub find_task-own :
    (db : Db) (id : String) (t : Task) → find_task id db ≡ some t → find_task t.id db ≡ some t
find_task-own db id t e =
    subst (λ k. find_task k db ≡ some t) (sym (Table.key-find task_key id db.tasks t e)) e

-- One more move, after a validation that passed.
pub moved :
    (db u : Db) (id : String) (t : Task) (to : Column TaskStatus) (actor : String) (details : Dict)
    → db ⟶* u
    → find_task id u ≡ some t
    → Validated t.status to
    → db ⟶* stamped t to actor details u
moved db u id t to actor details steps e (passed f s p q c) =
    next steps (move_step t f s actor details (find_task-own u id t e) p c (rw q))

pub find_task-stamped :
    (u : Db) (id : String) (t : Task) (to : Column TaskStatus) (actor : String) (details : Dict)
    → find_task id u ≡ some t
    → find_task id (stamped t to actor details u) ≡ some (record t { status = to })
find_task-stamped u id t to actor details e = ground (
  arith,
  Table.find-save task_key (record t { status = to }) id u.tasks,
  Table.key-find task_key id u.tasks t,
  eq_refl id,
)

module _ (id : String) (body : TaskTransition) (db : Db) where
  pub fail_task-⟶* : db ⟶* (respond (fail_task id body) db).db
  unfolding fail_task ◌>>=◌
  fail_task-⟶* = elim (Option-cases (find_task id db)) [
    | inl e ↦ to_eq here (ground arith)
    | inr (t, e) ↦ elim (validate_transition-cases t.status (known failed)) [
      | inl (v, w) ↦
          to_eq (moved db db id t (known failed) body.actor (with_reason body) here e w)
            (ground arith)
      | inr v ↦ to_eq here (ground arith)
    ]
  ]

  pub reopen_task-⟶* : db ⟶* (respond (reopen_task id body) db).db
  unfolding reopen_task ◌>>=◌
  reopen_task-⟶* = elim (Option-cases (find_task id db)) [
    | inl e ↦ to_eq here (ground arith)
    | inr (t, e) ↦ elim (validate_transition-cases t.status (known backlog)) [
      | inl (v, w) ↦
          to_eq (moved db db id t (known backlog) body.actor (with_reason body) here e w)
            (ground arith)
      | inr v ↦ to_eq here (ground arith)
    ]
  ]

  pub transition_task-⟶* : (to : String) → db ⟶* (respond (transition_task id to body) db).db
  unfolding transition_task ◌>>=◌
  transition_task-⟶* to = elim (Option-cases (find_task id db)) [
    | inl e ↦ to_eq here (ground arith)
    | inr (t, e) ↦ elim (validate_transition-cases t.status (read_status to)) [
      | inl (v, w) ↦
          to_eq (moved db db id t (read_status to) body.actor body.details here e w) (ground arith)
      | inr v ↦ to_eq here (ground arith)
    ]
  ]

  pub start_task-⟶* : db ⟶* (respond (start_task id body) db).db
  unfolding start_task ◌>>=◌ can_move
  start_task-⟶* = elim (Option-cases (find_task id db)) [
    | inl e ↦ to_eq here (ground arith)
    | inr (t, e) ↦ elim (Bool-cases (status_is t.status backlog)) [
      | inl b ↦
          to_eq
            (moved db (stamped t (known todo) body.actor [] db) id
              (record t { status = known todo }) (known in_dev) body.actor body.details
              (moved db db id t (known todo) body.actor [] here e
                (passed backlog todo (ground arith) refl refl))
              (find_task-stamped db id t (known todo) body.actor [] e)
              (passed todo in_dev refl refl refl))
            (ground arith)
      | inr n ↦ elim (validate_transition-cases t.status (known in_dev)) [
        | inl (v, w) ↦
            to_eq (moved db db id t (known in_dev) body.actor body.details here e w) (ground arith)
        | inr v ↦ to_eq here (ground arith)
      ]
    ]
  ]

pub resume_task-⟶* :
    (id guidance actor : String) (db : Db) → db ⟶* (respond (resume_task id guidance actor) db).db
unfolding resume_task ◌>>=◌
resume_task-⟶* id guidance actor db = elim (Option-cases (find_task id db)) [
  | inl e ↦ to_eq here (ground arith)
  | inr (t, e) ↦ elim (validate_transition-cases t.status (known in_dev)) [
    | inl (v, w) ↦
        let details : Dict = ("guidance", Json.text guidance) ∷ [] in
        next (moved db db id t (known in_dev) actor details here e w) (
          note_step
            (record {
              task_id = t.id;
              event_type = note;
              from_status = none;
              to_status = none;
              iteration = none;
              details = ("action", Json.text "guidance") ∷ ("guidance", Json.text guidance) ∷ [];
              actor = actor;
            })
            (record t { status = known in_dev })
            (find_task-own (stamped t (known in_dev) actor details db) id
              (record t { status = known in_dev })
              (find_task-stamped db id t (known in_dev) actor details e))
            refl refl (ground arith))
    | inr v ↦ to_eq here (ground arith)
  ]
]

pub cancel_task-⟶* : (id : String) (db : Db) → db ⟶* (respond (cancel_task id) db).db
unfolding cancel_task ◌>>=◌
cancel_task-⟶* id db = elim (Option-cases (find_task id db)) [
  | inl e ↦ to_eq here (ground arith)
  | inr (t, e) ↦ elim (Bool-cases (status_is t.status cancelled)) [
    | inl b ↦ to_eq here (ground arith)
    | inr n ↦ elim (validate_transition-cases t.status (known cancelled)) [
      | inl (v, w) ↦ to_eq (moved db db id t (known cancelled) "system" [] here e w) (ground arith)
      | inr v ↦ to_eq here (ground arith)
    ]
  ]
]
