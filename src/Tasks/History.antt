-- ===== src/Tasks/History.antt =====
-- The history of a task, read as a walk along the transition table.
use codegen_orchestrator.Prelude.{
  String, Bool, true, false, Option, none, some, List, [], ◌∷◌, ◌++◌, ◌≡◌, refl, sym, subst, arith,
  ◌&&◌, ◌=ₛ◌, eq_iff, if◌then◌else◌,
}
use codegen_orchestrator.Prelude.Table
use codegen_orchestrator.Contracts.Column.{Column, known}
use codegen_orchestrator.Contracts.Json.{Dict}
use codegen_orchestrator.Contracts.Task.{Task, TaskEvent, TaskStatus, status_change, can_move, is}
use codegen_orchestrator.Session.{Db, Env, respond}
use codegen_orchestrator.Tasks.Helpers.{task_key, find_task}
use codegen_orchestrator.Tasks.Steps.{
  TaskStep, move_step, note_step, insert_step, edit_step, run_step, ◌⟶*◌, here, next, stamped,
}
use codegen_orchestrator.Tasks.Requests.{TaskRequest, handle_task, serve_tasks}
use codegen_orchestrator.Tasks.Refinement.{handle_task-⟶*}

-- Where the recorded moves of a task have led: there are none yet, they end at a status, or they
-- are no walk along the table.
pub data Trail : Type 0 where
  fresh : Trail
  at : TaskStatus → Trail
  broken : Trail

abbrev enter : Trail → TaskStatus → TaskStatus → Trail
enter fresh f t = if can_move f t then at t else broken
enter (at s) f t = if is s f && can_move f t then at t else broken
enter broken f t = broken

abbrev extend : Trail → Option (Column TaskStatus) → Option (Column TaskStatus) → Trail
extend tr none none = tr
extend tr (some (known f)) (some (known t)) = enter tr f t
extend tr _ _ = broken

-- One event read: those of other tasks change nothing.
abbrev follow : String → Trail → TaskEvent → Trail
follow k tr e = if e.task_id =ₛ k then extend tr e.from_status e.to_status else tr

trail_from : Trail → String → List TaskEvent → Trail
trail_from tr k [] = tr
trail_from tr k (e ∷ es) = trail_from (follow k tr e) k es

unfoldable pub trail : String → List TaskEvent → Trail
unfolding trail_from
trail k es = trail_from fresh k es

trail_from-append :
    (tr : Trail) (k : String) (es : List TaskEvent) (e : TaskEvent)
    → trail_from tr k (es ++ (e ∷ [])) ≡ follow k (trail_from tr k es) e
unfolding trail_from
trail_from-append tr k [] e = refl
trail_from-append tr k (x ∷ es) e = trail_from-append (follow k tr x) k es e

trail-append :
    (k : String) (es : List TaskEvent) (e : TaskEvent)
    → trail k (es ++ (e ∷ [])) ≡ follow k (trail k es) e
unfolding trail
trail-append k es e = trail_from-append fresh k es e

-- The status column says where the trail ends.
abbrev pub agrees : Trail → Column TaskStatus → Bool
agrees fresh (known s) = true
agrees (at s) (known s') = is s s'
agrees _ _ = false

-- Each task's recorded moves are a walk along the table that ends at its status, and a key with no
-- task has no recorded moves.
pub record IsTraced (db : Db) : Type 0 where
  pub stored :
      (k : String) (t : Task)
      → find_task k db ≡ some t
      → agrees (trail k db.task_events) t.status ≡ true
  pub missing : (k : String) → find_task k db ≡ none → trail k db.task_events ≡ fresh

module _ (db : Db) (h : IsTraced db) where
  move_step-IsTraced :
      (t : Task) (from to : TaskStatus) (actor : String) (details : Dict)
      → find_task t.id db ≡ some t
      → t.status ≡ known from
      → can_move from to ≡ true
      → IsTraced (stamped t (known to) actor details db)
  move_step-IsTraced t from to actor details e p c =
      let ev : TaskEvent = record {
        task_id = t.id;
        event_type = status_change;
        from_status = some t.status;
        to_status = some (known to);
        iteration = none;
        details = details;
        actor = actor;
      } in
      record {
        stored = λ k t' f. ground (
          arith,
          trail-append k db.task_events ev,
          Table.find-save task_key (record t { status = known to }) k db.tasks,
          h.stored t.id t e,
          h.stored k t',
          eq_iff t.id k,
        );
        missing = λ k f. ground (
          arith,
          trail-append k db.task_events ev,
          Table.find-save task_key (record t { status = known to }) k db.tasks,
          h.missing k,
          eq_iff t.id k,
        );
      }

  note_step-IsTraced :
      (e : TaskEvent)
      → e.from_status ≡ none
      → e.to_status ≡ none
      → IsTraced (record db { task_events = db.task_events ++ (e ∷ []) })
  note_step-IsTraced e p q = record {
    stored = λ k t f. ground (arith, trail-append k db.task_events e, h.stored k t);
    missing = λ k f. ground (arith, trail-append k db.task_events e, h.missing k);
  }

  insert_step-IsTraced :
      (t : Task) (s : TaskStatus)
      → find_task t.id db ≡ none
      → t.status ≡ known s
      → IsTraced (record db { tasks = db.tasks ++ (t ∷ []) })
  insert_step-IsTraced t s e p = record {
    stored = λ k t' f.
        ground (
          arith,
          Table.find-append task_key t k db.tasks,
          h.stored k t',
          h.missing k,
          eq_iff t.id k,
        );
    missing = λ k f. ground (arith, Table.find-append task_key t k db.tasks, h.missing k);
  }

  edit_step-IsTraced :
      (t t' : Task)
      → find_task t.id db ≡ some t
      → t'.id ≡ t.id
      → t'.status ≡ t.status
      → IsTraced (record db { tasks = Table.save task_key t' db.tasks })
  edit_step-IsTraced t t' e p q = record {
    stored = λ k u f. ground (
      arith,
      Table.find-save task_key t' k db.tasks,
      h.stored k u,
      h.stored t.id t e,
      eq_iff t'.id k,
    );
    missing = λ k f. ground (arith, Table.find-save task_key t' k db.tasks, h.missing k);
  }

TaskStep-IsTraced : {db db' : Db} → TaskStep db db' → IsTraced db → IsTraced db'
TaskStep-IsTraced {db} (move_step t from to actor details e p c q) h =
    subst IsTraced (sym q) (move_step-IsTraced db h t from to actor details e p c)
TaskStep-IsTraced {db} (note_step ev t e p r q) h =
    subst IsTraced (sym q) (note_step-IsTraced db h ev p r)
TaskStep-IsTraced {db} (insert_step t s e p q) h =
    subst IsTraced (sym q) (insert_step-IsTraced db h t s e p)
TaskStep-IsTraced {db} (edit_step t t' e p r q) h =
    subst IsTraced (sym q) (edit_step-IsTraced db h t t' e p r)
TaskStep-IsTraced {db} (run_step r q) h =
    subst IsTraced (sym q) (record { stored = h.stored; missing = h.missing })

⟶*-IsTraced : {db db' : Db} → db ⟶* db' → IsTraced db → IsTraced db'
⟶*-IsTraced here h = h
⟶*-IsTraced (next steps step) h = TaskStep-IsTraced step (⟶*-IsTraced steps h)

-- From tables whose histories agree with the status columns, any sequence of task requests, in any
-- circumstances and whatever they answer, leads to such tables: each task's recorded moves form a
-- walk along the transition table that ends at its status.
pub serve_tasks-IsTraced :
    (requests : List (Env × TaskRequest)) (db : Db)
    → IsTraced db
    → IsTraced (serve_tasks requests db)
unfolding serve_tasks
serve_tasks-IsTraced [] db h = h
serve_tasks-IsTraced ((env, r) ∷ rest) db h =
    serve_tasks-IsTraced rest (respond (handle_task env r) db).db
      (⟶*-IsTraced (handle_task-⟶* env r db) h)
