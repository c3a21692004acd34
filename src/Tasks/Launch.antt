-- ===== src/Tasks/Launch.antt =====
-- `spawn_worker`: what a launch leaves in the database and on the queue.
use codegen_orchestrator.Prelude.{String, Bool, true, false, some, ◌≡◌}
use codegen_orchestrator.Contracts.Column.{Column, known}
use codegen_orchestrator.Contracts.Task.{Task, TaskStatus, backlog, todo, in_dev}
use codegen_orchestrator.Contracts.Run.{Run}
use codegen_orchestrator.Contracts.Project.{Project}
use codegen_orchestrator.Session.{Db, ok, opened}
use codegen_orchestrator.Tasks.Helpers.{find_task}
use codegen_orchestrator.Tasks.Spawn.{start_for_worker}

abbrev pub is_startable : Column TaskStatus → Bool
is_startable (known backlog) = true
is_startable (known todo) = true
is_startable (known in_dev) = true
is_startable _ = false

-- What a task of the session becomes when a worker is started for it.
data Launched (id : String) (t : Task) (actor : String) (db : Db) : Type 0 where
  launched :
      (t' : Task) (u : Db)
      → start_for_worker t actor (opened db) ≡ (ok t', record (opened db) { working = u })
      → find_task id u ≡ some t'
      → t'.id ≡ t.id
      → t'.status ≡ known in_dev
      → t'.type ≡ t.type
      → t'.project_id ≡ t.project_id
      → u.runs ≡ db.runs
      → u.users ≡ db.users
      → u.projects ≡ db.projects
      → Launched id t actor db
