-- ===== src/Dispatch/Guards.antt =====
-- services/scheduler/src/tasks/task_dispatcher.py: the conditions on which the loop goes on to an
-- attempt, read off the rows.
use codegen_orchestrator.Prelude.{
  String, Bool, true, false, Option, none, some, List, ◌≡◌, refl, arith, inl, inr, Option-cases,
  ◌&&◌, ◌||◌, not, any, is_some,
}
use codegen_orchestrator.Contracts.Message.{Message}
use codegen_orchestrator.Contracts.Project.{Project}
use codegen_orchestrator.Contracts.Task.{Task, done, in_dev, waiting_human_review}
use codegen_orchestrator.Recipients.{find_project}
use codegen_orchestrator.Session as Api
use codegen_orchestrator.Session.{Db, Env, Result, ok, err, Result-cases, respond}
use codegen_orchestrator.Tasks.Helpers as Endpoint
use codegen_orchestrator.Tasks.Helpers.{status_is, find_task}
use codegen_orchestrator.Dispatch.Reads.{is_of}
use codegen_orchestrator.Dispatch.Hoare.{
  Unchanged, Seen, Holds, IsRead, read-Holds, return-Holds, from_result-Holds, onward-Holds,
  if_missing-Holds,
}
use codegen_orchestrator.Dispatch.Recipient.{get_project, read_project_row, check_project}
use codegen_orchestrator.Dispatch.Tick.{
  given, get_task, check_task, blocker_resolved, is_draft, workspace_ready,
  project_and_initiating_run, done_blocker, with_run, paired,
}

abbrev pub done_in : Db → Option String → Bool
done_in db none = true
done_in db (some id) = elim (find_task id db) [ none ↦ false | some b ↦ status_is b.status done ]

-- Nothing blocks the task, or its blocker is done.
unfoldable pub blocker_done : Task → Db → Bool
blocker_done t db = done_in db (given t.blocked_by_task_id)

-- The task's project exists, is set up, and names the run that asked for its work.
unfoldable pub project_ready : Task → Db → Bool
project_ready t db = elim (find_project t.project_id db) [
  | none ↦ false
  | some p ↦ not (is_draft p.status) && workspace_ready p && is_some (given p.initiating_run_id)
]

abbrev pub occupies : String → Task → Bool
occupies story t =
    is_of story t.story_id && (status_is t.status in_dev || status_is t.status waiting_human_review)

abbrev pub free_in : Db → Option String → Bool
free_in db none = true
free_in db (some id) = not (any (occupies id) db.tasks)

-- No task of the story is being worked on or is with a human.
unfoldable pub story_free : Task → Db → Bool
story_free t db = free_in db (given t.story_id)

get_task-IsRead :
    (id : String) → IsRead (λ env. Endpoint.get_task id) (λ db t. find_task id db ≡ some t)
unfolding Endpoint.get_task Api.◌>>=◌
get_task-IsRead id env db = elim (Option-cases (find_task id db)) [
  | inl e ↦ (ground (arith, e), λ a h. absurd (ground (arith, e)))
  | inr (t, e) ↦ (ground (arith, e), λ a h. ground (arith, e))
]

check_task-ok : (t a : Task) → check_task t ≡ ok a → a ≡ t
check_task-ok t a h = ground arith

get_task-Holds :
    (d : Db) (q : List Message) (id : String)
    → Holds (Unchanged d q) (get_task id) (λ t. Seen d q (find_task id d ≡ some t)) (Unchanged d q)
unfolding get_task
get_task-Holds d q id =
    onward-Holds (Unchanged d q) (λ t. Seen d q (find_task id d ≡ some t)) (Unchanged d q)
      (λ t. Seen d q (find_task id d ≡ some t)) _ _
      (read-Holds (λ env. Endpoint.get_task id) (λ db t. find_task id db ≡ some t) d q
        (get_task-IsRead id))
      (λ t.
        from_result-Holds _ _ _ (check_task t)
          (λ a h db queue (u, k). (u, ground (arith, check_task-ok t a h))) (λ db queue (u, k). u))

done_blocker-Holds :
    (d : Db) (q : List Message) (o : Option String)
    → Holds
        (Unchanged d q)
        (done_blocker o)
        (λ free. Seen d q (free ≡ true → done_in d o ≡ true))
        (Unchanged d q)
unfolding done_blocker
done_blocker-Holds d q none = return-Holds _ _ _ true (λ db queue u. (u, λ _. refl))
done_blocker-Holds d q (some id) =
    onward-Holds _ _ _ (λ b. Seen d q (find_task id d ≡ some b)) _ _ (get_task-Holds d q id)
      (λ b. return-Holds _ _ _ _ (λ db queue (u, k). (u, λ h. ground (arith, k, h))))

pub blocker_resolved-Holds :
    (d : Db) (q : List Message) (t : Task)
    → Holds
        (Unchanged d q)
        (blocker_resolved t)
        (λ free. Seen d q (free ≡ true → blocker_done t d ≡ true))
        (Unchanged d q)
unfolding blocker_resolved blocker_done
blocker_resolved-Holds d q t = done_blocker-Holds d q (given t.blocked_by_task_id)

read_project_row-IsRead :
    (id : String) → IsRead (λ env. read_project_row id) (λ db p. find_project id db ≡ some p)
unfolding read_project_row Api.◌>>=◌
read_project_row-IsRead id env db = elim (Option-cases (find_project id db)) [
  | inl e ↦ (ground (arith, e), λ a h. absurd (ground (arith, e)))
  | inr (t, e) ↦ (ground (arith, e), λ a h. ground (arith, e))
]

check_project-ok : (p a : Project) → check_project p ≡ ok a → a ≡ p
unfolding check_project
check_project-ok p a h = ground arith

-- What was read of a project, if it was found.
abbrev pub Found : String → Db → Option Project → Type 0
Found id d none = Unit
Found id d (some p) = find_project id d ≡ some p

pub get_project-Holds :
    (d : Db) (q : List Message) (id : String)
    → Holds (Unchanged d q) (get_project id) (λ p. Seen d q (Found id d p)) (Unchanged d q)
unfolding get_project
get_project-Holds d q id =
    if_missing-Holds _ _ _ _
      (onward-Holds _ _ _ (λ p. Seen d q (find_project id d ≡ some p)) _ _
        (read-Holds (λ env. read_project_row id) (λ db p. find_project id db ≡ some p) d q
          (read_project_row-IsRead id))
        (λ p.
          from_result-Holds _ _ _ (check_project p)
            (λ a h db queue (u, k). (u, ground (arith, check_project-ok p a h)))
            (λ db queue (u, k). u)))
      (λ db queue u. (u, tt))

-- What was read of a task's project, if the task goes on with it.
abbrev pub Resolved : String → Db → Option (Project × String) → Type 0
Resolved id d none = Unit
Resolved id d (some (p, run)) =
    (find_project id d ≡ some p) × (is_some (given p.initiating_run_id) ≡ true)

paired-Resolved :
    (id : String) (d : Db) (p : Project) (o : Option String)
    → find_project id d ≡ some p
    → given p.initiating_run_id ≡ o
    → Resolved id d (paired p o)
paired-Resolved id d p none h e = tt
paired-Resolved id d p (some run) h e = (h, ground (arith, e))

with_run-Resolved :
    (id : String) (d : Db) (p : Option Project) → Found id d p → Resolved id d (with_run p)
with_run-Resolved id d none h = tt
with_run-Resolved id d (some p) h = paired-Resolved id d p (given p.initiating_run_id) h refl

pub project_and_initiating_run-Holds :
    (d : Db) (q : List Message) (id : String)
    → Holds
        (Unchanged d q)
        (project_and_initiating_run id)
        (λ r. Seen d q (Resolved id d r))
        (Unchanged d q)
unfolding project_and_initiating_run
project_and_initiating_run-Holds d q id =
    onward-Holds _ _ _ (λ p. Seen d q (Found id d p)) _ _ (get_project-Holds d q id)
      (λ p. return-Holds _ _ _ _ (λ db queue (u, k). (u, with_run-Resolved id d p k)))
