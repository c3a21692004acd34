-- ===== src/Dispatch/Frame.antt =====
-- services/scheduler/src/tasks/task_dispatcher.py: what a new attempt leaves of the tasks.
use codegen_orchestrator.Prelude.{
  ℕ, String, Bool, true, false, Option, none, some, List, [], ◌∷◌, ◌≡◌, sym, ap, subst, arith, inl,
  inr, Option-cases, ◌=ₛ◌, ◌&&◌, not, ◌==◌, if◌then◌else◌,
}
use codegen_orchestrator.Prelude.Table
use codegen_orchestrator.Contracts.Json.{Json}
use codegen_orchestrator.Contracts.Run.{RunCreate, RunUpdate}
use codegen_orchestrator.Contracts.Project.{Project}
use codegen_orchestrator.Contracts.Task.{Task, TaskStatus, in_dev, done}
use codegen_orchestrator.Recipients.{find_user}
use codegen_orchestrator.Session.{Db, Env, Handler, respond, discard, ◌>>=◌}
use codegen_orchestrator.Actor.{Caller}
use codegen_orchestrator.Tasks.Helpers.{find_task, get_task, status_is}
use codegen_orchestrator.Runs.Requests.{RunRequest, handle_run}
use codegen_orchestrator.Runs.Steps.{RunStep, stays, insert_step, change_step, handle_run-step}
use codegen_orchestrator.Runs.Update.{create_run, update_run}
use codegen_orchestrator.Dispatch.Client as Client
use codegen_orchestrator.Dispatch.Client.{World, Client, request}
use codegen_orchestrator.Dispatch.Hoare.{
  Claim, Holds, return-Holds, onward-Holds, request-Holds, attempt-Holds, if_missing-Holds,
  publish-Holds, from_result-Holds,
}
use codegen_orchestrator.Dispatch.Attempts.{transition}
use codegen_orchestrator.Dispatch.Reads.{get_task_events}
use codegen_orchestrator.Dispatch.Recipient.{
  service, get_project, read_project_row, check_project, get_user, read_user_row,
  resolve_owner_recipient, recipient_of, resolve_project_recipient, addressed, unaddressed,
}
use codegen_orchestrator.Dispatch.Publish.{
  create_and_publish_run, close_unpublished, retried, new_run_id, attempt_run, transition_to_in_dev,
}
use codegen_orchestrator.Dispatch.Tick.{start_attempt, sibling_events, finish}

-- A handler that leaves the tasks alone.
abbrev KeepsTasks : {A : Type 0} → (Env → Handler A) → Type 0
KeepsTasks handler = (env : Env) (db : Db) → (respond (handler env) db).db.tasks ≡ db.tasks

project_row-KeepsTasks : (id : String) → KeepsTasks (λ env. read_project_row id)
unfolding read_project_row ◌>>=◌
project_row-KeepsTasks id env db =
    elim (Option-cases (Table.find (λ (p : Project). p.id) id db.projects)) [
      | inl e ↦ ground (arith, e)
      | inr (p, e) ↦ ground (arith, e)
    ]

user_row-KeepsTasks : (id : ℕ) → KeepsTasks (λ env. read_user_row id)
unfolding read_user_row ◌>>=◌
user_row-KeepsTasks id env db = elim (Option-cases (find_user id db.users)) [
  | inl e ↦ ground (arith, e)
  | inr (p, e) ↦ ground (arith, e)
]

events-KeepsTasks : (id : String) → KeepsTasks (λ env. get_task_events id)
unfolding get_task_events get_task ◌>>=◌
events-KeepsTasks id env db = elim (Option-cases (find_task id db)) [
  | inl e ↦ ground (arith, e)
  | inr (p, e) ↦ ground (arith, e)
]

RunStep-tasks : (request : RunRequest) (db db' : Db) → RunStep request db db' → db'.tasks ≡ db.tasks
RunStep-tasks request db db' (stays e) = ap (λ (x : Db). x.tasks) e
RunStep-tasks request db db' (insert_step body f e) = ap (λ (x : Db). x.tasks) e
RunStep-tasks request db db' (change_step r r' f i c e) = ap (λ (x : Db). x.tasks) e

create_run-KeepsTasks : (body : RunCreate) → KeepsTasks (λ env. discard (create_run env body))
unfolding handle_run
create_run-KeepsTasks body env db =
    RunStep-tasks (RunRequest.create body) db _
      (handle_run-step env service (RunRequest.create body) db)

update_run-KeepsTasks :
    (caller : Caller) (id : String) (body : RunUpdate)
    → KeepsTasks (λ env. discard (update_run env caller id body))
unfolding handle_run
update_run-KeepsTasks caller id body env db =
    RunStep-tasks (RunRequest.update id body) db _
      (handle_run-step env caller (RunRequest.update id body) db)

-- A claim about the tasks.
module _ (T : List Task → Type 0) where
  abbrev pub Of : Claim
  Of db queue = T db.tasks

  -- A step after which the claim holds as it did before.
  abbrev pub Keeps : {A : Type 0} → Client A → Type 0
  Keeps m = Holds Of m (λ _. Of) Of

  request-Keeps :
      {A : Type 0} (handler : Env → Handler A) → KeepsTasks handler → Keeps (request handler)
  request-Keeps handler k =
      request-Holds Of (λ _. Of) Of handler (λ env a db q t _. subst T (sym (k env db)) t)
        (λ env db q t. subst T (sym (k env db)) t) (λ db q t. t)

  pub return-Keeps : {A : Type 0} (a : A) → Keeps (Client.return a)
  return-Keeps a = return-Holds Of (λ _. Of) Of a (λ db q t. t)

  pub then-Keeps :
      {A B : Type 0} (m : Client A) (f : A → Client B)
      → Keeps m
      → ((a : A) → Keeps (f a))
      → Keeps (Client.◌>>=◌ m f)
  then-Keeps m f h k = onward-Holds Of (λ _. Of) Of (λ _. Of) m f h k

  attempt-Keeps : {A : Type 0} (m : Client A) → Keeps m → Keeps (Client.attempt m)
  attempt-Keeps m h = attempt-Holds Of (λ _. Of) m h Of

  if_missing-Keeps : {A : Type 0} (m : Client A) → Keeps m → Keeps (Client.if_missing m)
  if_missing-Keeps m h = if_missing-Holds Of (λ _. Of) Of m h (λ db q t. t)

  get_project-Keeps : (id : String) → Keeps (get_project id)
  unfolding get_project
  get_project-Keeps id = if_missing-Keeps _ (
      then-Keeps _ _ (request-Keeps _ (project_row-KeepsTasks id))
        (λ p. from_result-Holds Of (λ _. Of) Of (check_project p) (λ _ _ db q t. t) (λ db q t. t)))

  owner-Keeps : (id : ℕ) → Keeps (resolve_owner_recipient id)
  unfolding resolve_owner_recipient get_user
  owner-Keeps id = go (id == 0)
    where
      go :
          (b : Bool)
          → Keeps (
              if b
              then Client.return (unaddressed none "recipient unresolved: project has no owner")
              else Client.◌>>=◌ (get_user id) (λ u. Client.return (addressed id u)))
      go true = return-Keeps _
      go false =
          then-Keeps _ _ (if_missing-Keeps _ (request-Keeps _ (user_row-KeepsTasks id)))
            (λ u. return-Keeps (addressed id u))

  recipient-Keeps : (id : String) → Keeps (resolve_project_recipient id)
  unfolding resolve_project_recipient
  recipient-Keeps id = then-Keeps _ _ (get_project-Keeps id) of
    where
      of : (p : Option Project) → Keeps (recipient_of p)
      of none = return-Keeps _
      of (some p) = owner-Keeps p.owner_id

  events-Keeps : (t : Task) (ts : List Task) → Keeps (sibling_events t ts)
  unfolding sibling_events
  events-Keeps t [] = return-Keeps []
  events-Keeps t (u ∷ us) =
      then-Keeps _ _ (one (not (u.id =ₛ t.id) && status_is u.status done))
        (λ es. then-Keeps _ _ (events-Keeps t us) (λ rest. return-Keeps _))
    where
      one :
          (b : Bool) → Keeps (if b then request (λ env. get_task_events u.id) else Client.return [])
      one true = request-Keeps _ (events-KeepsTasks u.id)
      one false = return-Keeps []

  close_unpublished-Keeps :
      (t : Task) (run_id run : String) (o : Option (Unit {0}))
      → Keeps (close_unpublished t run_id run o)
  unfolding close_unpublished
  close_unpublished-Keeps t run_id run none =
      then-Keeps _ _ (request-Keeps _ (update_run-KeepsTasks service run_id _))
        (λ _. return-Keeps none)
  close_unpublished-Keeps t run_id run (some _) = return-Keeps (some run_id)

  new_run_id-Keeps : Keeps new_run_id
  unfolding new_run_id
  new_run_id-Keeps w h = h

  create_and_publish_run-Keeps :
      (t : Task) (description run : String) → Keeps (create_and_publish_run t description run)
  unfolding create_and_publish_run
  create_and_publish_run-Keeps t description run = then-Keeps _ _ new_run_id-Keeps (λ id.
      then-Keeps _ _ (request-Keeps _ (create_run-KeepsTasks (attempt_run t id run))) (λ _.
        then-Keeps _ _ (recipient-Keeps t.project_id) (λ chat.
          then-Keeps _ _
            (attempt-Keeps _
              (publish-Holds Of (λ _. Of) Of _ (λ db q x. x) (λ db q x. x) (λ db q x. x)))
            (close_unpublished-Keeps t id run))))

  module _ (t : Task) (keeps : (s : TaskStatus) → Keeps (transition t.id s)) where
    transition_to_in_dev-Keeps : Keeps (transition_to_in_dev t.id)
    unfolding transition_to_in_dev retried
    transition_to_in_dev-Keeps =
        then-Keeps _ _ (attempt-Keeps _ (keeps in_dev))
          (λ o. then-Keeps _ _ (again o) (λ p. return-Keeps _))
      where
        again : (o : Option (Unit {0})) → Keeps (retried t.id o)
        again none = attempt-Keeps _ (keeps in_dev)
        again (some u) = return-Keeps _

    -- A claim about the tasks that the task's own moves keep holds throughout a new attempt.
    pub start_attempt-Keeps :
        (str : Json → String) (run : String) (siblings : List Task)
        → Keeps (start_attempt str t run siblings)
    unfolding start_attempt finish
    start_attempt-Keeps str run siblings =
        then-Keeps _ _ (events-Keeps t siblings)
          (λ es. then-Keeps _ _ (create_and_publish_run-Keeps t _ run) finished)
      where
        finished : (o : Option String) → Keeps (finish str t o)
        finished none = return-Keeps false
        finished (some id) = transition_to_in_dev-Keeps
