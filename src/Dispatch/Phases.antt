-- ===== src/Dispatch/Phases.antt =====
-- services/scheduler/src/tasks/task_dispatcher.py: what the loop does for a task, as the guards, the
-- prior attempt, and the new one.
use codegen_orchestrator.Prelude.{
  String, Bool, true, false, Option, none, some, List, ◌≡◌, refl, arith, ◌=ₛ◌, ◌&&◌, not,
  if◌then◌else◌,
}
use codegen_orchestrator.Contracts.Message.{Message}
use codegen_orchestrator.Contracts.Project.{Project}
use codegen_orchestrator.Contracts.Task.{Task}
use codegen_orchestrator.Contracts.Json.{Json}
use codegen_orchestrator.Session.{Db}
use codegen_orchestrator.Dispatch.Client.{return, ◌>>=◌}
use codegen_orchestrator.Dispatch.Hoare.{Claim, Unchanged, Holds, return-Holds, look-Holds}
use codegen_orchestrator.Dispatch.Attempts.{handle_prior_attempt, story_blocks_dispatch}
use codegen_orchestrator.Dispatch.Tick.{
  blocker_resolved, is_draft, workspace_ready, project_and_initiating_run, read_siblings,
  dispatch_task, dispatch_resolved, dispatch_unblocked, after_prior, internal_project_id,
}
use codegen_orchestrator.Dispatch.Guards.{
  blocker_done, blocker_resolved-Holds, project_ready, story_free, Resolved,
  project_and_initiating_run-Holds,
}
use codegen_orchestrator.Dispatch.Siblings.{read_siblings-Holds}

-- Everything that has to be so before a new attempt is made for a task.
unfoldable pub eligible : Task → Db → Bool
eligible t db =
    blocker_done t db
    && not (t.project_id =ₛ internal_project_id)
    && project_ready t db
    && story_free t db

eligible-all :
    (t : Task) (db : Db)
    → blocker_done t db ≡ true
    → (t.project_id =ₛ internal_project_id) ≡ false
    → project_ready t db ≡ true
    → story_free t db ≡ true
    → eligible t db ≡ true
unfolding eligible
eligible-all t db a b c e = ground arith

module _ (str : Json → String) (t : Task) (d : Db) (q : List Message) (Q : Bool → Claim) (E : Claim)
    (stop : (db : Db) (queue : List Message) → Unchanged d q db queue → Q false db queue)
    (fault : (db : Db) (queue : List Message) → Unchanged d q db queue → E db queue)
    (go : (run : String) (siblings : List Task)
      → eligible t d ≡ true
      → Holds
          (Unchanged d q)
          (handle_prior_attempt t >>= λ prior. after_prior str t run siblings prior)
          Q
          E) where
  dispatch_unblocked-Holds :
      (run : String)
      → (story_free t d ≡ true → eligible t d ≡ true)
      → Holds (Unchanged d q) (dispatch_unblocked str t run) Q E
  unfolding dispatch_unblocked
  dispatch_unblocked-Holds run h =
      look-Holds d q Q E fault (λ ts. story_blocks_dispatch ts ≡ false → story_free t d ≡ true)
        (read_siblings t) _ (read_siblings-Holds d q t)
        (λ ts k. pass (story_blocks_dispatch ts) ts k)
    where
      pass :
          (b : Bool) (ts : List Task)
          → (b ≡ false → story_free t d ≡ true)
          → Holds
              (Unchanged d q)
              (if b
                then return false
                else do prior ← handle_prior_attempt t; after_prior str t run ts prior)
              Q
              E
      pass true ts k = return-Holds (Unchanged d q) Q E false stop
      pass false ts k = go run ts (h (k refl))

  dispatch_resolved-Holds :
      (r : Option (Project × String))
      → (project_ready t d ≡ true → story_free t d ≡ true → eligible t d ≡ true)
      → Resolved t.project_id d r
      → Holds (Unchanged d q) (dispatch_resolved str t r) Q E
  unfolding dispatch_resolved project_ready
  dispatch_resolved-Holds none h k = return-Holds (Unchanged d q) Q E false stop
  dispatch_resolved-Holds (some (p, run)) h (e, i) =
      pass (is_draft p.status) (workspace_ready p) (λ a b. h (ground (arith, a, b)))
    where
      pass :
          (draft ready : Bool)
          → (draft ≡ false → ready ≡ true → story_free t d ≡ true → eligible t d ≡ true)
          → Holds
              (Unchanged d q)
              (if draft
                then return false
                else if ready
                then dispatch_unblocked str t run
                else return false)
              Q
              E
      pass true ready k = return-Holds (Unchanged d q) Q E false stop
      pass false false k = return-Holds (Unchanged d q) Q E false stop
      pass false true k = dispatch_unblocked-Holds run (k refl refl)

  -- A task that the guards let through is judged by what the rest of the loop's body does.
  pub dispatch_task-Holds : Holds (Unchanged d q) (dispatch_task str t) Q E
  unfolding dispatch_task
  dispatch_task-Holds =
      look-Holds d q Q E fault (λ free. free ≡ true → blocker_done t d ≡ true) (blocker_resolved t)
        _ (blocker_resolved-Holds d q t)
        (λ free k. pass free (t.project_id =ₛ internal_project_id) k (eligible-all t d))
    where
      pass :
          (free hidden : Bool)
          → (free ≡ true → blocker_done t d ≡ true)
          → (blocker_done t d ≡ true
              → hidden ≡ false
              → project_ready t d ≡ true
              → story_free t d ≡ true
              → eligible t d ≡ true)
          → Holds
              (Unchanged d q)
              (if not free
                then return false
                else if hidden
                then return false
                else do r ← project_and_initiating_run t.project_id; dispatch_resolved str t r)
              Q
              E
      pass false hidden k h = return-Holds (Unchanged d q) Q E false stop
      pass true true k h = return-Holds (Unchanged d q) Q E false stop
      pass true false k h =
          look-Holds d q Q E fault (Resolved t.project_id d)
            (project_and_initiating_run t.project_id) _
            (project_and_initiating_run-Holds d q t.project_id)
            (λ r e. dispatch_resolved-Holds r (h (k refl) refl) e)
