-- ===== src/Dispatch/Eligible.antt =====
-- services/scheduler/src/tasks/task_dispatcher.py: for which tasks the loop makes a new attempt.
use codegen_orchestrator.Prelude.{
  String, true, some, List, [], ◌≡◌, refl, sym, subst, ◌⊎◌, ap, inl, inr, arith, Option-cases, ◌&&◌,
  Bool, false, Option, none,
}
use codegen_orchestrator.Contracts.Column.{Column}
use codegen_orchestrator.Contracts.Json.{Json}
use codegen_orchestrator.Contracts.Message.{Message}
use codegen_orchestrator.Contracts.Task.{Task, TaskStatus, value, read_status}
use codegen_orchestrator.Session.{Db, Result, ok, err, respond, discard, db-discard, ◌>>=◌}
use codegen_orchestrator.Tasks.Helpers.{find_task}
use codegen_orchestrator.Tasks.Actions.{transition_task}
use codegen_orchestrator.Tasks.Steps.{stamped, validate_transition-cases}
use codegen_orchestrator.Dispatch.Client.{World, Client}
use codegen_orchestrator.Dispatch.Client as Client
use codegen_orchestrator.Dispatch.Hoare.{
  Claim, Unchanged, Ends, Holds, onward-Holds, weaken-Holds, anything-Holds, request-Holds,
}
use codegen_orchestrator.Dispatch.Attempts.{
  transition, dispatcher, handle_prior_attempt, PriorAttempt,
}
use codegen_orchestrator.Dispatch.Tick.{dispatch_task, after_prior}
use codegen_orchestrator.Dispatch.Phases.{eligible, dispatch_task-Holds}
use codegen_orchestrator.Dispatch.Prior.{no_live_run, After, handle_prior_attempt-Holds}

-- A requested transition changes nothing, or moves the stored task and records the move.
pub data Transitioned (id : String) (to : Column TaskStatus) (db db' : Db) : Type 0 where
  untouched : db' ≡ db → Transitioned id to db db'
  moved :
      (t : Task)
      → find_task id db ≡ some t
      → db' ≡ stamped t to "dispatcher" [] db
      → Transitioned id to db db'

transition_task-Transitioned :
    (id : String) (s : TaskStatus) (db : Db)
    → Transitioned id
        (read_status (value s))
        db
        (respond (transition_task id (value s) dispatcher) db).db
unfolding transition_task ◌>>=◌
transition_task-Transitioned id s db = elim (Option-cases (find_task id db)) [
  | inl e ↦ untouched (ground arith)
  | inr (t, e) ↦ elim (validate_transition-cases t.status (read_status (value s))) [
    | inl (v, w) ↦ moved t e (ground arith)
    | inr v ↦ untouched (ground arith)
  ]
]

-- A claim that the dispatcher's moves keep holds after a requested transition, answered or lost.
pub transition-Holds :
    (R : Claim) (id : String) (s : TaskStatus)
    → ((db : Db) (q : List Message) (t : Task)
        → R db q
        → find_task id db ≡ some t
        → R (stamped t (read_status (value s)) "dispatcher" [] db) q)
    → Holds R (transition id s) (λ _. R) R
unfolding transition
transition-Holds R id s h =
    request-Holds R (λ _. R) R _ (λ env a db q r _. keep db q r) (λ env db q r. keep db q r)
      (λ db q r. r)
  where
    step :
        (db db' : Db) (q : List Message)
        → R db q
        → Transitioned id (read_status (value s)) db db'
        → R db' q
    step db db' q r (untouched e) = subst (λ x. R x q) (sym e) r
    step db db' q r (moved t e w) = subst (λ x. R x q) (sym w) (h db q t r e)

    keep :
        (db : Db) (q : List Message)
        → R db q
        → R (respond (discard (transition_task id (value s) dispatcher)) db).db q
    keep db q r =
        subst (λ x. R x q) (sym (db-discard (transition_task id (value s) dispatcher) db))
          (step db _ q r (transition_task-Transitioned id s db))

-- No message was queued and no run changed.
abbrev pub Idle : Db → List Message → Claim
Idle d q db queue = (db.runs ≡ d.runs) × (queue ≡ q)

module _ (str : Json → String) (t : Task) (d : Db) (q : List Message) where
  -- Idle, unless a new attempt was allowed.
  abbrev Allowed : Claim
  Allowed db queue = Idle d q db queue ⊎ ((eligible t d && no_live_run t d) ≡ true)

  idle : (db : Db) (queue : List Message) → Unchanged d q db queue → Idle d q db queue
  idle db queue (e, f) = (ap (λ (x : Db). x.runs) e, f)

  prior-Holds : Holds (Unchanged d q) (handle_prior_attempt t) (After t d q (Idle d q)) (Idle d q)
  prior-Holds =
      handle_prior_attempt-Holds t d q (Idle d q) idle
        (λ s. transition-Holds (Idle d q) t.id s (λ db queue r i e. i))

  attempt-Holds :
      (run : String) (siblings : List Task)
      → eligible t d ≡ true
      → Holds
          (Unchanged d q)
          (Client.◌>>=◌ (handle_prior_attempt t) (λ prior. after_prior str t run siblings prior))
          (λ _. Allowed)
          Allowed
  unfolding after_prior Client.return
  attempt-Holds run siblings h =
      onward-Holds (Unchanged d q) (λ _. Allowed) Allowed (After t d q (Idle d q)) _ _
        (weaken-Holds (Unchanged d q) (After t d q (Idle d q)) (After t d q (Idle d q)) (Idle d q)
          Allowed (handle_prior_attempt t) (λ a db queue e. e) (λ db queue i. inl i) prior-Holds)
        after
    where
      after :
          (prior : Option PriorAttempt)
          → Holds
              (After t d q (Idle d q) prior)
              (after_prior str t run siblings prior)
              (λ _. Allowed)
              Allowed
      after none w (u, k) =
          anything-Holds (Unchanged d q) (λ _. Allowed) Allowed
            (after_prior str t run siblings none) (λ a db queue. inr (ground arith))
            (λ db queue. inr (ground arith)) w u
      after (some p) w i = inl i

-- The loop's body for a task queues nothing and changes no run, whatever requests are lost, unless,
-- before, the task's blocker was done, its project was not the internal one, was scaffolded with a
-- workspace that is ready and named its initiating run, no task of its story was being worked on or
-- with a human, and no engineering run of the task was queued or running.
pub dispatch_task-eligible :
    (str : Json → String) (t : Task) (w : World)
    → ((eligible t w.db && no_live_run t w.db) ≡ false)
    → ((dispatch_task str t w).1.db.runs ≡ w.db.runs) × ((dispatch_task str t w).1.queue ≡ w.queue)
dispatch_task-eligible str t w n = go (dispatch_task str t w) (
    dispatch_task-Holds str t w.db w.queue (λ _. Allowed str t w.db w.queue)
      (Allowed str t w.db w.queue) (λ db queue u. inl (idle str t w.db w.queue db queue u))
      (λ db queue u. inl (idle str t w.db w.queue db queue u)) (attempt-Holds str t w.db w.queue) w
      (refl, refl))
  where
    only :
        (db : Db) (queue : List Message)
        → Allowed str t w.db w.queue db queue
        → Idle w.db w.queue db queue
    only db queue (inl i) = i
    only db queue (inr e) = absurd (ground arith)

    go :
        (x : Result Bool × World)
        → Ends (λ _. Allowed str t w.db w.queue) (Allowed str t w.db w.queue) x
        → (x.1.db.runs ≡ w.db.runs) × (x.1.queue ≡ w.queue)
    go (ok b, v) e = only v.db v.queue e
    go (err f, v) e = only v.db v.queue e
