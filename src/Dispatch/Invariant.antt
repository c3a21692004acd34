-- ===== src/Dispatch/Invariant.antt =====
-- services/scheduler/src/tasks/task_dispatcher.py: a tick keeps one worker to a story.
use codegen_orchestrator.Prelude.{
  ℕ, ◌≤◌, String, true, false, Option, none, some, List, [], ◌∷◌, ◌≡◌, refl, sym, subst, arith,
  ◌=ₛ◌, All, filter,
}
use codegen_orchestrator.Prelude.Count.{count}
use codegen_orchestrator.Contracts.Json.{Json}
use codegen_orchestrator.Contracts.Message.{Message}
use codegen_orchestrator.Contracts.Task.{Task, TaskStatus, value, read_status, todo}
use codegen_orchestrator.Session.{Db, Result, ok, err}
use codegen_orchestrator.Dispatch.Client as Client
use codegen_orchestrator.Dispatch.Client.{World, Client}
use codegen_orchestrator.Dispatch.Hoare.{
  Unchanged, Ends, Holds, return-Holds, onward-Holds, look-Holds, weaken-Holds,
}
use codegen_orchestrator.Dispatch.Eligible.{transition-Holds}
use codegen_orchestrator.Dispatch.Attempts.{transition, handle_prior_attempt, PriorAttempt}
use codegen_orchestrator.Dispatch.Reads.{by_priority, selects}
use codegen_orchestrator.Dispatch.Tick.{
  dispatch_task, after_prior, dispatch_each, dispatch_todo_tasks, get_tasks, by_status,
}
use codegen_orchestrator.Dispatch.Guards.{story_free}
use codegen_orchestrator.Dispatch.Siblings.{get_tasks-Holds}
use codegen_orchestrator.Dispatch.Prior.{After, handle_prior_attempt-Holds}
use codegen_orchestrator.Dispatch.Phases.{eligible, dispatch_task-Holds}
use codegen_orchestrator.Dispatch.OneWorker.{
  IsOrderly, IsAlone, at_work, named, free-IsAlone, save-IsOrderly, story_at,
}
use codegen_orchestrator.Dispatch.Snapshot.{listed-story}
use codegen_orchestrator.Dispatch.Frame.{Of, Keeps, return-Keeps, then-Keeps, start_attempt-Keeps}

eligible-free : (t : Task) (d : Db) → eligible t d ≡ true → story_free t d ≡ true
unfolding eligible
eligible-free t d h = ground arith

module _ (stories : String → Option (Option String)) (t : Task)
    (here : stories t.id ≡ some t.story_id) where
  abbrev Working : List Task → Type 0
  Working tasks = IsOrderly stories tasks × IsAlone t tasks

  move-Keeps : (s : TaskStatus) → Keeps Working (transition t.id s)
  move-Keeps s = transition-Holds (Of Working) t.id s (λ db q row (o, a) e.
      save-IsOrderly stories t row (read_status (value s)) db.tasks here e o a)

  module _ (str : Json → String) (d : Db) (q : List Message)
      (orderly : IsOrderly stories d.tasks) where
    same : (db : Db) (queue : List Message) → Unchanged d q db queue → IsOrderly stories db.tasks
    same db queue (e, f) = subst (λ (x : Db). IsOrderly stories x.tasks) (sym e) orderly

    attempt-Holds :
        (run : String) (siblings : List Task)
        → eligible t d ≡ true
        → Holds
            (Unchanged d q)
            (Client.◌>>=◌ (handle_prior_attempt t) (λ prior. after_prior str t run siblings prior))
            (λ _. Of (IsOrderly stories))
            (Of (IsOrderly stories))
    unfolding after_prior
    attempt-Holds run siblings h =
        weaken-Holds (Unchanged d q) (λ _. Of Working) (λ _. Of (IsOrderly stories)) (Of Working)
          (Of (IsOrderly stories)) _ (λ b db queue (o, a). o) (λ db queue (o, a). o)
          (onward-Holds (Unchanged d q) (λ _. Of Working) (Of Working) (After t d q (Of Working)) _
            _ (handle_prior_attempt-Holds t d q (Of Working) enter move-Keeps) after)
      where
        enter : (db : Db) (queue : List Message) → Unchanged d q db queue → Working db.tasks
        enter db queue (e, f) =
            subst (λ (x : Db). Working x.tasks) (sym e)
              (orderly, free-IsAlone t d (eligible-free t d h))

        after :
            (prior : Option PriorAttempt)
            → Holds
                (After t d q (Of Working) prior)
                (after_prior str t run siblings prior)
                (λ _. Of Working)
                (Of Working)
        after none w (u, k) =
            start_attempt-Keeps Working t move-Keeps str run siblings w (enter w.db w.queue u)
        after (some p) w i =
            return-Holds (Of Working) (λ _. Of Working) (Of Working) _ (λ db x r. r) w i

  dispatch_task-IsOrderly : (str : Json → String) → Keeps (IsOrderly stories) (dispatch_task str t)
  dispatch_task-IsOrderly str w o =
      dispatch_task-Holds str t w.db w.queue (λ _. Of (IsOrderly stories)) (Of (IsOrderly stories))
        (same str w.db w.queue o) (same str w.db w.queue o) (attempt-Holds str w.db w.queue o) w
        (refl, refl)

dispatch_each-IsOrderly :
    (stories : String → Option (Option String)) (str : Json → String) (ts : List Task)
    → All (λ t. stories t.id ≡ some t.story_id) ts
    → Keeps (IsOrderly stories) (dispatch_each str ts)
unfolding dispatch_each
dispatch_each-IsOrderly stories str [] h = return-Keeps (IsOrderly stories) 0
dispatch_each-IsOrderly stories str (t ∷ ts) (h, hs) =
    then-Keeps (IsOrderly stories) _ _ (dispatch_task-IsOrderly stories t h str) (λ b.
      then-Keeps (IsOrderly stories) _ _ (dispatch_each-IsOrderly stories str ts hs)
        (λ n. return-Keeps (IsOrderly stories) _))

-- If task keys are unique and no story has two tasks at work, so it is after a tick of the
-- dispatcher, however many of its requests are lost and whether the tick ends with an exception.
pub dispatch_todo_tasks-one_worker :
    (str : Json → String) (w : World)
    → ((id : String) → count (named id) w.db.tasks ≤ 1)
    → ((k : String) → (k =ₛ "") ≡ false → count (at_work k) w.db.tasks ≤ 1)
    → (k : String) → (k =ₛ "") ≡ false
    → count (at_work k) (dispatch_todo_tasks str w).1.db.tasks ≤ 1
unfolding dispatch_todo_tasks
dispatch_todo_tasks-one_worker str w unique single k n = settle (dispatch_todo_tasks str w) (
    look-Holds w.db w.queue (λ _. Of I) (Of I) same
      (λ ts. ts ≡ by_priority (filter (selects (by_status todo)) w.db.tasks))
      (get_tasks (by_status todo)) (dispatch_each str)
      (get_tasks-Holds w.db w.queue (by_status todo))
      (λ ts e v u.
        dispatch_each-IsOrderly stories str ts
          (subst (All (λ t. stories t.id ≡ some t.story_id)) (sym e)
            (listed-story w.db.tasks (by_status todo) unique))
          v (same v.db v.queue u))
      w (refl, refl))
  where
    stories : String → Option (Option String)
    stories id = story_at id w.db.tasks

    I : List Task → Type 0
    I = IsOrderly stories

    same : (db : Db) (q : List Message) → Unchanged w.db w.queue db q → I db.tasks
    same db q (e, f) =
        subst (λ (x : Db). I x.tasks) (sym e)
          (record { unique = unique; kept = λ id. refl; single = single })

    settle : (x : Result ℕ × World) → Ends (λ _. Of I) (Of I) x → count (at_work k) x.1.db.tasks ≤ 1
    settle (ok m, v) o = o.single k n
    settle (err f, v) o = o.single k n
