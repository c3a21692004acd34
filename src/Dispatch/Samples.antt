-- ===== src/Dispatch/Samples.antt =====
-- Tests of the dispatcher, and its theorems at a concrete tick.
use codegen_orchestrator.Prelude.{
  ℕ, ◌≤◌, String, false, List, [], ◌∷◌, ◌≡◌, refl, map, length, arith, ◌=ₛ◌, ◌==◌, if◌then◌else◌,
}
use codegen_orchestrator.Prelude.Count.{count, count-cons}
use codegen_orchestrator.Prelude.Table
use codegen_orchestrator.Contracts.Column.{Column, known}
use codegen_orchestrator.Contracts.Json
use codegen_orchestrator.Contracts.Json.{Json, truthy}
use codegen_orchestrator.Contracts.Run.{RunStatus}
use codegen_orchestrator.Contracts.Task.{
  TaskStatus, TaskType, todo, in_dev, waiting_human_review, value, read_status, can_move,
}
use codegen_orchestrator.Session.{Result, ok, err, internal, ◌>>=◌, discard}
use codegen_orchestrator.Dispatch.Client.{Fate, answered, lost_request, Circumstance, World}
use codegen_orchestrator.Dispatch.Client as Client
use codegen_orchestrator.Dispatch.Tick.{
  dispatch_task, dispatch_todo_tasks, get_tasks, check_tasks, read_siblings, start_attempt,
}
use codegen_orchestrator.Tasks.Actions.{transition_task}
use codegen_orchestrator.Tasks.Helpers as Endpoint
use codegen_orchestrator.Runs.Update.{create_run, update_run}
use codegen_orchestrator.Recipients.{find_user}
use codegen_orchestrator.Dispatch.Reads.{list_tasks, list_engineering_runs}
use codegen_orchestrator.Dispatch.Attempts.{
  read_runs, story_blocks_dispatch, handle_prior_attempt, transition,
}
use codegen_orchestrator.Dispatch.Recipient.{
  get_project, read_project_row, check_project, get_user, read_user_row, resolve_project_recipient,
}
use codegen_orchestrator.Dispatch.Publish.{new_run_id, transition_to_in_dev}
use codegen_orchestrator.Dispatch.Eligible.{dispatch_task-eligible}
use codegen_orchestrator.Dispatch.Guards.{blocker_done, story_free}
use codegen_orchestrator.Dispatch.Phases.{eligible}
use codegen_orchestrator.Dispatch.OneWorker.{at_work, named}
use codegen_orchestrator.Dispatch.Invariant.{dispatch_todo_tasks-one_worker}
use codegen_orchestrator.Fixtures.{env_at, task_with, with_task}

-- A Python that writes every value alike.
abbrev shown : Json → String
shown v = "?"

abbrev well : Circumstance
well = record { fate = answered; env = env_at 100 "abc" }

abbrev waiting : World
waiting = record {
  db = with_task (task_with todo TaskType.feature);
  queue = [];
  coming = λ n. well;
}

-- The seventh request of the tick is lost: the one that asks for the recipient's project.
abbrev interrupted : World
interrupted = record waiting {
  coming = λ n. if n == 6 then record { fate = lost_request; env = env_at 100 "abc" } else well;
}

unfoldable tick : World → Result ℕ × World
unfolding dispatch_todo_tasks Client.◌>>=◌ Client.request Client.publish Client.attempt
    Client.if_missing ◌>>=◌ discard transition_task create_run update_run list_tasks
    list_engineering_runs Endpoint.get_task find_user Json.get truthy read_runs value read_status
    can_move get_project read_project_row check_project get_user read_user_row get_tasks check_tasks
    resolve_project_recipient read_siblings story_blocks_dispatch handle_prior_attempt start_attempt
    new_run_id transition_to_in_dev transition Client.from_result Table.find Table.save
tick w = dispatch_todo_tasks shown w

-- The world that a tick leaves, in which no more requests are lost.
abbrev after : World → World
after w = record (tick w).1 { coming = λ n. well }

-- What a tick answers, the statuses of the tasks, the runs and the queue's length.
abbrev seen :
    Result ℕ × World → Result ℕ × (List (Column TaskStatus) × (List (Column RunStatus) × ℕ))
seen (r, w) = (r, (map (λ t. t.status) w.db.tasks, (map (λ x. x.status) w.db.runs, length w.queue)))

dispatched : seen (tick waiting) ≡ (ok 1, (known in_dev ∷ [], (known RunStatus.queued ∷ [], 1)))
unfolding tick
dispatched = refl

-- The run was created, and its message never was.
cut_short :
    seen (tick interrupted) ≡ (err internal, (known todo ∷ [], (known RunStatus.queued ∷ [], 0)))
unfolding tick
cut_short = refl

-- The next tick adopts that run, and counts the task as dispatched.
adopted :
    seen (tick (after interrupted)) ≡ (ok 1, (known in_dev ∷ [], (known RunStatus.queued ∷ [], 0)))
unfolding tick Json.json_eq
adopted = refl

-- A story whose task waits for a human.
abbrev with_human : World
with_human = record waiting { db = with_task (task_with waiting_human_review TaskType.feature) }

dispatch_task-eligible_example :
    ((dispatch_task shown (task_with todo TaskType.feature) with_human).1.db.runs ≡ [])
    × ((dispatch_task shown (task_with todo TaskType.feature) with_human).1.queue ≡ [])
unfolding eligible blocker_done story_free
dispatch_task-eligible_example =
    dispatch_task-eligible shown (task_with todo TaskType.feature) with_human (ground arith)

one_key : (id : String) → count (named id) interrupted.db.tasks ≤ 1
one_key id = ground (arith, count-cons (named id) (task_with todo TaskType.feature) [])

none_at_work : (k : String) → (k =ₛ "") ≡ false → count (at_work k) interrupted.db.tasks ≤ 1
none_at_work k n = ground (arith, count-cons (at_work k) (task_with todo TaskType.feature) [])

dispatch_todo_tasks-one_worker_example :
    count (at_work "s") (dispatch_todo_tasks shown interrupted).1.db.tasks ≤ 1
dispatch_todo_tasks-one_worker_example =
    dispatch_todo_tasks-one_worker shown interrupted one_key none_at_work "s" refl
