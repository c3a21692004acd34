-- ===== src/Dispatch/Prior.antt =====
-- services/scheduler/src/tasks/task_dispatcher.py: what the attempts that a task already had lead to.
use codegen_orchestrator.Prelude.{
  String, Bool, true, false, Option, none, some, List, [], ◌∷◌, ◌++◌, ◌≡◌, refl, ◌∙◌, sym, ap,
  arith, inl, inr, Bool-cases, ◌&&◌, ◌||◌, not, any, filter,
}
use codegen_orchestrator.Contracts.Column.{Column, known, unknown}
use codegen_orchestrator.Contracts.Message.{Message}
use codegen_orchestrator.Contracts.Run.{Run, RunStatus}
use codegen_orchestrator.Contracts.Task.{Task, TaskStatus, in_dev}
use codegen_orchestrator.Session as Api
use codegen_orchestrator.Session.{Db, Env, Result, ok, err, Result-cases, respond}
use codegen_orchestrator.Dispatch.Reads.{is_of, is_engineering, list_engineering_runs, newest_first}
use codegen_orchestrator.Dispatch.Hoare.{
  Claim, Unchanged, Seen, Holds, IsRead, read-Holds, return-Holds, from_result-Holds, onward-Holds,
  look-Holds,
}
use codegen_orchestrator.Dispatch.Attempts.{
  RunView, is_live, read_run, read_runs, list_runs, first_live, find_unfinished_run,
  find_dispatched_run, handle_unfinished, handle_prior_attempt, replay, recover_dispatched_task,
  transition, transition_all, terminal_task_statuses, PriorAttempt,
}

abbrev live_status : Column RunStatus → Bool
live_status (known s) = is_live s
live_status (unknown _) = false

-- An engineering run of the task that has not finished.
abbrev pub holds_branch : Task → Run → Bool
holds_branch t r = is_of t.id r.task_id && is_engineering r.type && live_status r.status

unfoldable pub no_live_run : Task → Db → Bool
no_live_run t db = not (any (holds_branch t) db.runs)

run_list-IsRead :
    (id : String)
    → IsRead
        (λ env. list_engineering_runs id)
        (λ db rs.
          rs ≡ newest_first (filter (λ r. is_of id r.task_id && is_engineering r.type) db.runs))
unfolding list_engineering_runs Api.◌>>=◌
run_list-IsRead id env db = (refl, λ a h. ground arith)

any-append :
    (test : Run → Bool) (rs ss : List Run) → any test (rs ++ ss) ≡ (any test rs || any test ss)
any-append test [] ss = refl
any-append test (r ∷ rs) ss = ground (arith, any-append test rs ss)

any-newest : (test : Run → Bool) (rs : List Run) → any test (newest_first rs) ≡ any test rs
any-newest test [] = refl
any-newest test (r ∷ rs) =
    ground (arith, any-append test (newest_first rs) (r ∷ []), any-newest test rs)

abbrev live : Run → Bool
live r = live_status r.status

any-live :
    (t : Task) (rs : List Run)
    → any live (filter (λ r. is_of t.id r.task_id && is_engineering r.type) rs)
      ≡ any (holds_branch t) rs
any-live t [] = refl
any-live t (r ∷ rs) = ground (arith, any-live t rs)

read_run-live : (r : Run) (v : RunView) → read_run r ≡ ok v → live r ≡ is_live v.status
unfolding read_run
read_run-live r v h = ground arith

first_live-none :
    (rs : List Run) (vs : List RunView)
    → read_runs rs ≡ ok vs
    → first_live vs ≡ none
    → any live rs ≡ false
unfolding read_runs first_live
first_live-none [] vs h e = refl
first_live-none (r ∷ rs) vs h e = elim (Result-cases (read_run r)) [
  | inl (f, x) ↦ absurd (ground arith)
  | inr (v, x) ↦ elim (Result-cases (read_runs rs)) [
    | inl (f, y) ↦ absurd (ground arith)
    | inr (us, y) ↦
        let same : vs ≡ v ∷ us = ground arith in
        let first : first_live (v ∷ us) ≡ none = ap first_live (sym same) ∙ e in
        elim (Bool-cases (is_live v.status)) [
          | inl b ↦ absurd (ground arith)
          | inr b ↦ ground (arith, read_run-live r v x, first_live-none rs us y (ground arith))
        ]
  ]
]

-- The rows that the dispatcher is sent for a task.
abbrev runs_of : Task → Db → List Run
runs_of t db = newest_first (filter (λ r. is_of t.id r.task_id && is_engineering r.type) db.runs)

list_runs-Holds :
    (d : Db) (q : List Message) (t : Task)
    → Holds
        (Unchanged d q)
        (list_runs t.id)
        (λ vs. Seen d q (read_runs (runs_of t d) ≡ ok vs))
        (Unchanged d q)
unfolding list_runs
list_runs-Holds d q t =
    onward-Holds _ _ _ (λ rs. Seen d q (rs ≡ runs_of t d)) _ _
      (read-Holds (λ env. list_engineering_runs t.id) _ d q (run_list-IsRead t.id))
      (λ rs.
        from_result-Holds _ _ _ (read_runs rs)
          (λ vs h db queue (u, k). (u, ap read_runs (sym k) ∙ h)) (λ db queue (u, k). u))

none-live :
    (t : Task) (d : Db) (vs : List RunView)
    → read_runs (runs_of t d) ≡ ok vs
    → first_live vs ≡ none
    → no_live_run t d ≡ true
unfolding no_live_run
none-live t d vs h e = ground (
  arith,
  first_live-none (runs_of t d) vs h e,
  any-newest live (filter (λ r. is_of t.id r.task_id && is_engineering r.type) d.runs),
  any-live t d.runs,
)

find_unfinished_run-Holds :
    (d : Db) (q : List Message) (t : Task)
    → Holds
        (Unchanged d q)
        (find_unfinished_run t)
        (λ o. Seen d q (o ≡ none → no_live_run t d ≡ true))
        (Unchanged d q)
unfolding find_unfinished_run
find_unfinished_run-Holds d q t =
    onward-Holds _ _ _ (λ vs. Seen d q (read_runs (runs_of t d) ≡ ok vs)) _ _
      (list_runs-Holds d q t)
      (λ vs. return-Holds _ _ _ (first_live vs) (λ db queue (u, k). (u, none-live t d vs k)))

find_dispatched_run-Holds :
    (d : Db) (q : List Message) (t : Task)
    → Holds (Unchanged d q) (find_dispatched_run t) (λ o. Seen d q (Unit {0})) (Unchanged d q)
unfolding find_dispatched_run
find_dispatched_run-Holds d q t =
    onward-Holds _ _ _ (λ vs. Seen d q (read_runs (runs_of t d) ≡ ok vs)) _ _
      (list_runs-Holds d q t) (λ vs. return-Holds _ _ _ _ (λ db queue (u, k). (u, tt)))

-- After a prior attempt was dealt with, or none was found and nothing has changed.
abbrev pub After : Task → Db → List Message → Claim → Option PriorAttempt → Claim
After t d q R none db queue = Seen d q (no_live_run t d ≡ true) db queue
After t d q R (some p) db queue = R db queue

module _ (t : Task) (d : Db) (q : List Message) (R : Claim)
    (enter : (db : Db) (queue : List Message) → Unchanged d q db queue → R db queue)
    (keeps : (s : TaskStatus) → Holds R (transition t.id s) (λ _. R) R) where
  transition_all-Holds : (ss : List TaskStatus) → Holds R (transition_all t.id ss) (λ _. R) R
  unfolding transition_all
  transition_all-Holds [] = return-Holds R (λ _. R) R tt (λ db queue r. r)
  transition_all-Holds (s ∷ ss) =
      onward-Holds R (λ _. R) R (λ _. R) _ _ (keeps s) (λ _. transition_all-Holds ss)

  recover-Holds : (run : RunView) → Holds R (recover_dispatched_task t.id run) (λ _. R) R
  unfolding recover_dispatched_task
  recover-Holds run =
      onward-Holds R (λ _. R) R (λ _. R) _ _ (keeps in_dev)
        (λ _. transition_all-Holds (terminal_task_statuses run))

  replay-Holds :
      no_live_run t d ≡ true
      → (o : Option RunView) → Holds (Unchanged d q) (replay t o) (After t d q R) R
  unfolding replay
  replay-Holds h none w u =
      return-Holds (Unchanged d q) (After t d q R) R none (λ db queue u. (u, h)) w u
  replay-Holds h (some run) w u =
      onward-Holds R (After t d q R) R (λ _. R) (recover_dispatched_task t.id run) _
        (recover-Holds run) (λ _. return-Holds R (After t d q R) R _ (λ db queue r. r)) w
        (enter w.db w.queue u)

  unfinished-Holds :
      (o : Option RunView)
      → (o ≡ none → no_live_run t d ≡ true)
      → Holds (Unchanged d q) (handle_unfinished t o) (After t d q R) R
  unfolding handle_unfinished
  unfinished-Holds none h w u =
      look-Holds d q (After t d q R) R enter (λ _. Unit {0}) (find_dispatched_run t) _
        (find_dispatched_run-Holds d q t) (λ o _. replay-Holds (h refl) o) w u
  unfinished-Holds (some run) h w u =
      onward-Holds R (After t d q R) R (λ _. R) (transition t.id in_dev) _ (keeps in_dev)
        (λ _. return-Holds R (After t d q R) R _ (λ db queue r. r)) w (enter w.db w.queue u)

  pub handle_prior_attempt-Holds : Holds (Unchanged d q) (handle_prior_attempt t) (After t d q R) R
  unfolding handle_prior_attempt
  handle_prior_attempt-Holds =
      look-Holds d q (After t d q R) R enter (λ o. o ≡ none → no_live_run t d ≡ true)
        (find_unfinished_run t) _ (find_unfinished_run-Holds d q t) unfinished-Holds
