-- ===== src/Tasks/Backlog.antt =====
-- `push_task`: a pushed task goes to the top of the backlog.
use codegen_orchestrator.Prelude.{
  true, none, some, List, [], ◌∷◌, ◌≡◌, arith, Option-cases, inl, inr, All, or_else,
}
use codegen_orchestrator.Prelude.Int.{ℤ, ◌<ℤ◌, ◌≤ℤ◌, pred_ℤ, pos}
use codegen_orchestrator.Contracts.Task.{Task, backlog}
use codegen_orchestrator.Session.{Db, Env, ok, respond, ◌>>=◌}
use codegen_orchestrator.Tasks.Helpers.{status_is, TaskCreate}
use codegen_orchestrator.Tasks.Crud.{push_task, min_backlog_priority, insert_task, new_task}

-- No task of the backlog has a smaller priority number.
abbrev pub IsTop : ℤ → List Task → Type 0
IsTop m = All (λ t. status_is t.status backlog ≡ true → m ≤ℤ t.priority)

abbrev pub IsAbove : ℤ → List Task → Type 0
IsAbove m = All (λ t. status_is t.status backlog ≡ true → m <ℤ t.priority)

IsTop-mono : (m m' : ℤ) (ts : List Task) → m' ≤ℤ m → IsTop m ts → IsTop m' ts
IsTop-mono m m' [] l h = tt
IsTop-mono m m' (t ∷ ts) l h = (λ b. ground (arith, h.0 b), IsTop-mono m m' ts l h.1)

IsTop-none : (m : ℤ) (ts : List Task) → min_backlog_priority ts ≡ none → IsTop m ts
unfolding min_backlog_priority
IsTop-none m [] e = tt
IsTop-none m (t ∷ ts) e = (λ b. ground arith, IsTop-none m ts (ground arith))

IsTop-min : (m : ℤ) (ts : List Task) → min_backlog_priority ts ≡ some m → IsTop m ts
unfolding min_backlog_priority
IsTop-min m [] e = tt
IsTop-min m (t ∷ ts) e = elim (Option-cases (min_backlog_priority ts)) [
  | inl n ↦ (λ b. ground arith, IsTop-none m ts n)
  | inr (p, q) ↦ (λ b. ground arith, IsTop-mono p m ts (ground arith) (IsTop-min p ts q))
]

IsAbove-pred : (m : ℤ) (ts : List Task) → IsTop m ts → IsAbove (pred_ℤ m) ts
IsAbove-pred m [] h = tt
IsAbove-pred m (t ∷ ts) h = (λ b. ground (arith, h.0 b), IsAbove-pred m ts h.1)

IsTop-least : (ts : List Task) → IsTop (or_else (min_backlog_priority ts) (pos 0)) ts
IsTop-least ts = elim (Option-cases (min_backlog_priority ts)) [
  | inl n ↦ rw n (IsTop-none (pos 0) ts n)
  | inr (p, q) ↦ rw q (IsTop-min p ts q)
]

push_task-priority :
    (env : Env) (body : TaskCreate) (db : Db) (new : Task)
    → (respond (push_task env body) db).answer ≡ ok new
    → new.priority ≡ pred_ℤ (or_else (min_backlog_priority db.tasks) (pos 0))
unfolding push_task insert_task new_task ◌>>=◌
push_task-priority env body db new h = ground arith

-- A task that `push_task` creates comes strictly before every task that was in the backlog, in the
-- order of priorities.
pub push_task-first :
    (env : Env) (body : TaskCreate) (db : Db) (new : Task)
    → (respond (push_task env body) db).answer ≡ ok new
    → IsAbove new.priority db.tasks
push_task-first env body db new h =
    rw (push_task-priority env body db new h) (
      IsAbove-pred (or_else (min_backlog_priority db.tasks) (pos 0)) db.tasks
        (IsTop-least db.tasks))
