-- ===== src/Dispatch/OneWorker.antt =====
-- services/scheduler/src/tasks/task_dispatcher.py: one task of a story is worked on at a time.
use codegen_orchestrator.Prelude.{
  ◌≤◌, String, Bool, true, false, Option, none, some, List, [], ◌∷◌, ◌≡◌, refl, ◌∙◌, ap, arith, inl,
  inr, Bool-cases, ◌=ₛ◌, ◌&&◌, not, any, eq_iff, eq_refl,
}
use codegen_orchestrator.Prelude.Count.{count, count-save, count-split}
use codegen_orchestrator.Prelude.Table
use codegen_orchestrator.Contracts.Column.{Column}
use codegen_orchestrator.Contracts.Task.{Task, TaskStatus, in_dev}
use codegen_orchestrator.Session.{Db}
use codegen_orchestrator.Tasks.Helpers.{task_key, status_is}
use codegen_orchestrator.Dispatch.Reads.{is_of}
use codegen_orchestrator.Dispatch.Tick.{given}
use codegen_orchestrator.Dispatch.Guards.{occupies, free_in, story_free}

abbrev pub at_work : String → Task → Bool
at_work story t = is_of story t.story_id && status_is t.status in_dev

abbrev pub named : String → Task → Bool
named id t = t.id =ₛ id

-- Tasks of a story that are worked on, but for one.
abbrev pub elsewhere : (story id : String) → Task → Bool
elsewhere story id t = at_work story t && not (named id t)

abbrev pub story_at : String → List Task → Option (Option String)
story_at id tasks = elim (Table.find task_key id tasks) [ none ↦ none | some t ↦ some t.story_id ]

-- Keys are unique, every task is in the story that it was in, and no story has two tasks at work.
pub record IsOrderly (stories : String → Option (Option String)) (tasks : List Task) : Type 0 where
  pub unique : (id : String) → count (named id) tasks ≤ 1
  pub kept : (id : String) → story_at id tasks ≡ stories id
  pub single : (k : String) → (k =ₛ "") ≡ false → count (at_work k) tasks ≤ 1

-- The others of the task's story are not at work.
abbrev pub IsAlone : Task → List Task → Type 0
IsAlone t tasks = (k : String) → given t.story_id ≡ some k → count (elsewhere k t.id) tasks ≡ 0

given-is :
    (k : String) (o : Option String) → (k =ₛ "") ≡ false → is_of k o ≡ true → given o ≡ some k
given-is k none n h = absurd (ground arith)
given-is k (some j) n h = let same : j ≡ k = ground (arith, eq_iff j k) in ground (arith, same)

not_elsewhere :
    (k id : String) (ts : List Task) → any (occupies k) ts ≡ false → count (elsewhere k id) ts ≡ 0
not_elsewhere k id [] h = refl
not_elsewhere k id (t ∷ ts) h = ground (arith, not_elsewhere k id ts)

pub free-IsAlone : (t : Task) (db : Db) → story_free t db ≡ true → IsAlone t db.tasks
unfolding story_free
free-IsAlone t db h k e = not_elsewhere k t.id db.tasks (ground (arith, ap (free_in db) e))

module _ (stories : String → Option (Option String)) (t row : Task) (s : Column TaskStatus)
    (tasks : List Task) (here : stories t.id ≡ some t.story_id)
    (e : Table.find task_key t.id tasks ≡ some row) (orderly : IsOrderly stories tasks)
    (alone : IsAlone t tasks) where
  abbrev pub new : Task
  new = record row { status = s }

  same_id : row.id ≡ t.id
  same_id = Table.key-find task_key t.id tasks row e

  own : Table.find task_key new.id tasks ≡ some row
  own = ap (λ i. Table.find task_key i tasks) same_id ∙ e

  same_story : row.story_id ≡ t.story_id
  same_story = ground (arith, e, orderly.kept t.id, here)

  save_unique : (id : String) → count (named id) (Table.save task_key new tasks) ≤ 1
  save_unique id =
      ground (arith, count-save (named id) task_key new tasks row own, orderly.unique id)

  save_kept : (id : String) → story_at id (Table.save task_key new tasks) ≡ stories id
  save_kept id = ground (
    arith,
    orderly.kept id,
    Table.find-save task_key new id tasks,
    eq_iff row.id id,
    ap (λ i. Table.find task_key i tasks) same_id,
    e,
  )

  save-IsAlone : IsAlone t (Table.save task_key new tasks)
  save-IsAlone k h = ground (
    arith,
    alone k h,
    count-save (elsewhere k t.id) task_key new tasks row own,
    same_id,
    eq_refl t.id,
  )

  save_single :
      (k : String) → (k =ₛ "") ≡ false → count (at_work k) (Table.save task_key new tasks) ≤ 1
  save_single k n = elim (Bool-cases (is_of k t.story_id)) [
    | inl y ↦ ground (
      arith,
      count-split (at_work k) (named t.id) (Table.save task_key new tasks),
      save-IsAlone k (given-is k t.story_id n y),
      save_unique t.id,
    )
    | inr z ↦
        ground
          (arith, count-save (at_work k) task_key new tasks row own, orderly.single k n, same_story)
  ]

  -- A move of a task whose story has no other at work keeps the tasks orderly.
  pub save-IsOrderly :
      IsOrderly stories (Table.save task_key new tasks) × IsAlone t (Table.save task_key new tasks)
  save-IsOrderly =
      (record { unique = save_unique; kept = save_kept; single = save_single }, save-IsAlone)
