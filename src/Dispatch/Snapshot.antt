-- ===== src/Dispatch/Snapshot.antt =====
-- services/scheduler/src/tasks/task_dispatcher.py: the tasks that a tick has read are rows of the table.
use codegen_orchestrator.Prelude.{
  ◌≤◌, String, Bool, true, false, some, List, [], ◌∷◌, ◌≡◌, arith, All, filter, if◌then◌else◌,
  eq_iff, eq_refl,
}
use codegen_orchestrator.Prelude.Count.{count, count-cons}
use codegen_orchestrator.Prelude.Int.{leb_ℤ}
use codegen_orchestrator.Prelude.Table
use codegen_orchestrator.Contracts.Task.{Task}
use codegen_orchestrator.Tasks.Helpers.{task_key}
use codegen_orchestrator.Dispatch.Reads.{TaskFilters, selects, by_priority, insert_by_priority}
use codegen_orchestrator.Dispatch.OneWorker.{named, story_at}

-- A row that is found under its key counts there.
found-counts :
    (id : String) (ts : List Task) (t : Task)
    → Table.find task_key id ts ≡ some t
    → 1 ≤ count (named id) ts
unfolding Table.find
found-counts id [] t e = absurd (ground arith)
found-counts id (u ∷ ts) t e = ground (arith, found-counts id ts t, count-cons (named id) u ts)

module _ {P Q : Task → Type 0} where
  All-map : ((t : Task) → P t → Q t) → (ts : List Task) → All P ts → All Q ts
  All-map f [] h = tt
  All-map f (t ∷ ts) (h, hs) = (f t h, All-map f ts hs)

module _ (P : Task → Type 0) where
  All-filter : (test : Task → Bool) (ts : List Task) → All P ts → All P (filter test ts)
  All-filter test [] h = tt
  All-filter test (t ∷ ts) (h, hs) = go (test t) (All-filter test ts hs)
    where
      go :
          (b : Bool)
          → All P (filter test ts)
          → All P (if b then t ∷ filter test ts else filter test ts)
      go true rest = (h, rest)
      go false rest = rest

  All-insert : (t : Task) (ts : List Task) → P t → All P ts → All P (insert_by_priority t ts)
  unfolding insert_by_priority
  All-insert t [] h hs = (h, tt)
  All-insert t (u ∷ us) h (g, gs) = go (leb_ℤ t.priority u.priority) (All-insert t us h gs)
    where
      go :
          (b : Bool)
          → All P (insert_by_priority t us)
          → All P (if b then t ∷ u ∷ us else u ∷ insert_by_priority t us)
      go true rest = (h, (g, gs))
      go false rest = (g, rest)

  All-by_priority : (ts : List Task) → All P ts → All P (by_priority ts)
  unfolding by_priority
  All-by_priority [] h = tt
  All-by_priority (t ∷ ts) (h, hs) = All-insert t (by_priority ts) h (All-by_priority ts hs)

-- With unique keys every row is the one that its key finds.
unique-found :
    (ts : List Task)
    → ((id : String) → count (named id) ts ≤ 1)
    → All (λ t. Table.find task_key t.id ts ≡ some t) ts
unfolding Table.find
unique-found [] h = tt
unique-found (t ∷ ts) h = (
  ground (arith, eq_refl t.id),
  All-map
      (λ u e.
        ground
          (arith, found-counts u.id ts u e, h u.id, count-cons (named u.id) t ts, eq_iff t.id u.id))
      ts (unique-found ts (λ id. ground (arith, h id, count-cons (named id) t ts))),
)

-- The tasks of a list stand in the stories that the table has them in.
pub listed-story :
    (tasks : List Task) (filters : TaskFilters)
    → ((id : String) → count (named id) tasks ≤ 1)
    → All
        (λ t. story_at t.id tasks ≡ some t.story_id)
        (by_priority (filter (selects filters) tasks))
listed-story tasks filters unique = All-by_priority _ _ (
    All-filter _ (selects filters) tasks
      (All-map (λ t e. ground (arith, e)) tasks (unique-found tasks unique)))
