-- ===== src/Dispatch/Siblings.antt =====
-- services/scheduler/src/tasks/task_dispatcher.py: the tasks that the loop reads, and whether those of
-- a story stand in the way.
use codegen_orchestrator.Prelude.{
  String, Bool, true, false, Option, none, some, List, [], ◌∷◌, ◌≡◌, refl, ◌∙◌, arith, inl, inr,
  Bool-cases, ◌=ₛ◌, ◌&&◌, ◌||◌, any, filter,
}
use codegen_orchestrator.Contracts.Message.{Message}
use codegen_orchestrator.Contracts.Task.{Task, in_dev, waiting_human_review}
use codegen_orchestrator.Session as Api
use codegen_orchestrator.Session.{Db, Env, Result, ok, err, Result-cases, respond}
use codegen_orchestrator.Tasks.Helpers.{status_is}
use codegen_orchestrator.Dispatch.Reads.{
  TaskFilters, equals_text, is_of, list_tasks, by_priority, insert_by_priority, selects,
}
use codegen_orchestrator.Dispatch.Hoare.{
  Unchanged, Seen, Holds, weaken-Holds, IsRead, read-Holds, return-Holds, from_result-Holds,
  onward-Holds,
}
use codegen_orchestrator.Dispatch.Attempts.{story_blocks_dispatch}
use codegen_orchestrator.Dispatch.Tick.{
  given, get_tasks, by_story, check_tasks, read_siblings, siblings_of,
}
use codegen_orchestrator.Dispatch.Guards.{occupies, free_in, story_free}

module _ (test : Task → Bool) where
  any-insert :
      (t : Task) (ts : List Task) → any test (insert_by_priority t ts) ≡ (test t || any test ts)
  unfolding insert_by_priority
  any-insert t [] = refl
  any-insert t (u ∷ us) = ground (arith, any-insert t us)

  any-by_priority : (ts : List Task) → any test (by_priority ts) ≡ any test ts
  unfolding by_priority
  any-by_priority [] = refl
  any-by_priority (t ∷ ts) = ground (arith, any-by_priority ts, any-insert t (by_priority ts))

  any-filter :
      (chosen : Task → Bool) (ts : List Task)
      → any test (filter chosen ts) ≡ any (λ t. chosen t && test t) ts
  any-filter chosen [] = refl
  any-filter chosen (t ∷ ts) = ground (arith, any-filter chosen ts)

check_tasks-ok : (ts l : List Task) → check_tasks ts ≡ ok l → l ≡ ts
unfolding check_tasks
check_tasks-ok [] l h = ground arith
check_tasks-ok (t ∷ ts) l h = elim (Result-cases (check_tasks ts)) [
  | inl (f, e) ↦ absurd (ground arith)
  | inr (rest, e) ↦ ground (arith, check_tasks-ok ts rest e)
]

list_tasks-IsRead :
    (filters : TaskFilters)
    → IsRead
        (λ env. list_tasks filters)
        (λ db ts. ts ≡ by_priority (filter (selects filters) db.tasks))
unfolding list_tasks Api.◌>>=◌
list_tasks-IsRead filters env db = (refl, λ a h. ground arith)

pub get_tasks-Holds :
    (d : Db) (q : List Message) (filters : TaskFilters)
    → Holds
        (Unchanged d q)
        (get_tasks filters)
        (λ ts. Seen d q (ts ≡ by_priority (filter (selects filters) d.tasks)))
        (Unchanged d q)
unfolding get_tasks
get_tasks-Holds d q filters =
    onward-Holds _ _ _ (λ ts. Seen d q (ts ≡ by_priority (filter (selects filters) d.tasks))) _ _
      (read-Holds (λ env. list_tasks filters) _ d q (list_tasks-IsRead filters))
      (λ ts.
        from_result-Holds _ _ _ (check_tasks ts)
          (λ a h db queue (u, k). (u, check_tasks-ok ts a h ∙ k)) (λ db queue (u, k). u))

given-nonempty : (o : Option String) (k : String) → given o ≡ some k → (k =ₛ "") ≡ false
given-nonempty none k e = absurd (ground arith)
given-nonempty (some t) k e = elim (Bool-cases (t =ₛ "")) [
  | inl y ↦ absurd (ground arith)
  | inr n ↦ let same : t ≡ k = ground arith in ground (arith, same)
]

abbrev busy : Task → Bool
busy t = status_is t.status in_dev || status_is t.status waiting_human_review

story_blocks-any : (ts : List Task) → story_blocks_dispatch ts ≡ any busy ts
unfolding story_blocks_dispatch
story_blocks-any [] = refl
story_blocks-any (t ∷ ts) = ground (arith, story_blocks-any ts)

selects-story :
    (k : String) (o : Option String) → (k =ₛ "") ≡ false → equals_text (some k) o ≡ is_of k o
selects-story k none n = n
selects-story k (some t) n = ground arith

any-occupies :
    (k : String) (ts : List Task)
    → (k =ₛ "") ≡ false
    → any (λ t. selects (by_story k) t && busy t) ts ≡ any (occupies k) ts
any-occupies k [] n = refl
any-occupies k (t ∷ ts) n = ground (arith, any-occupies k ts n, selects-story k t.story_id n)

story_blocks-occupies :
    (k : String) (ts : List Task)
    → (k =ₛ "") ≡ false
    → story_blocks_dispatch (by_priority (filter (selects (by_story k)) ts)) ≡ any (occupies k) ts
story_blocks-occupies k ts n =
    story_blocks-any (by_priority (filter (selects (by_story k)) ts))
    ∙ any-by_priority busy (filter (selects (by_story k)) ts)
    ∙ any-filter busy (selects (by_story k)) ts
    ∙ any-occupies k ts n

siblings_of-Holds :
    (d : Db) (q : List Message) (o : Option String)
    → ((k : String) → o ≡ some k → (k =ₛ "") ≡ false)
    → Holds
        (Unchanged d q)
        (siblings_of o)
        (λ ts. Seen d q (story_blocks_dispatch ts ≡ false → free_in d o ≡ true))
        (Unchanged d q)
unfolding siblings_of
siblings_of-Holds d q none n = return-Holds _ _ _ [] (λ db queue u. (u, λ _. refl))
siblings_of-Holds d q (some k) n =
    weaken-Holds (Unchanged d q)
      (λ ts. Seen d q (ts ≡ by_priority (filter (selects (by_story k)) d.tasks)))
      (λ ts. Seen d q (story_blocks_dispatch ts ≡ false → free_in d (some k) ≡ true))
      (Unchanged d q) (Unchanged d q) (get_tasks (by_story k))
      (λ ts db queue (u, f).
        (u, λ h. ground (arith, f, story_blocks-occupies k d.tasks (n k refl))))
      (λ db queue u. u) (get_tasks-Holds d q (by_story k))

pub read_siblings-Holds :
    (d : Db) (q : List Message) (t : Task)
    → Holds
        (Unchanged d q)
        (read_siblings t)
        (λ ts. Seen d q (story_blocks_dispatch ts ≡ false → story_free t d ≡ true))
        (Unchanged d q)
unfolding read_siblings story_free
read_siblings-Holds d q t = siblings_of-Holds d q (given t.story_id) (given-nonempty t.story_id)
