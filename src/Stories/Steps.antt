-- ===== src/Stories/Steps.antt =====
-- Every request changes the stories by legal steps.
use codegen_orchestrator.Prelude.{
  String, true, ◌&&◌, Option, none, some, [], ◌∷◌, ◌++◌, ◌≡◌, ◌⊎◌, refl, sym, subst, arith, inl,
  inr, Option-cases, Bool-cases,
}
use codegen_orchestrator.Prelude.Table
use codegen_orchestrator.Contracts.Column.{Column, known, unknown, fits_integer}
use codegen_orchestrator.Contracts.Story.{
  Story, StoryStatus, created, reopened, in_progress, archived, completed, failed,
  waiting_human_review, waiting_user_secret, deploying, testing, can_move,
}
use codegen_orchestrator.Session.{Db, Env, Handler, respond, db-discard, discard, ◌>>=◌}
use codegen_orchestrator.Stories.Actions.{
  story_key, find_story, status_is, act, human_review_story, wait_user_secret_story, complete_story,
  fail_story, pr_review_story, deploy_story, test_story, archive_story, start_story, reopen_story,
  send_to_architect, reference,
}
use codegen_orchestrator.Stories.Crud.{
  StoryCreate, StoryUpdate, create_story, new_story, update_story, edited, violates, find_parent,
  needs_review,
}
use codegen_orchestrator.Stories.Requests.{
  StoryRequest, handle_story, create, update, human_review, wait_user_secret, start, complete, fail,
  pr_review, deploy, test, archive, architect, reopen,
}

pub data StoryStep (db db' : Db) : Type 0 where
  -- A stored story moves along an edge of the table; a user's report may come with it.
  move_step :
      (s : Story) (from to : StoryStatus) (report : Option String)
      → find_story s.id db ≡ some s
      → s.status ≡ known from
      → can_move from to ≡ true
      → db' ≡ record db {
        stories =
            Table.save story_key (record s { status = known to; user_report = report }) db.stories;
      }
      → StoryStep db db'
  -- A story is added under a new key, as `created`.
  insert_step :
      (s : Story)
      → find_story s.id db ≡ none
      → s.status ≡ known created
      → db' ≡ record db { stories = db.stories ++ (s ∷ []) }
      → StoryStep db db'
  -- A stored story is edited, and keeps its key and its status.
  edit_step :
      (s s' : Story)
      → find_story s.id db ≡ some s
      → s'.id ≡ s.id
      → s'.status ≡ s.status
      → db' ≡ record db { stories = Table.save story_key s' db.stories }
      → StoryStep db db'

-- A request makes at most one step.
pub data AtMostOne (db db' : Db) : Type 0 where
  stays : db' ≡ db → AtMostOne db db'
  steps : StoryStep db db' → AtMostOne db db'

discarded :
    {A : Type 0} (m : Handler A) (db : Db)
    → AtMostOne db (respond m db).db
    → AtMostOne db (respond (discard m) db).db
discarded m db h = subst (AtMostOne db) (sym (db-discard m db)) h

find_story-own :
    (db : Db) (id : String) (s : Story) → find_story id db ≡ some s → find_story s.id db ≡ some s
find_story-own db id s e =
    subst (λ k. find_story k db ≡ some s) (sym (Table.key-find story_key id db.stories s e)) e

Column-cases :
    (c : Column StoryStatus)
    → ((s : StoryStatus) × (c ≡ known s)) ⊎ ((t : String) × (c ≡ unknown t))
Column-cases (known s) = inl (s, refl)
Column-cases (unknown t) = inr (t, refl)

act-step : (id : String) (to : StoryStatus) (db : Db) → AtMostOne db (respond (act id to) db).db
unfolding act ◌>>=◌
act-step id to db = elim (Option-cases (find_story id db)) [
  | inl e ↦ stays (ground arith)
  | inr (s, e) ↦ elim (Column-cases s.status) [
    | inr (t, u) ↦ stays (ground arith)
    | inl (from, p) ↦ elim (Bool-cases (can_move from to)) [
      | inl c ↦
          steps (move_step s from to s.user_report (find_story-own db id s e) p c (ground arith))
      | inr n ↦ stays (ground arith)
    ]
  ]
]

start_story-step : (id : String) (db : Db) → AtMostOne db (respond (start_story id) db).db
unfolding start_story ◌>>=◌
start_story-step id db = elim (Option-cases (find_story id db)) [
  | inl e ↦ stays (ground arith)
  | inr (s, e) ↦ elim (Column-cases s.status) [
    | inr (t, u) ↦ stays (ground arith)
    | inl (from, p) ↦ elim (Bool-cases (can_move from in_progress)) [
      | inr n ↦ stays (ground arith)
      | inl c ↦ elim (Option-cases (reference s.blocked_by_story_id)) [
        | inl free ↦ steps (
            move_step s from in_progress s.user_report (find_story-own db id s e) p c
              (ground arith))
        | inr (b, blocked) ↦ elim (Option-cases (find_story b db)) [
          | inl m ↦ stays (ground arith)
          | inr (blocker, f) ↦ elim (Bool-cases (status_is blocker.status completed)) [
            | inl d ↦ steps (
                move_step s from in_progress s.user_report (find_story-own db id s e) p c
                  (ground arith))
            | inr d ↦ stays (ground arith)
          ]
        ]
      ]
    ]
  ]
]

reopen_story-step :
    (id : String) (report : Option String) (db : Db)
    → AtMostOne db (respond (reopen_story id report) db).db
unfolding reopen_story ◌>>=◌
reopen_story-step id report db = elim (Option-cases (find_story id db)) [
  | inl e ↦ stays (ground arith)
  | inr (s, e) ↦ elim (Column-cases s.status) [
    | inr (t, u) ↦ stays (ground arith)
    | inl (from, p) ↦ elim (Bool-cases (can_move from reopened)) [
      | inr n ↦ stays (ground arith)
      | inl c ↦ steps (
          move_step s from reopened (elim report [ none ↦ s.user_report | some r ↦ some r ])
            (find_story-own db id s e) p c
            (ground (
              arith,
              Table.save-save story_key
                  (record s {
                    status = known reopened;
                    user_report = elim report [ none ↦ s.user_report | some r ↦ some r ];
                  })
                  (record s { status = known reopened }) db.stories,
            )))
    ]
  ]
]

send_to_architect-step :
    (env : Env) (id : String) (db : Db) → AtMostOne db (respond (send_to_architect env id) db).db
unfolding send_to_architect ◌>>=◌
send_to_architect-step env id db = elim (Option-cases (find_story id db)) [
  | inl e ↦ stays (ground arith)
  | inr (s, e) ↦ elim (Column-cases s.status) [
    | inr (t, u) ↦ stays (ground arith)
    | inl (from, p) ↦ elim (Bool-cases (can_move from in_progress)) [
      | inr n ↦ stays (ground arith)
      | inl c ↦ elim (Bool-cases (status_is s.status created)) [
        | inl k ↦ steps (
            move_step s from in_progress s.user_report (find_story-own db id s e) p c
              (ground arith))
        | inr k ↦ elim (Bool-cases (status_is s.status reopened)) [
          | inl r ↦ steps (
              move_step s from in_progress s.user_report (find_story-own db id s e) p c
                (ground arith))
          | inr r ↦ stays (ground arith)
        ]
      ]
    ]
  ]
]

create_story-step :
    (env : Env) (body : StoryCreate) (db : Db)
    → AtMostOne db (respond (create_story env body) db).db
unfolding create_story ◌>>=◌
create_story-step env body db = elim (Option-cases (find_story env.fresh_id db)) [
  | inr (old, e) ↦ stays (ground arith)
  | inl e ↦ elim (Bool-cases (env.keys_valid && fits_integer body.priority)) [
    | inr k ↦ stays (ground arith)
    | inl k ↦ elim (Option-cases body.parent_story_id) [
      | inl free ↦
          unfold new_story in steps (insert_step (new_story env body) e refl (ground arith))
      | inr (parent_id, b) ↦ elim (Option-cases (find_parent parent_id body.project_id db)) [
        | inl m ↦ stays (ground arith)
        | inr (parent, m) ↦ elim (Bool-cases (needs_review parent)) [
          | inl n ↦ stays (ground arith)
          | inr n ↦
              unfold new_story in steps (insert_step (new_story env body) e refl (ground arith))
        ]
      ]
    ]
  ]
]

update_story-step :
    (env : Env) (id : String) (body : StoryUpdate) (db : Db)
    → AtMostOne db (respond (update_story env id body) db).db
unfolding update_story ◌>>=◌
update_story-step env id body db = elim (Option-cases (find_story id db)) [
  | inl e ↦ stays (ground arith)
  | inr (s, e) ↦ elim (Bool-cases (violates body)) [
    | inl v ↦ stays (ground arith)
    | inr v ↦ elim (Bool-cases (env.keys_valid && fits_integer (edited body s).priority)) [
      | inl k ↦
          unfold edited in
          steps (edit_step s (edited body s) (find_story-own db id s e) refl refl (ground arith))
      | inr k ↦ stays (ground arith)
    ]
  ]
]

-- Every request for a story, whatever it answers, makes at most one legal step: the story's status
-- moves along an edge of the transition table, perhaps with a user's report, or a story is added as
-- `created` under a new key, or a story is edited and keeps its key and its status.
pub handle_story-step :
    (env : Env) (request : StoryRequest) (db : Db)
    → AtMostOne db (respond (handle_story env request) db).db
unfolding handle_story human_review_story wait_user_secret_story complete_story fail_story
    pr_review_story deploy_story test_story archive_story
handle_story-step env (create body) db = discarded _ db (create_story-step env body db)
handle_story-step env (update id body) db = discarded _ db (update_story-step env id body db)
handle_story-step env (human_review id) db = discarded _ db (act-step id waiting_human_review db)
handle_story-step env (wait_user_secret id) db = discarded _ db (act-step id waiting_user_secret db)
handle_story-step env (start id) db = discarded _ db (start_story-step id db)
handle_story-step env (complete id) db = discarded _ db (act-step id completed db)
handle_story-step env (fail id) db = discarded _ db (act-step id failed db)
handle_story-step env (pr_review id) db = discarded _ db (act-step id StoryStatus.pr_review db)
handle_story-step env (deploy id) db = discarded _ db (act-step id deploying db)
handle_story-step env (test id) db = discarded _ db (act-step id testing db)
handle_story-step env (archive id) db = discarded _ db (act-step id archived db)
handle_story-step env (architect id) db = discarded _ db (send_to_architect-step env id db)
handle_story-step env (reopen id report) db = discarded _ db (reopen_story-step id report db)
