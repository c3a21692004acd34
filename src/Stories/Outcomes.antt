-- ===== src/Stories/Outcomes.antt =====
-- What the story endpoints answer, and what they leave behind.
use codegen_orchestrator.Prelude.{
  String, Bool, true, false, Option, none, some, List, [], ◌∷◌, ◌≡◌, ◌⊎◌, refl, arith,
  if◌then◌else◌, eq_refl,
}
use codegen_orchestrator.Prelude.Table
use codegen_orchestrator.Contracts.Column.{known}
use codegen_orchestrator.Contracts.Story.{
  Story, StoryStatus, created, in_progress, reopened, completed, can_move,
}
use codegen_orchestrator.Contracts.Message.{architect_message}
use codegen_orchestrator.Recipients.{resolve_project_chat_id}
use codegen_orchestrator.Session.{Db, Env, ok, err, internal, respond, ◌>>=◌}
use codegen_orchestrator.Stories.Actions.{
  story_key, find_story, status_is, start_story, send_to_architect, reference,
}
use codegen_orchestrator.Stories.Terminal.{status_of}

-- The blocker of a story is completed, or there is none.
abbrev pub is_free : Option String → Db → Bool
is_free none db = true
is_free (some b) db = elim (find_story b db) [
  | none ↦ false
  | some blocker ↦ status_is blocker.status completed
]

-- A story that starts is stored as `in_progress`, and its blocker, if it has one, is stored as
-- completed.
pub start_story-unblocked :
    (id : String) (db : Db) (s s' : Story)
    → find_story id db ≡ some s
    → (respond (start_story id) db).answer ≡ ok s'
    → (is_free (reference s.blocked_by_story_id) db ≡ true)
      × (status_of id (respond (start_story id) db).db ≡ some (known in_progress))
unfolding start_story ◌>>=◌
start_story-unblocked id db s s' e h = (
  ground arith,
  ground (
    arith,
    Table.find-save story_key (record s { status = known in_progress }) id db.stories,
    Table.key-find story_key id db.stories s,
    eq_refl id,
  ),
)

-- The chat of a project does not depend on the stories.
chat-stories :
    (id : String) (db : Db) (stories : List Story)
    → resolve_project_chat_id id (record db { stories = stories }) ≡ resolve_project_chat_id id db
unfolding resolve_project_chat_id
chat-stories id db stories = refl

-- A created or reopened story that is sent to the architect ends as `in_progress`. The queue gains
-- one message, which carries the user's report exactly for a reopened story; with the broker down
-- the answer is 500 and nothing is sent, but the story has moved all the same.
pub send_to_architect_outcome :
    (env : Env) (id : String) (db : Db) (s : Story) (from : StoryStatus)
    → find_story id db ≡ some s
    → s.status ≡ known from
    → (from ≡ created) ⊎ (from ≡ reopened)
    → let r = respond (send_to_architect env id) db in
      (status_of id r.db ≡ some (known in_progress))
      × (r.sent ≡ (
          if env.broker_up
          then architect_message s.id s.project_id
              (resolve_project_chat_id s.project_id db)
              (status_is (known from) reopened)
              (if status_is (known from) reopened then s.user_report else none)
            ∷ []
          else []))
      × (r.answer
          ≡ (if env.broker_up then ok (record s { status = known in_progress }) else err internal))
unfolding send_to_architect can_move ◌>>=◌
send_to_architect_outcome env id db s from e p c = (
  ground (
    arith,
    Table.find-save story_key (record s { status = known in_progress }) id db.stories,
    Table.key-find story_key id db.stories s,
    eq_refl id,
  ),
  ground (
    arith,
    chat-stories s.project_id db
        (Table.save story_key (record s { status = known in_progress }) db.stories),
  ),
  ground arith,
)
