-- ===== src/Stories/Actions.antt =====
-- services/api/src/routers/stories.py: the transitions. The acting user of the request's body is
-- only logged.
use codegen_orchestrator.Prelude.{
  String, Bool, false, Option, none, some, ◌||◌, ◌=ₛ◌, if◌then◌else◌,
}
use codegen_orchestrator.Prelude.Table
use codegen_orchestrator.Contracts.Column.{Column, known, unknown}
use codegen_orchestrator.Contracts.Story.{
  Story, StoryStatus, created, in_progress, reopened, pr_review, deploying, testing,
  waiting_human_review, waiting_user_secret, completed, failed, archived, can_move, is,
}
use codegen_orchestrator.Contracts.Message.{architect_message}
use codegen_orchestrator.Recipients.{resolve_project_chat_id}
use codegen_orchestrator.Session.{
  Db, Env, Handler, Result, err, not_found, unprocessable, pure, lift, gets, require, modify,
  commit, publish, check, ◌>>=◌, ◌>>◌,
}

abbrev pub story_key : Story → String
story_key s = s.id

abbrev pub find_story : String → Db → Option Story
find_story id db = Table.find story_key id db.stories

abbrev pub status_is : Column StoryStatus → StoryStatus → Bool
status_is (known s) t = is s t
status_is (unknown _) t = false

unfoldable pub get_story : String → Handler Story
get_story id = do found ← gets (find_story id); lift (require not_found found)

-- The ORM object was changed in place; the flush writes its row.
unfoldable pub save_story : Story → Handler (Unit {0})
save_story s = modify (λ db. record db { stories = Table.save story_key s db.stories })

unfoldable pub validate_transition : Column StoryStatus → StoryStatus → Result (Unit {0})
validate_transition (known from) to = check (can_move from to) unprocessable
validate_transition (unknown _) to = err unprocessable

unfoldable pub do_transition : Story → StoryStatus → Handler Story
unfolding validate_transition save_story
do_transition story to = do
  lift (validate_transition story.status to)
  let moved = record story { status = known to }
  save_story moved
  pure moved

-- The body that the plain action endpoints share.
unfoldable pub act : String → StoryStatus → Handler Story
unfolding get_story do_transition
act id to = do story ← get_story id; story ← do_transition story to; commit; pure story

unfoldable pub human_review_story : String → Handler Story
unfolding act
human_review_story id = act id waiting_human_review

unfoldable pub wait_user_secret_story : String → Handler Story
unfolding act
wait_user_secret_story id = act id waiting_user_secret

unfoldable pub complete_story : String → Handler Story
unfolding act
complete_story id = act id completed

unfoldable pub fail_story : String → Handler Story
unfolding act
fail_story id = act id failed

unfoldable pub pr_review_story : String → Handler Story
unfolding act
pr_review_story id = act id pr_review

unfoldable pub deploy_story : String → Handler Story
unfolding act
deploy_story id = act id deploying

unfoldable pub test_story : String → Handler Story
unfolding act
test_story id = act id testing

unfoldable pub archive_story : String → Handler Story
unfolding act
archive_story id = act id archived

-- The id in a nullable column; an empty text counts as missing.
abbrev pub reference : Option String → Option String
reference none = none
reference (some id) = if id =ₛ "" then none else some id

-- A story that is blocked starts only when its blocker is completed.
unfoldable pub check_blocker : Option String → Handler (Unit {0})
unfolding get_story
check_blocker none = pure tt
check_blocker (some blocker_id) = do
  blocker ← get_story blocker_id
  lift (check (status_is blocker.status completed) unprocessable)

unfoldable pub start_story : String → Handler Story
unfolding get_story check_blocker do_transition
start_story id = do
  story ← get_story id
  check_blocker (reference story.blocked_by_story_id)
  story ← do_transition story in_progress
  commit
  pure story

unfoldable pub reopen_story : String → (user_report : Option String) → Handler Story
unfolding get_story do_transition save_story
reopen_story id user_report = do
  story ← get_story id
  story ← do_transition story reopened
  let reported = record story {
    user_report = elim user_report [ none ↦ story.user_report | some r ↦ some r ];
  }
  save_story reported
  commit
  pure reported

unfoldable pub send_to_architect : Env → String → Handler Story
unfolding get_story do_transition
send_to_architect env id = do
  story ← get_story id
  lift (check (status_is story.status created || status_is story.status reopened) unprocessable)
  let is_reopen = status_is story.status reopened
  story ← do_transition story in_progress
  commit
  chat ← gets (resolve_project_chat_id story.project_id)
  publish env (
      architect_message story.id story.project_id chat is_reopen
        (if is_reopen then story.user_report else none))
  pure story
