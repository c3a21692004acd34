-- ===== src/Stories/Samples.antt =====
-- Tests of the story endpoints, and their theorems at concrete requests.
use codegen_orchestrator.Prelude.{
  true, none, some, List, [], ◌∷◌, ◌≡◌, ◌↔◌, refl, inr, Option, String,
}
use codegen_orchestrator.Prelude.Int.{pos}
use codegen_orchestrator.Prelude.Table
use codegen_orchestrator.Contracts.Column.{known, fits_integer}
use codegen_orchestrator.Contracts.Json
use codegen_orchestrator.Contracts.Story.{
  Story, StoryType, created, in_progress, reopened, completed, archived, waiting_human_review,
  can_move,
}
use codegen_orchestrator.Contracts.Message.{architect_message}
use codegen_orchestrator.Recipients.{resolve_project_chat_id}
use codegen_orchestrator.Session.{Env, Db, ok, err, conflict, respond, discard, ◌>>=◌}
use codegen_orchestrator.Fixtures.{empty_db, story_with, with_stories, env_at}
use codegen_orchestrator.Stories.Actions.{
  reference, start_story, complete_story, reopen_story, send_to_architect,
}
use codegen_orchestrator.Stories.Crud.{StoryCreate, create_story, new_story}
use codegen_orchestrator.Stories.Requests.{
  StoryRequest, create, start, complete, reopen, handle_story, serve_stories,
}
use codegen_orchestrator.Stories.Steps.{AtMostOne, handle_story-step}
use codegen_orchestrator.Stories.Terminal.{status_of, serve_stories-archived}
use codegen_orchestrator.Stories.Outcomes.{
  is_free, start_story-unblocked, send_to_architect_outcome,
}
use codegen_orchestrator.Stories.Retry.{AwaitsReview, create_story-retry_refused}

abbrev env : Env
env = env_at 1000 "new"

abbrev retry_of : Option String → StoryCreate
retry_of parent = record {
  project_id = "p";
  title = "Once more";
  description = none;
  acceptance_criteria = none;
  parent_story_id = parent;
  type = StoryType.product;
  priority = pos 0;
  blocked_by_story_id = none;
  created_by = "system";
}

abbrev whole_life : List (Env × StoryRequest)
whole_life =
    (env, create (retry_of none))
    ∷ (env, start "new")
    ∷ (env, complete "new")
    ∷ (env, reopen "new" (some "it is silent"))
    ∷ []

ends_reopened : status_of "new" (serve_stories whole_life empty_db) ≡ some (known reopened)
unfolding serve_stories handle_story create_story fits_integer new_story start_story complete_story
    reopen_story discard can_move Table.find Table.save ◌>>=◌
ends_reopened = refl

-- A story whose blocker is stored beside it.
abbrev blocked : Db
blocked = with_stories (
    record (story_with created) { blocked_by_story_id = some "b" }
    ∷ record (story_with completed) { id = "b" }
    ∷ [])

abbrev in_review : Story
in_review = record (story_with waiting_human_review) {
  quarantine_reason = some (("qa_failure", Json.object Json.end_fields) ∷ []);
}

handle_story-step_example : AtMostOne blocked (respond (handle_story env (start "s")) blocked).db
handle_story-step_example = handle_story-step env (start "s") blocked

serve_stories-archived_example :
    status_of "s" (serve_stories whole_life (with_stories (story_with archived ∷ [])))
    ≡ some (known archived)
unfolding Table.find
serve_stories-archived_example =
    serve_stories-archived whole_life "s" (with_stories (story_with archived ∷ [])) refl

start_story-unblocked_example :
    (is_free (reference (some "b")) blocked ≡ true)
    × (status_of "s" (respond (start_story "s") blocked).db ≡ some (known in_progress))
unfolding start_story can_move Table.find ◌>>=◌
start_story-unblocked_example =
    start_story-unblocked "s" blocked
      (record (story_with created) { blocked_by_story_id = some "b" })
      (record (story_with in_progress) { blocked_by_story_id = some "b" }) refl refl

send_to_architect_outcome_example :
    let s = record (story_with reopened) { user_report = some "it is silent" } in
    let db = with_stories (s ∷ []) in
    let r = respond (send_to_architect env "s") db in
    (status_of "s" r.db ≡ some (known in_progress))
    × (r.sent
        ≡ architect_message "s" "p" (resolve_project_chat_id "p" db) true (some "it is silent")
          ∷ [])
    × (r.answer ≡ ok (record s { status = known in_progress }))
unfolding Table.find
send_to_architect_outcome_example =
    send_to_architect_outcome env "s"
      (with_stories (record (story_with reopened) { user_report = some "it is silent" } ∷ []))
      (record (story_with reopened) { user_report = some "it is silent" }) reopened refl refl
      (inr refl)

create_story-retry_refused_example :
    ((respond (create_story env (retry_of (some "s"))) (with_stories (in_review ∷ []))).answer
      ≡ err conflict)
    ↔ AwaitsReview "s" "p" (with_stories (in_review ∷ []))
create_story-retry_refused_example =
    create_story-retry_refused env (retry_of (some "s")) (with_stories (in_review ∷ [])) "s" refl
