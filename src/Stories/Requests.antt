-- ===== src/Stories/Requests.antt =====
-- The requests that change stories, and the handler of each.
use codegen_orchestrator.Prelude.{List, [], ◌∷◌, String, Option}
use codegen_orchestrator.Session.{Env, Db, Handler, discard, respond}
use codegen_orchestrator.Stories.Actions.{
  human_review_story, wait_user_secret_story, complete_story, fail_story, pr_review_story,
  deploy_story, test_story, archive_story, start_story, reopen_story, send_to_architect,
}
use codegen_orchestrator.Stories.Crud.{StoryCreate, StoryUpdate, create_story, update_story}

pub data StoryRequest : Type 0 where
  create : StoryCreate → StoryRequest
  update : String → StoryUpdate → StoryRequest
  human_review wait_user_secret start complete fail pr_review deploy test archive architect :
      String → StoryRequest
  reopen : String → (user_report : Option String) → StoryRequest

unfoldable pub handle_story : Env → StoryRequest → Handler (Unit {0})
handle_story env (create body) = discard (create_story env body)
handle_story env (update id body) = discard (update_story env id body)
handle_story env (human_review id) = discard (human_review_story id)
handle_story env (wait_user_secret id) = discard (wait_user_secret_story id)
handle_story env (start id) = discard (start_story id)
handle_story env (complete id) = discard (complete_story id)
handle_story env (fail id) = discard (fail_story id)
handle_story env (pr_review id) = discard (pr_review_story id)
handle_story env (deploy id) = discard (deploy_story id)
handle_story env (test id) = discard (test_story id)
handle_story env (archive id) = discard (archive_story id)
handle_story env (architect id) = discard (send_to_architect env id)
handle_story env (reopen id user_report) = discard (reopen_story id user_report)

-- The tables after a sequence of requests, one session each.
unfoldable pub serve_stories : List (Env × StoryRequest) → Db → Db
serve_stories [] db = db
serve_stories ((env, r) ∷ rest) db = serve_stories rest (respond (handle_story env r) db).db
