-- ===== src/Stories/Crud.antt =====
-- services/api/src/routers/stories.py: creating and editing stories.
use codegen_orchestrator.Prelude.{
  ℕ, String, Bool, true, false, Option, none, some, [], ◌∷◌, ◌++◌, ◌||◌, ◌&&◌, ◌=ₛ◌, if◌then◌else◌,
  is_some,
}
use codegen_orchestrator.Prelude.Int.{ℤ}
use codegen_orchestrator.Contracts.Column.{fits_integer, known, Patch, patched, sets_null, assigned}
use codegen_orchestrator.Contracts.Json
use codegen_orchestrator.Contracts.Json.{Json, Dict}
use codegen_orchestrator.Contracts.Story.{Story, StoryType, created, waiting_human_review}
use codegen_orchestrator.Session.{
  Db, Env, Handler, not_found, conflict, internal, pure, raise, lift, gets, require, modify, commit,
  ◌>>=◌, ◌>>◌,
}
use codegen_orchestrator.Stories.Actions.{find_story, status_is, get_story, save_story}

-- The body of `POST /stories/`.
pub record StoryCreate : Type 0 where
  pub project_id : String
  pub title : String
  pub description : Option String
  pub acceptance_criteria : Option String
  pub parent_story_id : Option String
  pub type : StoryType
  pub priority : ℤ
  pub blocked_by_story_id : Option String
  pub created_by : String

-- The body of `PATCH /stories/{story_id}`.
pub record StoryUpdate : Type 0 where
  pub title : Patch String
  pub description : Patch String
  pub acceptance_criteria : Patch String
  pub parent_story_id : Patch String
  pub type : Patch StoryType
  pub priority : Patch ℤ
  pub blocked_by_story_id : Patch String
  pub quarantine_reason : Patch Dict
  pub pr_number : Patch ℕ

abbrev is_object : Json → Bool
is_object (Json.object _) = true
is_object _ = false

-- `isinstance((quarantine_reason or {}).get("qa_failure"), dict)`
abbrev pub has_qa_failure : Option Dict → Bool
has_qa_failure none = false
has_qa_failure (some reason) = elim (Json.get "qa_failure" reason) [
  | none ↦ false
  | some v ↦ is_object v
]

-- A parent that waits for a human over a failed QA must not be retried.
abbrev pub needs_review : Story → Bool
needs_review parent =
    status_is parent.status waiting_human_review && has_qa_failure parent.quarantine_reason

-- The parent, if it belongs to the project.
abbrev pub find_parent : String → (project_id : String) → Db → Option Story
find_parent id project_id db = elim (find_story id db) [
  | none ↦ none
  | some s ↦ if s.project_id =ₛ project_id then some s else none
]

unfoldable pub validate_retry_parent : StoryCreate → Handler (Unit {0})
validate_retry_parent body = elim body.parent_story_id [
  | none ↦ pure tt
  | some parent_id ↦ do
    found ← gets (find_parent parent_id body.project_id)
    parent ← lift (require not_found found)
    if needs_review parent then raise conflict else pure tt
]

-- A commit that the database may refuse, which nothing handles.
unfoldable pub commit_unhandled : Bool → Handler (Unit {0})
commit_unhandled accepted = if accepted then commit else raise internal

unfoldable pub new_story : Env → StoryCreate → Story
new_story env body = record {
  id = env.fresh_id;
  project_id = body.project_id;
  parent_story_id = body.parent_story_id;
  title = body.title;
  description = body.description;
  acceptance_criteria = body.acceptance_criteria;
  type = body.type;
  status = known created;
  priority = body.priority;
  blocked_by_story_id = body.blocked_by_story_id;
  created_by = body.created_by;
  user_report = none;
  quarantine_reason = none;
  pr_number = none;
}

unfoldable pub create_story : Env → StoryCreate → Handler Story
unfolding validate_retry_parent commit_unhandled
create_story env body = do
  validate_retry_parent body
  taken ← gets (find_story env.fresh_id)
  if is_some taken then raise internal else do
    modify (λ db. record db { stories = db.stories ++ (new_story env body ∷ []) })
    commit_unhandled (env.keys_valid && fits_integer body.priority)
    pure (new_story env body)

-- A column that is not nullable is set to `None`.
unfoldable pub violates : StoryUpdate → Bool
violates body = sets_null body.title || sets_null body.type || sets_null body.priority

unfoldable pub edited : StoryUpdate → Story → Story
edited body story = record story {
  title = assigned body.title story.title;
  description = patched body.description story.description;
  acceptance_criteria = patched body.acceptance_criteria story.acceptance_criteria;
  parent_story_id = patched body.parent_story_id story.parent_story_id;
  type = assigned body.type story.type;
  priority = assigned body.priority story.priority;
  blocked_by_story_id = patched body.blocked_by_story_id story.blocked_by_story_id;
  quarantine_reason = patched body.quarantine_reason story.quarantine_reason;
  pr_number = patched body.pr_number story.pr_number;
}

unfoldable pub update_story : Env → String → StoryUpdate → Handler Story
unfolding get_story save_story commit_unhandled
update_story env id body = do
  story ← get_story id
  if violates body then raise internal else do
    save_story (edited body story)
    commit_unhandled (env.keys_valid && fits_integer (edited body story).priority)
    pure (edited body story)
