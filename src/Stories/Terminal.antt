-- ===== src/Stories/Terminal.antt =====
-- An archived story stays archived.
use codegen_orchestrator.Prelude.{
  String, Option, none, some, List, [], ◌∷◌, ◌≡◌, refl, arith, eq_iff, false,
}
use codegen_orchestrator.Prelude.Table
use codegen_orchestrator.Contracts.Column.{Column, known}
use codegen_orchestrator.Contracts.Story.{StoryStatus, archived, can_move}
use codegen_orchestrator.Session.{Db, Env, respond}
use codegen_orchestrator.Stories.Actions.{story_key, find_story}
use codegen_orchestrator.Stories.Requests.{StoryRequest, handle_story, serve_stories}
use codegen_orchestrator.Stories.Steps.{
  move_step, insert_step, edit_step, AtMostOne, stays, steps, handle_story-step,
}

-- The status column of a story, if there is one.
abbrev pub status_of : String → Db → Option (Column StoryStatus)
status_of id db = elim (find_story id db) [ none ↦ none | some s ↦ some s.status ]

not-can_move-archived : (s : StoryStatus) → can_move archived s ≡ false
unfolding can_move
not-can_move-archived s = refl

AtMostOne-archived :
    (id : String) {db db' : Db}
    → AtMostOne db db'
    → status_of id db ≡ some (known archived)
    → status_of id db' ≡ some (known archived)
AtMostOne-archived id (stays q) h = ground (arith, q)
AtMostOne-archived id {db} (steps (move_step s from to report e p c q)) h = ground (
  arith,
  q,
  not-can_move-archived to,
  Table.find-save story_key (record s { status = known to; user_report = report }) id db.stories,
  eq_iff s.id id,
)
AtMostOne-archived id {db} (steps (insert_step s e p q)) h =
    ground (arith, q, Table.find-append story_key s id db.stories)
AtMostOne-archived id {db} (steps (edit_step s s' e p r q)) h =
    ground (arith, q, Table.find-save story_key s' id db.stories, eq_iff s'.id id)

-- No sequence of story requests brings an archived story back: it stays stored, and archived.
pub serve_stories-archived :
    (requests : List (Env × StoryRequest)) (id : String) (db : Db)
    → status_of id db ≡ some (known archived)
    → status_of id (serve_stories requests db) ≡ some (known archived)
unfolding serve_stories
serve_stories-archived [] id db h = h
serve_stories-archived ((env, r) ∷ rest) id db h =
    serve_stories-archived rest id (respond (handle_story env r) db).db
      (AtMostOne-archived id (handle_story-step env r db) h)
