-- ===== src/Stories/Retry.antt =====
-- services/api/src/routers/stories.py: which retries `create_story` refuses.
use codegen_orchestrator.Prelude.{
  String, true, false, Option, none, some, ◌≡◌, ◌↔◌, refl, arith, inl, inr, Option-cases,
  Bool-cases, eq_iff, eq_refl, ◌=ₛ◌, ap,
}
use codegen_orchestrator.Contracts.Column.{Column, known, unknown}
use codegen_orchestrator.Contracts.Json
use codegen_orchestrator.Contracts.Json.{Json, Dict, Fields}
use codegen_orchestrator.Contracts.Story.{Story, StoryStatus, waiting_human_review, is_sound}
use codegen_orchestrator.Session.{Db, Env, err, conflict, respond, ◌>>=◌}
use codegen_orchestrator.Stories.Actions.{find_story, status_is}
use codegen_orchestrator.Stories.Crud.{StoryCreate, create_story, needs_review, has_qa_failure}

-- A stored story of the project that waits for a human, and whose quarantine holds the account of a
-- failed QA.
pub record AwaitsReview (id project_id : String) (db : Db) : Type 0 where
  pub parent : Story
  pub reason : Dict
  pub failure : Fields
  pub is_stored : find_story id db ≡ some parent
  pub is_own : parent.project_id ≡ project_id
  pub waits : parent.status ≡ known waiting_human_review
  pub is_quarantined : parent.quarantine_reason ≡ some reason
  pub is_failed : Json.get "qa_failure" reason ≡ some (Json.object failure)

status_is-known : (c : Column StoryStatus) (s : StoryStatus) → status_is c s ≡ true → c ≡ known s
status_is-known (known t) s h = ap known (is_sound t s h)
status_is-known (unknown t) s h = absurd (ground arith)

-- The account that `has_qa_failure` has found.
qa_failure-found :
    (quarantine : Option Dict)
    → has_qa_failure quarantine ≡ true
    → (reason : Dict) × (failure : Fields) × (quarantine ≡ some reason)
      × (Json.get "qa_failure" reason ≡ some (Json.object failure))
qa_failure-found none h = absurd (ground arith)
qa_failure-found (some reason) h = go (Json.get "qa_failure" reason) refl h
  where
    go :
        (found : Option Json)
        → Json.get "qa_failure" reason ≡ found
        → elim found [ none ↦ false | some v ↦ elim v [ Json.object _ ↦ true | _ ↦ false ] ] ≡ true
        → (reason' : Dict) × (failure : Fields) × (some reason ≡ some reason')
          × (Json.get "qa_failure" reason' ≡ some (Json.object failure))
    go none e h = absurd (ground arith)
    go (some (Json.object f)) e h = (reason, f, refl, e)
    go (some Json.null) e h = absurd (ground arith)
    go (some (Json.boolean b)) e h = absurd (ground arith)
    go (some (Json.number n)) e h = absurd (ground arith)
    go (some (Json.text t)) e h = absurd (ground arith)
    go (some (Json.moment t)) e h = absurd (ground arith)
    go (some (Json.array xs)) e h = absurd (ground arith)

module _ (env : Env) (body : StoryCreate) (db : Db) (parent_id : String) where
  conflict-AwaitsReview :
      body.parent_story_id ≡ some parent_id
      → (respond (create_story env body) db).answer ≡ err conflict
      → AwaitsReview parent_id body.project_id db
  unfolding create_story ◌>>=◌
  conflict-AwaitsReview b h = elim (Option-cases (find_story parent_id db)) [
    | inl m ↦ absurd (ground arith)
    | inr (parent, m) ↦ elim (Bool-cases (parent.project_id =ₛ body.project_id)) [
      | inr o ↦ absurd (ground arith)
      | inl o ↦ elim (Bool-cases (needs_review parent)) [
        | inr n ↦ absurd (ground arith)
        | inl n ↦
            let (reason, failure, q, g) =
              qa_failure-found parent.quarantine_reason (ground arith) in
            record {
              parent = parent;
              reason = reason;
              failure = failure;
              is_stored = m;
              is_own = ground (arith, eq_iff parent.project_id body.project_id);
              waits = status_is-known parent.status waiting_human_review (ground arith);
              is_quarantined = q;
              is_failed = g;
            }
      ]
    ]
  ]

  AwaitsReview-conflict :
      body.parent_story_id ≡ some parent_id
      → AwaitsReview parent_id body.project_id db
      → (respond (create_story env body) db).answer ≡ err conflict
  unfolding create_story ◌>>=◌
  AwaitsReview-conflict b a =
      let stored = a.is_stored in
      let own = a.is_own in
      let waits = a.waits in
      let quarantined = a.is_quarantined in
      let failed = a.is_failed in ground (arith, eq_refl body.project_id)

  -- A retry of a story is answered 409 just where that story is stored in the same project, waits
  -- for a human, and holds in its quarantine an account of a failed QA that is an object.
  pub create_story-retry_refused :
      body.parent_story_id ≡ some parent_id
      → ((respond (create_story env body) db).answer ≡ err conflict)
        ↔ AwaitsReview parent_id body.project_id db
  create_story-retry_refused b = (conflict-AwaitsReview b, AwaitsReview-conflict b)
