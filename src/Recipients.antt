-- ===== src/Recipients.antt =====
-- services/api/src/routers/_recipients.py and _ownership.py: whom a project's messages go to, and
-- the run that owns the workers which a request starts.
use codegen_orchestrator.Prelude.{
  ℕ, String, Option, none, some, List, [], ◌∷◌, ◌==◌, ◌=ₛ◌, if◌then◌else◌,
}
use codegen_orchestrator.Prelude.Table.{find}
use codegen_orchestrator.Contracts.Project.{Project, User}
use codegen_orchestrator.Session.{Db, Result, ok, err, conflict}

abbrev pub find_project : String → Db → Option Project
find_project id db = find (λ p. p.id) id db.projects

unfoldable pub find_user : ℕ → List User → Option User
find_user id [] = none
find_user id (u ∷ us) = if u.id == id then some u else find_user id us

-- A Telegram id of 0 is as good as none.
telegram_chat : User → Option ℕ
telegram_chat u = if u.telegram_id == 0 then none else some u.telegram_id

-- `none` is the text "" of the source; the alert to the administrators changes no state.
unfoldable pub resolve_project_chat_id : String → Db → Option ℕ
unfolding telegram_chat
resolve_project_chat_id id db = elim (find_project id db) [
  | none ↦ none
  | some p ↦ elim (find_user p.owner_id db.users) [ none ↦ none | some u ↦ telegram_chat u ]
]

-- An empty run id is as good as none.
unfoldable pub initiating_run_or_conflict : Project → Result String
initiating_run_or_conflict project = elim project.initiating_run_id [
  | none ↦ err conflict
  | some run ↦ if run =ₛ "" then err conflict else ok run
]
