-- ===== src/Dispatch/Recipient.antt =====
-- services/scheduler/src/tasks/_recipients.py: the chat that a message of the pipeline has to reach.
use codegen_orchestrator.Prelude.{ℕ, String, true, Option, none, some, ◌==◌, if◌then◌else◌}
use codegen_orchestrator.Contracts.Column.{known, unknown}
use codegen_orchestrator.Contracts.Project.{Project, User}
use codegen_orchestrator.Recipients.{find_project, find_user}
use codegen_orchestrator.Actor.{Caller}
use codegen_orchestrator.Session.{
  Handler, Result, ok, err, internal, not_found, lift, gets, require,
}
use codegen_orchestrator.Session as Api
use codegen_orchestrator.Dispatch.Client.{Client, request, return, from_result, if_missing, ◌>>=◌}

-- The scheduler names no user.
abbrev pub service : Caller
service = record { is_internal = true; telegram_id = none }

-- `GET /projects/{project_id}`, which a service may always read.
unfoldable pub read_project_row : String → Handler Project
read_project_row id = Api.◌>>=◌ (gets (find_project id)) (λ found. lift (require not_found found))

-- `ProjectDTO.model_validate`
unfoldable pub check_project : Project → Result Project
check_project p = elim p.status [
  | unknown _ ↦ err internal
  | known _ ↦ elim p.config [ none ↦ err internal | some _ ↦ ok p ]
]

unfoldable pub get_project : String → Client (Option Project)
unfolding read_project_row check_project
get_project id =
    if_missing (do row ← request (λ env. read_project_row id); from_result (check_project row))

-- `GET /users/{user_id}`
unfoldable pub read_user_row : ℕ → Handler User
read_user_row id =
    Api.◌>>=◌ (gets (λ db. find_user id db.users)) (λ found. lift (require not_found found))

unfoldable pub get_user : ℕ → Client (Option User)
unfolding read_user_row
get_user id = if_missing (request (λ env. read_user_row id))

-- `none` is the text "".
pub record Recipient : Type 0 where
  pub telegram_chat_id : Option ℕ
  pub owner_user_id : Option ℕ
  pub unaddressed_reason : String

abbrev pub unaddressed : Option ℕ → String → Recipient
unaddressed owner reason = record {
  telegram_chat_id = none;
  owner_user_id = owner;
  unaddressed_reason = reason;
}

abbrev pub addressed : (owner_id : ℕ) → Option User → Recipient
addressed owner_id none = unaddressed (some owner_id) "recipient unresolved: owner user not found"
addressed owner_id (some u) =
    if u.telegram_id == 0
    then unaddressed (some owner_id) "recipient unresolved: owner has no telegram id"
    else record {
      telegram_chat_id = some u.telegram_id;
      owner_user_id = some owner_id;
      unaddressed_reason = "";
    }

-- The alert to the administrators changes nothing.
unfoldable pub resolve_owner_recipient : (owner_id : ℕ) → Client Recipient
unfolding get_user
resolve_owner_recipient owner_id =
    if owner_id == 0
    then return (unaddressed none "recipient unresolved: project has no owner")
    else do user ← get_user owner_id; return (addressed owner_id user)

unfoldable pub recipient_of : Option Project → Client Recipient
unfolding resolve_owner_recipient
recipient_of none = return (unaddressed none "recipient unresolved: project not found")
recipient_of (some p) = resolve_owner_recipient p.owner_id

unfoldable pub resolve_project_recipient : (project_id : String) → Client Recipient
unfolding get_project recipient_of
resolve_project_recipient project_id = do project ← get_project project_id; recipient_of project
