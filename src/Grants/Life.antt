-- ===== src/Grants/Life.antt =====
-- services/api/src/routers/temporary_access.py: creating, updating and escalating grants.
use codegen_orchestrator.Prelude.{
  ℕ, String, Bool, true, false, Option, none, some, List, [], ◌∷◌, ◌++◌, ◌||◌, not, if◌then◌else◌,
  is_some,
}
use codegen_orchestrator.Prelude.Table
use codegen_orchestrator.Contracts.Column.{known, Patch, unset, set, patched, sets_null, assigned}
use codegen_orchestrator.Contracts.Access.{
  TemporaryAccessGrant, TemporaryAccessStatus, granting, revoke_failed, is_revoked, GrantCreate,
  GrantUpdate, Escalation,
}
use codegen_orchestrator.Contracts.Run.{Run, failed, is_terminal}
use codegen_orchestrator.Session.{
  Env, Handler, conflict, unprocessable, internal, pure, raise, lift, gets, modify, commit, check,
  ◌>>=◌, ◌>>◌,
}
use codegen_orchestrator.Actor.{Caller, require_internal_or_admin}
use codegen_orchestrator.Runs.Rows.{run_key, first_completion}
use codegen_orchestrator.Grants.Rows.{find_grant, load, save_grant, holder}

unfoldable pub new_grant : Env → GrantCreate → TemporaryAccessGrant
new_grant env body = record {
  id = body.id;
  project_id = body.project_id;
  env_key = body.env_key;
  subject = body.subject;
  head_sha = body.head_sha;
  qa_run_id = body.qa_run_id;
  grant_run_id = body.grant_run_id;
  qa_message = body.qa_message;
  status = granting;
  granted_at = env.now;
  qa_dispatched_at = none;
  revoked_at = none;
  revoke_reason = none;
  revoke_run_id = none;
  revoke_attempts = 0;
  escalated_at = none;
  last_error = none;
  observed_at = none;
  observation_id = none;
  slot_clear_since = none;
  slot_clear_readings = 0;
  reopened_at = none;
}

unfoldable pub insert_grant : Env → TemporaryAccessGrant → Handler TemporaryAccessGrant
insert_grant env grant = do
  modify (λ db. record db { grants = db.grants ++ (grant ∷ []) })
  if env.keys_valid then commit else raise internal
  pure grant

unfoldable pub create_grant : Env → Caller → GrantCreate → Handler TemporaryAccessGrant
unfolding require_internal_or_admin insert_grant
create_grant env caller body = do
  require_internal_or_admin caller
  existing ← gets (find_grant body.id)
  elim existing [
    | some grant ↦ pure grant
    | none ↦ do
      answer ← gets (holder body.project_id body.env_key)
      held ← lift answer
      if is_some held then raise conflict else insert_grant env (new_grant env body)
  ]

-- A moment that is stamped once, when the update asks for it.
abbrev stamp_once : Patch Bool → ℕ → Option ℕ → Option ℕ
stamp_once (set (some true)) now none = some now
stamp_once (set (some true)) now (some t) = some t
stamp_once (set (some false)) now old = old
stamp_once (set none) now old = old
stamp_once unset now old = old

-- The schema of the update refuses `revoked`.
abbrev pub asks_revoked : Patch TemporaryAccessStatus → Bool
asks_revoked (set (some s)) = is_revoked s
asks_revoked (set none) = false
asks_revoked unset = false

unfoldable pub updated_grant : ℕ → GrantUpdate → TemporaryAccessGrant → TemporaryAccessGrant
updated_grant now update grant = record grant {
  qa_dispatched_at = stamp_once update.qa_dispatched now grant.qa_dispatched_at;
  escalated_at = stamp_once update.escalated now grant.escalated_at;
  grant_run_id = assigned update.grant_run_id grant.grant_run_id;
  revoke_reason = patched update.revoke_reason grant.revoke_reason;
  revoke_run_id = patched update.revoke_run_id grant.revoke_run_id;
  revoke_attempts = assigned update.revoke_attempts grant.revoke_attempts;
  last_error = patched update.last_error grant.last_error;
  status = assigned update.status grant.status;
}

unfoldable pub update_grant : Env → Caller → String → GrantUpdate → Handler TemporaryAccessGrant
unfolding require_internal_or_admin load save_grant
update_grant env caller id update = do
  lift (check (not (asks_revoked update.status)) unprocessable)
  require_internal_or_admin caller
  grant ← load id
  lift (check (not (is_revoked grant.status)) conflict)
  lift (check (not (sets_null update.grant_run_id || sets_null update.revoke_attempts)) internal)
  save_grant (updated_grant env.now update grant)
  commit
  pure (updated_grant env.now update grant)

-- What an escalation leaves of the grant's QA run: only a run that is not over is failed.
unfoldable pub escalated_run : ℕ → Escalation → Run → Run
escalated_run now escalation run = if is_terminal run.status then run else record run {
  status = known failed;
  error_message = some escalation.run_error_message;
  result = some escalation.run_result;
  completed_at = first_completion now run;
}

abbrev pub escalated_runs : ℕ → Escalation → (id : String) → List Run → List Run
escalated_runs now escalation id runs = elim (Table.find run_key id runs) [
  | none ↦ runs
  | some run ↦ Table.save run_key (escalated_run now escalation run) runs
]

unfoldable pub escalated_grant : ℕ → Escalation → TemporaryAccessGrant → TemporaryAccessGrant
escalated_grant now escalation grant = record grant {
  status = revoke_failed;
  last_error = some escalation.error;
  escalated_at = elim grant.escalated_at [ none ↦ some now | some t ↦ some t ];
}

unfoldable pub escalate_grant : Env → Caller → String → Escalation → Handler TemporaryAccessGrant
unfolding require_internal_or_admin load save_grant
escalate_grant env caller id escalation = do
  require_internal_or_admin caller
  grant ← load id
  lift (check (not (is_revoked grant.status)) conflict)
  modify (λ db. record db { runs = escalated_runs env.now escalation grant.qa_run_id db.runs })
  save_grant (escalated_grant env.now escalation grant)
  commit
  pure (escalated_grant env.now escalation grant)
