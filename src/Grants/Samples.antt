-- ===== src/Grants/Samples.antt =====
-- Tests of the grant endpoints, and their theorems at concrete requests.
use codegen_orchestrator.Prelude.{
  ◌≤◌, String, Bool, false, none, some, Option, List, [], ◌∷◌, ◌≡◌, refl, All, arith,
}
use codegen_orchestrator.Prelude.Table
use codegen_orchestrator.Contracts.Json
use codegen_orchestrator.Contracts.Access.{
  TemporaryAccessStatus, revoking, revoked, GrantCreate, Observation, Escalation,
}
use codegen_orchestrator.Contracts.Run.{RunType, RunStatus}
use codegen_orchestrator.Session.{Env, Db, respond, discard, ◌>>=◌}
use codegen_orchestrator.Actor.{Caller, require_internal_or_admin}
use codegen_orchestrator.Fixtures.{env_at, grant_with, with_grant, run_with}
use codegen_orchestrator.Runs.Lease.{service}
use codegen_orchestrator.Grants.Rows.{find_grant, holder}
use codegen_orchestrator.Grants.Life.{create_grant, escalate_grant, escalated_grant, escalated_run}
use codegen_orchestrator.Grants.Observe.{record_observation}
use codegen_orchestrator.Grants.Requests.{GrantRequest, create, observe, handle_grant, serve_grants}
use codegen_orchestrator.Grants.Refinement.{handle_grant-step}
use codegen_orchestrator.Grants.Steps.{GrantStep}
use codegen_orchestrator.Grants.Evidence.{Proven, serve_grants-Proven}
use codegen_orchestrator.Grants.Exclusive.{holders, serve_grants-holders}
use codegen_orchestrator.Grants.Escalation.{escalate_grant-twice}

abbrev reading : String → Bool → Observation
reading id present = record {
  observation_id = id;
  application_id = 12;
  server_handle = "s1";
  service_slug = "bot";
  env_key = "BOT_OWNER";
  present = present;
  containers = 1;
}

abbrev rival : GrantCreate
rival = record {
  id = "g2";
  project_id = "p";
  env_key = "BOT_OWNER";
  subject = "qa";
  head_sha = "abc";
  qa_run_id = "r";
  grant_run_id = "d2";
  qa_message = record { application_id = 12; rest = [] };
}

abbrev giving_up : Escalation
giving_up = record { error = "stuck"; run_error_message = "cleanup"; run_result = Json.null }

-- Two clear readings eleven minutes apart, with a rival in between.
abbrev readings : List (Env × Caller × GrantRequest)
readings =
    (env_at 1000 "x", service, observe "g" (reading "o1" false))
    ∷ (env_at 2000 "x", service, create rival)
    ∷ (env_at 660001000 "x", service, observe "g" (reading "o2" false))
    ∷ []

abbrev revoking_db : Db
revoking_db = with_grant (grant_with revoking) (run_with RunType.qa RunStatus.running)

abbrev status_of : String → Db → Option TemporaryAccessStatus
status_of id db = elim (find_grant id db) [ none ↦ none | some g ↦ some g.status ]

readings_close : status_of "g" (serve_grants readings revoking_db) ≡ some revoked
unfolding serve_grants handle_grant discard record_observation create_grant holder Table.find
    Table.save ◌>>=◌
readings_close = refl

handle_grant-step_example :
    GrantStep revoking_db
      (respond
        (handle_grant (env_at 1000 "x") service (observe "g" (reading "o1" false)))
        revoking_db).db
handle_grant-step_example =
    handle_grant-step (env_at 1000 "x") service (observe "g" (reading "o1" false)) revoking_db

serve_grants-Proven_example : All Proven (serve_grants readings revoking_db).grants
serve_grants-Proven_example = serve_grants-Proven readings revoking_db (refl, tt)

serve_grants-holders_example :
    holders "p" "BOT_OWNER" (serve_grants readings revoking_db).grants ≤ 1
serve_grants-holders_example =
    serve_grants-holders readings "p" "BOT_OWNER" revoking_db (omega arith)

escalate_grant-twice_example :
    let db' = (respond (escalate_grant (env_at 5000 "x") service "g" giving_up) revoking_db).db in
    (respond (escalate_grant (env_at 9000 "x") service "g" giving_up) db').db ≡ db'
unfolding escalate_grant escalated_grant escalated_run require_internal_or_admin Table.find
    Table.save ◌>>=◌
escalate_grant-twice_example =
    escalate_grant-twice (env_at 5000 "x") (env_at 9000 "x") service "g" giving_up revoking_db
      (escalated_grant 5000 giving_up (grant_with revoking))
      (escalated_grant 5000 giving_up (grant_with revoking)) refl refl
