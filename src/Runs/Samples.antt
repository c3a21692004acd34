-- ===== src/Runs/Samples.antt =====
-- Tests of the run endpoints, and their theorems at concrete requests.
use Prim.Native.Nat.{◌+◌}
use codegen_orchestrator.Prelude.{
  false, none, some, List, [], ◌∷◌, ◌≡◌, refl, ltb, All, if◌then◌else◌,
}
use codegen_orchestrator.Prelude.Table
use codegen_orchestrator.Contracts.Column.{known, unset, set}
use codegen_orchestrator.Contracts.Json
use codegen_orchestrator.Contracts.Run.{
  Run, RunStatus, RunType, RunUpdate, DispatchWithdrawal, queued, completed, cancelled,
  dispatch_lease,
}
use codegen_orchestrator.Session.{Env, ok, respond, discard, ◌>>=◌}
use codegen_orchestrator.Actor.{Caller, require_internal_or_admin, resolve_actor}
use codegen_orchestrator.Fixtures.{run_with, with_run, env_at}
use codegen_orchestrator.Runs.Rows.{claimed_at, lease_expires_at, is_superseded, read_back}
use codegen_orchestrator.Runs.Boundary.{
  start_run, claim_run_dispatch, supersede_run_dispatch, withdraw_run_dispatch,
}
use codegen_orchestrator.Runs.Update.{update_run, updated_run, rewrites}
use codegen_orchestrator.Runs.Requests.{RunRequest, update, start, claim, handle_run, serve_runs}
use codegen_orchestrator.Runs.Steps.{RunStep, handle_run-step}
use codegen_orchestrator.Runs.Keeps.{Stored, stored}
use codegen_orchestrator.Runs.Settled.{grants, starts, withdraw_run_dispatch-closes}
use codegen_orchestrator.Runs.Recorded.{Recorded, EndedAt, serve_runs-Recorded, serve_runs-EndedAt}
use codegen_orchestrator.Runs.Claims.{says_withdrawn, claim_run_dispatch-visible}
use codegen_orchestrator.Runs.Lease.{service, swept, status_of, supersede_run_dispatch-lease}
use codegen_orchestrator.Runs.Stamped.{Stamped, serve_runs-Stamped}

abbrev env : Env
env = env_at 1000 "x"

abbrev deploy : Run
deploy = run_with RunType.deploy queued

-- A deploy that ended with a result.
abbrev ended : Run
ended = record (run_with RunType.deploy completed) {
  result = some (Json.object (Json.field "deploy_status" (Json.text "success") Json.end_fields));
  error_message = some "slow";
  completed_at = some 900;
}

abbrev late_failure : RunUpdate
late_failure = record {
  status = set (some (known RunStatus.failed));
  run_metadata = unset;
  result = unset;
  error_message = unset;
  error_traceback = unset;
  started_at = unset;
  completed_at = unset;
  iteration = unset;
  observability = [];
}

abbrev attempts : List (Env × Caller × RunRequest)
attempts =
    (env, service, update "r" late_failure)
    ∷ (env, service, start "r")
    ∷ (env, service, claim "r")
    ∷ []

started_and_failed :
    status_of "r" (serve_runs ((env, service, start "r") ∷ attempts) (with_run deploy))
    ≡ some (known RunStatus.failed)
unfolding serve_runs handle_run discard Table.find Table.save start_run claim_run_dispatch
    require_internal_or_admin resolve_actor update_run updated_run rewrites ◌>>=◌ claimed_at
    lease_expires_at Json.get
started_and_failed = refl

handle_run-step_example :
    RunStep
      (claim "r")
      (with_run deploy)
      (respond (handle_run env service (claim "r")) (with_run deploy)).db
handle_run-step_example = handle_run-step env service (claim "r") (with_run deploy)

withdraw_run_dispatch-closes_example :
    let after =
      serve_runs attempts
        (respond (withdraw_run_dispatch env service "r" "cancelled") (with_run deploy)).db in
    (grants (respond (claim_run_dispatch env service "r") after).answer ≡ false)
    × (starts (respond (start_run service "r") after).answer ≡ false)
unfolding withdraw_run_dispatch require_internal_or_admin claimed_at Json.get Table.find ◌>>=◌
withdraw_run_dispatch-closes_example =
    withdraw_run_dispatch-closes env service "r" "cancelled" (with_run deploy)
      (record {
        run_id = "r";
        outcome = DispatchWithdrawal.withdrawn;
        run_status = cancelled;
        claimed_at = none;
      })
      attempts env service refl

serve_runs-Recorded_example :
    Stored (Recorded completed (some "slow")) "r" (serve_runs attempts (with_run ended))
unfolding Table.find read_back
serve_runs-Recorded_example =
    serve_runs-Recorded attempts "r" (with_run ended) completed (some "slow")
      (stored ended refl (refl, refl, refl, refl))

serve_runs-EndedAt_example : Stored (EndedAt 900) "r" (serve_runs attempts (with_run ended))
unfolding Table.find
serve_runs-EndedAt_example =
    serve_runs-EndedAt attempts "r" (with_run ended) 900 (stored ended refl refl)

claim_run_dispatch-visible_example :
    says_withdrawn
      (respond (withdraw_run_dispatch env service "r" "") (
        serve_runs attempts
          (respond (claim_run_dispatch env service "r") (with_run deploy)).db)).answer
    ≡ false
unfolding claim_run_dispatch require_internal_or_admin claimed_at Json.get Table.find ◌>>=◌
claim_run_dispatch-visible_example =
    claim_run_dispatch-visible env service "r" (with_run deploy) attempts env service "" refl refl

supersede_run_dispatch-lease_example :
    let after = (respond (claim_run_dispatch env service "r") (with_run deploy)).db in
    let live = ltb 400000000 (1000 + dispatch_lease) in
    ((respond (supersede_run_dispatch (env_at 400000000 "x") service "r" "silent") after).answer
      ≡ ok (swept live queued "r" 1000 (1000 + dispatch_lease)))
    × (status_of "r"
          (respond (supersede_run_dispatch (env_at 400000000 "x") service "r" "silent") after).db
        ≡ some (known (if live then queued else cancelled)))
unfolding Table.find claimed_at is_superseded Json.get
supersede_run_dispatch-lease_example =
    supersede_run_dispatch-lease env (env_at 400000000 "x") "silent" (with_run deploy) deploy queued
      none refl refl refl refl refl

serve_runs-Stamped_example : All Stamped (serve_runs attempts (with_run ended)).runs
serve_runs-Stamped_example = serve_runs-Stamped attempts (with_run ended) (refl, tt)
