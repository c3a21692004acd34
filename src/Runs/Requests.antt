-- ===== src/Runs/Requests.antt =====
-- The requests that change runs, and the handler of each.
use codegen_orchestrator.Prelude.{List, [], ◌∷◌, String}
use codegen_orchestrator.Contracts.Run.{RunUpdate, RunCreate}
use codegen_orchestrator.Session.{Env, Db, Handler, discard, respond}
use codegen_orchestrator.Actor.{Caller}
use codegen_orchestrator.Runs.Boundary.{
  start_run, claim_run_dispatch, supersede_run_dispatch, withdraw_run_dispatch,
}
use codegen_orchestrator.Runs.Update.{update_run, create_run}

pub data RunRequest : Type 0 where
  create : RunCreate → RunRequest
  update : String → RunUpdate → RunRequest
  start claim : String → RunRequest
  supersede withdraw : String → (reason : String) → RunRequest

unfoldable pub handle_run : Env → Caller → RunRequest → Handler (Unit {0})
handle_run env caller (create body) = discard (create_run env body)
handle_run env caller (update id body) = discard (update_run env caller id body)
handle_run env caller (start id) = discard (start_run caller id)
handle_run env caller (claim id) = discard (claim_run_dispatch env caller id)
handle_run env caller (supersede id reason) = discard (supersede_run_dispatch env caller id reason)
handle_run env caller (withdraw id reason) = discard (withdraw_run_dispatch env caller id reason)

-- The tables after a sequence of requests, one session each.
unfoldable pub serve_runs : List (Env × Caller × RunRequest) → Db → Db
serve_runs [] db = db
serve_runs ((env, caller, r) ∷ rest) db = serve_runs rest (respond (handle_run env caller r) db).db
