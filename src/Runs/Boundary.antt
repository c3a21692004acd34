-- ===== src/Runs/Boundary.antt =====
-- services/api/src/routers/runs.py: starting a run, and claiming, withdrawing and superseding its
-- dispatch.
use codegen_orchestrator.Prelude.{
  ℕ, ◌+◌, String, Bool, true, false, Option, none, some, [], ◌=ₛ◌, ◌&&◌, ltb, if◌then◌else◌,
  or_else,
}
use codegen_orchestrator.Contracts.Column.{known}
use codegen_orchestrator.Contracts.Json
use codegen_orchestrator.Contracts.Json.{Json, Dict}
use codegen_orchestrator.Contracts.Run.{
  Run, running, cancelled, is_terminal, dispatch_claimed_at_key, dispatch_lease_expires_at_key,
  dispatch_superseded_at_key, dispatch_lease, DeployRunStart, DeployDispatchClaim, withdrawn,
  already_dispatched, already_terminal, DeployDispatchWithdrawal, DispatchSupersede, superseded,
  already_settled, not_claimed, lease_live, DeployDispatchSupersede,
}
use codegen_orchestrator.Session.{Env, Handler, pure, lift, commit, ◌>>=◌, ◌>>◌}
use codegen_orchestrator.Actor.{Caller, require_internal_or_admin}
use codegen_orchestrator.Runs.Rows.{
  lock_run, save_run, first_completion, has_recorded_outcome, claimed_at, lease_expires_at,
  is_superseded, run_status,
}

unfoldable pub start_run : Caller → String → Handler DeployRunStart
unfolding require_internal_or_admin lock_run save_run
start_run caller id = do
  require_internal_or_admin caller
  run ← lock_run id
  if is_terminal run.status
      then (do
        commit
        status ← lift (run_status run.status)
        pure (record { run_id = id; started = false; run_status = status }))
      else (do
        save_run (record run { status = known running })
        commit
        pure (record { run_id = id; started = true; run_status = running }))

-- The run with its claim stamped at `claimed`, and a lease that runs from `now`.
unfoldable pub claimed_run : ℕ → ℕ → Run → Run
claimed_run now claimed run = record run {
  run_metadata = some (
      Json.put dispatch_lease_expires_at_key (Json.moment (now + dispatch_lease))
        (Json.put dispatch_claimed_at_key (Json.moment claimed) (or_else run.run_metadata [])));
}

unfoldable pub claim_run_dispatch : Env → Caller → String → Handler DeployDispatchClaim
unfolding require_internal_or_admin lock_run save_run
claim_run_dispatch env caller id = do
  require_internal_or_admin caller
  run ← lock_run id
  if is_terminal run.status
      then (do
        commit
        status ← lift (run_status run.status)
        claimed ← lift (claimed_at run)
        lease ← lift (lease_expires_at run)
        pure (record {
          run_id = id;
          granted = false;
          run_status = status;
          claimed_at = claimed;
          lease_expires_at = lease;
        }))
      else (do
        claimed ← lift (claimed_at run)
        save_run (claimed_run env.now (or_else claimed env.now) run)
        commit
        status ← lift (run_status run.status)
        pure (record {
          run_id = id;
          granted = true;
          run_status = status;
          claimed_at = some (or_else claimed env.now);
          lease_expires_at = some (env.now + dispatch_lease);
        }))

-- The reason is recorded only if there is one.
abbrev with_reason : String → Option String → Option String
with_reason reason old = if reason =ₛ "" then old else some reason

-- The run after its claim was taken back.
unfoldable pub superseded_run : ℕ → String → Run → Run
superseded_run now reason run = record run {
  status = known cancelled;
  completed_at = first_completion now run;
  error_message = with_reason reason run.error_message;
  run_metadata =
      some (Json.put dispatch_superseded_at_key (Json.moment now) (or_else run.run_metadata []));
}

abbrev pub lease_is_live : Option ℕ → ℕ → Bool
lease_is_live none now = false
lease_is_live (some expires) now = ltb now expires

-- The answer is built after the commit, and reads the status again.
unfoldable pub supersede_answer :
    Run → Option ℕ → Option ℕ → DispatchSupersede → Handler DeployDispatchSupersede
supersede_answer run claimed lease outcome = do
  status ← lift (run_status run.status)
  pure (record {
    run_id = run.id;
    outcome = outcome;
    run_status = status;
    claimed_at = claimed;
    lease_expires_at = lease;
  })

-- What is left to do for a run whose outcome is open, by its claim.
unfoldable pub supersede_open :
    Env → (reason : String) → Run → (claimed lease : Option ℕ) → Handler DeployDispatchSupersede
unfolding save_run supersede_answer superseded_run
supersede_open env reason run none lease = do commit; supersede_answer run none lease not_claimed
supersede_open env reason run (some claimed) lease =
    if is_superseded run
    then (do commit; supersede_answer run (some claimed) lease superseded)
    else if lease_is_live lease env.now
    then (do commit; supersede_answer run (some claimed) lease lease_live)
    else (do
      save_run (superseded_run env.now reason run)
      commit
      supersede_answer (superseded_run env.now reason run) (some claimed) lease superseded)

unfoldable pub supersede_run_dispatch :
    Env → Caller → String → (reason : String) → Handler DeployDispatchSupersede
unfolding require_internal_or_admin lock_run supersede_answer supersede_open
supersede_run_dispatch env caller id reason = do
  require_internal_or_admin caller
  run ← lock_run id
  claimed ← lift (claimed_at run)
  lease ← lift (lease_expires_at run)
  if is_terminal run.status && has_recorded_outcome run
      then (do
        commit
        supersede_answer run claimed lease
            (if is_superseded run then superseded else already_settled))
      else supersede_open env reason run claimed lease

-- The run after its dispatch was withdrawn.
unfoldable pub withdrawn_run : ℕ → String → Run → Run
withdrawn_run now reason run = record run {
  status = known cancelled;
  completed_at = first_completion now run;
  error_message = with_reason reason run.error_message;
}

unfoldable pub withdraw_run_dispatch :
    Env → Caller → String → (reason : String) → Handler DeployDispatchWithdrawal
unfolding require_internal_or_admin lock_run save_run
withdraw_run_dispatch env caller id reason = do
  require_internal_or_admin caller
  run ← lock_run id
  claimed ← lift (claimed_at run)
  if is_terminal run.status
      then (do
        commit
        status ← lift (run_status run.status)
        pure (record {
          run_id = id;
          outcome = already_terminal;
          run_status = status;
          claimed_at = claimed;
        }))
      else (do
        save_run (withdrawn_run env.now reason run)
        commit
        pure (record {
          run_id = id;
          outcome = elim claimed [ none ↦ withdrawn | some _ ↦ already_dispatched ];
          run_status = cancelled;
          claimed_at = claimed;
        }))
